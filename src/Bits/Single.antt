-- ===== src/Bits/Single.antt =====
-- The single bits of a number under `|` and `& ~`, as `set_state` of sensor.py uses them.
use Prim.Native.Nat.{digits, bit_and-bitwise, bit_or-bitwise}
use idic.Prelude.{
  ℕ, zero, suc, ◌+◌, ◌-◌, ◌*◌, ◌/◌, ◌%◌, ◌^◌, ◌≤◌, ◌<◌, min, max, ◌≡◌, refl, sym, ap, ◌∙◌, arith,
  bit_and, bit_or, ◌==◌, if◌then◌else◌,
}

-- Bit j of a number.
unfoldable pub bit : ℕ → ℕ → ℕ
bit zero n = n % 2
bit (suc j) n = bit j (n / 2)

module _ (z : ℕ → ℕ) (f : ℕ → ℕ → ℕ) where
  enough : (n m a b : ℕ) → a ≤ n → a ≤ m → digits z f n a b ≡ digits z f m a b
  enough zero zero zero b h k = refl
  enough zero (suc m) zero b h k = refl
  enough (suc n) zero zero b h k = refl
  enough (suc n) (suc m) zero b h k = refl
  enough zero m (suc a) b h k = absurd (omega arith)
  enough (suc n) zero (suc a) b h k = absurd (omega arith)
  enough (suc n) (suc m) (suc a) b h k =
      ap (λ d. d * 2 + f (suc a % 2) (b % 2))
        (enough n m (suc a / 2) (b / 2) (omega arith) (omega arith))

  -- The lowest digit, and the rest.
  lowest :
      ((b : ℕ) → z b ≡ z (b / 2) * 2 + f 0 (b % 2))
      → (a b : ℕ) → digits z f a a b ≡ digits z f (a / 2) (a / 2) (b / 2) * 2 + f (a % 2) (b % 2)
  lowest h zero b = h b
  lowest h (suc a) b =
      ap (λ d. d * 2 + f (suc a % 2) (b % 2))
        (enough a (suc a / 2) (suc a / 2) (b / 2) (omega arith) (omega arith))

bit_or-lowest : (a b : ℕ) → bit_or a b ≡ bit_or (a / 2) (b / 2) * 2 + max (a % 2) (b % 2)
bit_or-lowest a b =
    bit_or-bitwise a b
    ∙ lowest (λ b. b) max (λ b. omega arith) a b
    ∙ ap (λ d. d * 2 + max (a % 2) (b % 2)) (sym (bit_or-bitwise (a / 2) (b / 2)))

bit_and-lowest : (a b : ℕ) → bit_and a b ≡ bit_and (a / 2) (b / 2) * 2 + min (a % 2) (b % 2)
bit_and-lowest a b =
    bit_and-bitwise a b
    ∙ lowest (λ b. 0) min (λ b. omega arith) a b
    ∙ ap (λ d. d * 2 + min (a % 2) (b % 2)) (sym (bit_and-bitwise (a / 2) (b / 2)))

bit_and-le_fuel : (n a b : ℕ) → a ≤ n → bit_and a b ≤ a
bit_and-le_fuel zero zero b h = omega (arith, bit_and-bitwise 0 b)
bit_and-le_fuel zero (suc a) b h = absurd (omega arith)
bit_and-le_fuel (suc n) zero b h = omega (arith, bit_and-bitwise 0 b)
bit_and-le_fuel (suc n) (suc a) b h =
    omega (arith, bit_and-lowest (suc a) b, bit_and-le_fuel n (suc a / 2) (b / 2) (omega arith))

pub bit_and-le : (a b : ℕ) → bit_and a b ≤ a
bit_and-le a b = bit_and-le_fuel a a b (omega arith)

bit-bit_or : (j a b : ℕ) → bit j (bit_or a b) ≡ max (bit j a) (bit j b)
unfolding bit
bit-bit_or zero a b = omega (arith, bit_or-lowest a b)
bit-bit_or (suc j) a b =
    ap (bit j) (omega (arith, bit_or-lowest a b)) ∙ bit-bit_or j (a / 2) (b / 2)

bit-bit_and_not : (j a b : ℕ) → bit j (a - bit_and a b) ≡ bit j a - min (bit j a) (bit j b)
unfolding bit
bit-bit_and_not zero a b = omega (arith, bit_and-lowest a b, bit_and-le (a / 2) (b / 2))
bit-bit_and_not (suc j) a b =
    ap (bit j) (omega (arith, bit_and-lowest a b, bit_and-le (a / 2) (b / 2)))
    ∙ bit-bit_and_not j (a / 2) (b / 2)

bit-zero : (j : ℕ) → bit j 0 ≡ 0
unfolding bit
bit-zero zero = refl
bit-zero (suc j) = bit-zero j

bit-power : (i j : ℕ) → bit j (2 ^ i) ≡ (if i == j then 1 else 0)
unfolding bit
bit-power zero zero = refl
bit-power zero (suc j) = bit-zero j ∙ ground arith
bit-power (suc i) zero = ground arith
bit-power (suc i) (suc j) = ap (bit j) (omega arith) ∙ bit-power i j ∙ ground arith

pub bit_le : (j n : ℕ) → bit j n ≤ 1
unfolding bit
bit_le zero n = omega arith
bit_le (suc j) n = bit_le j (n / 2)

-- `n | 1 << i` and `n & ~(1 << i)`.
pub bit-set_power : (i j n : ℕ) → bit j (bit_or n (2 ^ i)) ≡ (if i == j then 1 else bit j n)
bit-set_power i j n = ground (arith, bit-bit_or j n (2 ^ i), bit-power i j, bit_le j n)

pub bit-clear_power : (i j n : ℕ) → bit j (n - bit_and n (2 ^ i)) ≡ (if i == j then 0 else bit j n)
bit-clear_power i j n = ground (arith, bit-bit_and_not j n (2 ^ i), bit-power i j, bit_le j n)

bit_or-zeros : (a b : ℕ) → a ≡ 0 → b ≡ 0 → bit_or a b ≡ 0
bit_or-zeros a b h k = ap (λ x. bit_or x b) h ∙ bit_or-bitwise 0 b ∙ k

power_pos : (k : ℕ) → 0 < 2 ^ k
power_pos zero = omega arith
power_pos (suc k) = omega (arith, power_pos k)

pub bit_or-lt : (k a b : ℕ) → a < 2 ^ k → b < 2 ^ k → bit_or a b < 2 ^ k
bit_or-lt zero a b h k = ground (arith, bit_or-zeros a b)
bit_or-lt (suc k) a b h l =
    omega (arith, bit_or-lowest a b, bit_or-lt k (a / 2) (b / 2) (omega arith) (omega arith))

pub power_lt : (i k : ℕ) → i < k → 2 ^ i < 2 ^ k
power_lt i zero h = absurd (omega arith)
power_lt zero (suc k) h = omega (arith, power_pos k)
power_lt (suc i) (suc k) h = omega (arith, power_lt i k)
