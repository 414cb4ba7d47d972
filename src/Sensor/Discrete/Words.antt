-- ===== src/Sensor/Discrete/Words.antt =====
-- The texts of discrete values (sensor.py) and the numbers of sixteen bits that they stand for.
use mathlib.Core.Option
use idic.Prelude.{
  ◌||◌, ◌&&◌, true, false, Bool, ℕ, zero, suc, ◌+◌, ◌-◌, ◌*◌, ◌/◌, ◌%◌, ◌^◌, ◌≤◌, ◌<◌, ◌≡◌, refl,
  ap, ◌∙◌, arith, Option, some, none, [], ◌∷◌, ◌++◌, drop, bit_and, bit_or, ◌==◌, if◌then◌else◌,
  Bool,
}
use idic.Prelude.Int.{ℤ, pos, or_ℤ, and_not_ℤ}
use idic.Bits.Single.{bit, bit_le, bit-set_power, bit-clear_power, bit_or-lt, power_lt}
use idic.Text.{
  Text, codes, digit_char, print_base, zfill, binary, slice, int_of_text, scan, magnitude, signed,
  strip, rstrip, scan_some,
}
use idic.Text.RoundTrip.{hex_lem, digit_value-digit_char, lstrip_plain, rstrip_plain, AllPlain}
use idic.Text.Fixed.{fixed, zfill-print_base, fixed-bit}
use idic.Sensor.Discrete.{bits_16, char_at, with_bit, value_text_of}
use idic.Sensor.Discrete.Diffs.{register_bits, set_bit}

bits_16-fixed : (n : ℕ) → n < 65536 → bits_16 (pos n) ≡ fixed 2 16 n []
unfolding bits_16 binary
bits_16-fixed n h =
    zfill-print_base 2 refl refl (λ n f h. omega arith) (λ n p h. omega arith) 15 n h

pub digit_char_bit : (b : ℕ) → b ≤ 1 → digit_char b - b'0' ≡ b
unfolding digit_char
digit_char_bit b h = ground arith

-- The character of a bit in a number of sixteen bits.
pub char_at-bits_16 :
    (n j : ℕ) → n < 65536 → j < 16 → char_at (bits_16 (pos n)) (15 - j) ≡ digit_char (bit j n)
unfolding char_at
char_at-bits_16 n j h k =
    ap (λ t. char_at t (15 - j)) (bits_16-fixed n h)
    ∙ ap (λ o. elim o [ none ↦ b'0' | some c ↦ c ]) (fixed-bit 16 n j [] k)

-- The register that a number of sixteen bits stands for.
pub register_bits-bit : (n j : ℕ) → n < 65536 → j < 16 → register_bits (bits_16 (pos n)) j ≡ bit j n
unfolding register_bits
register_bits-bit n j h k =
    ap (λ c. c - b'0') (char_at-bits_16 n j h k) ∙ digit_char_bit (bit j n) (bit_le j n)

four_digits : (n : ℕ) → n < 65536 → zfill 4 (print_base 16 n) ≡ fixed 16 4 n []
four_digits n h = zfill-print_base 16 refl refl (λ n f h. omega arith) (λ n p h. omega arith) 3 n h

digit_char_range : (d : ℕ) → d < 16 → (b'0' ≤ digit_char d) × (digit_char d ≤ b'f')
unfolding digit_char
digit_char_range d h = ground arith

digit_char_not_x : (d : ℕ) → d < 16 → (digit_char d == b'x' || digit_char d == b'X') ≡ false
unfolding digit_char
digit_char_not_x d h = ground arith

scan_step :
    (d acc : ℕ) (t : Text) → d < 16 → scan 16 (digit_char d ∷ t) acc ≡ scan 16 t (acc * 16 + d)
unfolding scan
scan_step d acc t h = ground (arith, digit_value-digit_char d)

module _ (a b c d : ℕ) (ha : a < 16) (hb : b < 16) (hc : c < 16) (hd : d < 16) where
  abbrev four : Text
  four = digit_char a ∷ digit_char b ∷ digit_char c ∷ digit_char d ∷ []

  scan-four : scan 16 four 0 ≡ some (((a * 16 + b) * 16 + c) * 16 + d)
  unfolding scan
  scan-four =
      scan_step a 0 (digit_char b ∷ digit_char c ∷ digit_char d ∷ []) ha
      ∙ scan_step b (0 * 16 + a) (digit_char c ∷ digit_char d ∷ []) hb
      ∙ scan_step c ((0 * 16 + a) * 16 + b) (digit_char d ∷ []) hc
      ∙ scan_step d (((0 * 16 + a) * 16 + b) * 16 + c) [] hd
      ∙ ap some (omega arith)

  magnitude-four : magnitude 16 four ≡ scan 16 four 0
  unfolding magnitude
  magnitude-four =
      ap
        (λ (x : Bool).
          scan_some 16
            (if digit_char a == b'0' && x then digit_char c ∷ digit_char d ∷ [] else four))
        (digit_char_not_x b hb)
      ∙ by_bool (digit_char a == b'0')
    where
      by_bool :
          (x : Bool)
          → scan_some 16 (if x && false then digit_char c ∷ digit_char d ∷ [] else four)
            ≡ scan 16 four 0
      by_bool true = refl
      by_bool false = refl

  strip-four : strip four ≡ four
  unfolding strip AllPlain
  strip-four =
      ap rstrip (
        lstrip_plain (digit_char a) (digit_char b ∷ digit_char c ∷ digit_char d ∷ [])
          (digit_char_range a ha).0)
      ∙ rstrip_plain four (
        (digit_char_range a ha).0,
        ((digit_char_range b hb).0, ((digit_char_range c hc).0, ((digit_char_range d hd).0, tt))),
      )

  signed-four : signed 16 four ≡ Option.map pos (magnitude 16 four)
  unfolding signed
  signed-four = ground (arith, digit_char_range a ha)

  int_of_four : int_of_text 16 four ≡ some (pos (((a * 16 + b) * 16 + c) * 16 + d))
  unfolding int_of_text
  int_of_four =
      ap (signed 16) strip-four ∙ signed-four ∙ ap (Option.map pos) (magnitude-four ∙ scan-four)

-- The number that a text of a discrete value reads as.
abbrev pub reads : Text → Option ℤ
reads t = int_of_text 16 (slice t 4 6 ++ slice t 2 4)

-- The text of a number of sixteen bits: the two digits of the lower byte, and those of the upper one.
abbrev pub lower_byte_first : ℕ → Text
unfolding codes
lower_byte_first n =
    b'0'
    ∷ b'x'
    ∷ digit_char (n / 16 % 16)
    ∷ digit_char (n % 16)
    ∷ digit_char (n / 4096)
    ∷ digit_char (n / 256 % 16)
    ∷ []

pub value_text_of-lower_byte_first :
    (n : ℕ) → n < 65536 → value_text_of (pos n) ≡ lower_byte_first n
unfolding value_text_of slice codes fixed
value_text_of-lower_byte_first n h =
    ap (λ t. codes "0x" ++ slice (zfill 4 (drop 2 t)) 2 4 ++ slice (zfill 4 (drop 2 t)) 0 2)
      (hex_lem n (omega arith))
    ∙ ap (λ t. codes "0x" ++ slice t 2 4 ++ slice t 0 2) (four_digits n h)
    ∙ ap
        (λ d.
          b'0'
          ∷ b'x'
          ∷ digit_char (n / 16 % 16)
          ∷ digit_char (n % 16)
          ∷ digit_char d
          ∷ digit_char (n / 16 / 16 % 16)
          ∷ [])
        (omega arith)
    ∙ ap
        (λ d.
          b'0'
          ∷ b'x'
          ∷ digit_char (n / 16 % 16)
          ∷ digit_char (n % 16)
          ∷ digit_char (n / 4096)
          ∷ digit_char d
          ∷ [])
        (omega arith)

-- A number of sixteen bits that is stored as a discrete value is read back.
pub reads-value_text_of : (n : ℕ) → n < 65536 → reads (value_text_of (pos n)) ≡ some (pos n)
unfolding value_text_of slice codes fixed
reads-value_text_of n h =
    ap (λ t. reads (codes "0x" ++ slice (zfill 4 (drop 2 t)) 2 4 ++ slice (zfill 4 (drop 2 t)) 0 2))
      (hex_lem n (omega arith))
    ∙ ap (λ t. reads (codes "0x" ++ slice t 2 4 ++ slice t 0 2)) (four_digits n h)
    ∙ int_of_four (n / 16 / 16 / 16 % 16) (n / 16 / 16 % 16) (n / 16 % 16) (n % 16) (omega arith)
        (omega arith) (omega arith) (omega arith)
    ∙ ap (λ m. some (pos m)) (omega arith)

-- The number with one bit written.
pub with_bit-bit :
    (n i b : ℕ)
    → n < 65536
    → i < 16
    → b ≤ 1
    → (m : ℕ) × (with_bit (pos n) i b ≡ pos m)
      × (m < 65536)
      × ((j : ℕ) → bit j m ≡ set_bit i b (λ k. bit k n) j)
unfolding with_bit or_ℤ and_not_ℤ
with_bit-bit n i zero h k l = (n - bit_and n (2 ^ i), refl, omega arith, λ j. bit-clear_power i j n)
with_bit-bit n i (suc zero) h k l =
    (bit_or n (2 ^ i), refl, bit_or-lt 16 n (2 ^ i) h (power_lt i 16 k), λ j. bit-set_power i j n)
with_bit-bit n i (suc (suc b)) h k l = absurd (omega arith)
