-- ===== src/Text/Fixed.antt =====
-- Numbers that are printed and filled up with zeros to a given number of digits.
use idic.Prelude.{
  ℕ, zero, suc, ◌+◌, ◌-◌, ◌*◌, ◌/◌, ◌%◌, ◌≤◌, ◌<◌, ◌≡◌, ◌≢◌, refl, sym, ap, ◌∙◌, arith, some, [],
  ◌∷◌, ◌++◌, length, replicate, get_elem?,
}
use idic.Bits.Single.{bit}
use idic.Text.RoundTrip.{AllPlain, print_base-AllPlain, print_base-nonempty}
use idic.Text.{Text, digit_char, digits, print_base, zfill}

-- Exactly k digits.
unfoldable pub fixed : ℕ → ℕ → ℕ → Text → Text
fixed base zero n out = out
fixed base (suc k) n out = fixed base k (n / base) (digit_char (n % base) ∷ out)

-- The numbers of k digits are below this.
abbrev pub capacity : ℕ → ℕ → ℕ
capacity base zero = 1
capacity base (suc k) = capacity base k * base

replicate_last :
    (k : ℕ) (out : Text) → replicate k b'0' ++ b'0' ∷ out ≡ replicate (suc k) b'0' ++ out
replicate_last zero out = refl
replicate_last (suc k) out = ap (λ t. b'0' ∷ t) (replicate_last k out)

-- A text, filled up in front.
abbrev filled : ℕ → Text → Text
filled k t = replicate (k - length t) b'0' ++ t

zfill-plain : (k : ℕ) (t : Text) → t ≢ [] → AllPlain t → zfill k t ≡ filled k t
unfolding zfill AllPlain
zfill-plain k [] h p = absurd (h refl)
zfill-plain k (c ∷ t) h p = ground (arith, p.0)

-- For the bases that the program prints in, by what their divisions do.
module _ (base : ℕ) (zero_div : 0 / base ≡ 0) (zero_mod : 0 % base ≡ 0)
    (smaller : (n f : ℕ) → n ≤ suc f → n / base ≤ f)
    (shorter : (n p : ℕ) → n < p * base → n / base < p) where
  fixed-zero : (k : ℕ) (out : Text) → fixed base k 0 out ≡ replicate k b'0' ++ out
  unfolding fixed digit_char
  fixed-zero zero out = refl
  fixed-zero (suc k) out =
      ap (λ n. fixed base k n (digit_char (0 % base) ∷ out)) zero_div
      ∙ ap (λ d. fixed base k 0 (digit_char d ∷ out)) zero_mod
      ∙ fixed-zero k (b'0' ∷ out)
      ∙ replicate_last k out

  digits-zero : (f : ℕ) (out : Text) → digits base f 0 out ≡ out
  unfolding digits
  digits-zero zero out = refl
  digits-zero (suc f) out = refl

  digits-step :
      (f n : ℕ) (out : Text)
      → digits base (suc f) (suc n) out
        ≡ digits base f (suc n / base) (digit_char (suc n % base) ∷ out)
  unfolding digits
  digits-step f n out = ground arith

  filled_zero : (k : ℕ) (out : Text) → filled (k + length out) out ≡ replicate k b'0' ++ out
  filled_zero k out = ap (λ m. replicate m b'0' ++ out) (omega arith)

  filled-digits :
      (k f n : ℕ) (out : Text)
      → n < capacity base k
      → n ≤ f
      → filled (k + length out) (digits base f n out) ≡ fixed base k n out
  unfolding fixed
  filled-digits k f zero out h le =
      ap (filled (k + length out)) (digits-zero f out) ∙ filled_zero k out ∙ sym (fixed-zero k out)
  filled-digits zero f (suc n) out h le = absurd (omega arith)
  filled-digits (suc k) zero (suc n) out h le = absurd (omega arith)
  filled-digits (suc k) (suc f) (suc n) out h le =
      ap (filled (suc k + length out)) (digits-step f n out)
      ∙ ap (λ m. filled m (digits base f (suc n / base) (digit_char (suc n % base) ∷ out)))
          (omega arith)
      ∙ filled-digits k f (suc n / base) (digit_char (suc n % base) ∷ out)
          (shorter (suc n) (capacity base k) h) (smaller (suc n) f le)

  print_base-digits : (n : ℕ) → print_base base (suc n) ≡ digits base (suc n) (suc n) []
  unfolding print_base
  print_base-digits n = ground arith

  print_base_zero : print_base base 0 ≡ b'0' ∷ []
  unfolding print_base
  print_base_zero = refl

  pub zfill-print_base :
      (k n : ℕ)
      → n < capacity base (suc k)
      → zfill (suc k) (print_base base n) ≡ fixed base (suc k) n []
  zfill-print_base k n h =
      zfill-plain (suc k) (print_base base n) (print_base-nonempty base n)
        (print_base-AllPlain base n)
      ∙ filled_print_base k n h
    where
      filled_print_base :
          (k n : ℕ)
          → n < capacity base (suc k)
          → filled (suc k) (print_base base n) ≡ fixed base (suc k) n []
      filled_print_base k zero h =
          ap (filled (suc k)) print_base_zero
          ∙ ap (λ m. replicate m b'0' ++ b'0' ∷ []) (omega arith)
          ∙ replicate_last k []
          ∙ sym (fixed-zero (suc k) [])
      filled_print_base k (suc n) h =
          ap (filled (suc k)) (print_base-digits n)
          ∙ ap (λ m. filled m (digits base (suc n) (suc n) [])) (omega arith)
          ∙ filled-digits (suc k) (suc n) (suc n) [] h (omega arith)

-- Behind the digits stands the rest.
fixed-behind :
    (base k n i : ℕ) (out : Text) → get_elem? (fixed base k n out) (k + i) ≡ get_elem? out i
unfolding fixed
fixed-behind base zero n i out = ap (get_elem? out) (omega arith)
fixed-behind base (suc k) n i out =
    ap (get_elem? (fixed base k (n / base) (digit_char (n % base) ∷ out))) (omega arith)
    ∙ fixed-behind base k (n / base) (suc i) (digit_char (n % base) ∷ out)

-- The binary digits, the highest first.
pub fixed-bit :
    (k n j : ℕ) (out : Text)
    → j < k
    → get_elem? (fixed 2 k n out) (k - 1 - j) ≡ some (digit_char (bit j n))
unfolding fixed bit
fixed-bit zero n j out h = absurd (omega arith)
fixed-bit (suc k) n zero out h =
    ap (get_elem? (fixed 2 k (n / 2) (digit_char (n % 2) ∷ out))) (omega arith)
    ∙ fixed-behind 2 k (n / 2) 0 (digit_char (n % 2) ∷ out)
fixed-bit (suc k) n (suc j) out h =
    ap (get_elem? (fixed 2 k (n / 2) (digit_char (n % 2) ∷ out))) (omega arith)
    ∙ fixed-bit k (n / 2) j (digit_char (n % 2) ∷ out) (omega arith)
