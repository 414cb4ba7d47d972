-- ===== src/Text/RoundTrip.antt =====
-- Printing a number and reading it back (`hex`, `str` and `int` as the program uses them).
use mathlib.Core.Option
use idic.Prelude.{
  ◌++◌, append-nil, sym, ◌^◌, Bool-cases, inl, inr, ◌==◌, ◌≢◌, ◌∙◌, ap, ℕ, zero, suc, ◌/◌, ◌%◌, ◌≤◌,
  ◌<◌, ◌≡◌, refl, some, [], ◌∷◌, arith,
}
use idic.Prelude.Int.{pos, negsuc}
use idic.Text.{
  print_base, magnitude, strip, signed, long_mark, is_space, lstrip, rstrip, Text, codes,
  digit_char, digit_value, digits, scan, hex, int_of_text, split_args,
}

split_args_test :
    split_args (codes "a,b;; c  d") ≡ codes "a" ∷ codes "b" ∷ codes "c" ∷ codes "d" ∷ []
unfolding split_args codes
split_args_test = refl

hex_test : hex (pos 0x1ac0) ≡ codes "0x1ac0"
unfolding hex codes
hex_test = refl

int_test : int_of_text 16 (codes "-0xFF") ≡ some (negsuc 254)
unfolding int_of_text codes
int_test = refl

pub digit_value-digit_char : (d : ℕ) → d < 36 → digit_value (digit_char d) ≡ some d
unfolding digit_value digit_char
digit_value-digit_char d h = ground arith

module _ (base : ℕ) (low : 2 ≤ base) (high : base ≤ 36) where
  div-le : (n f : ℕ) → n ≤ suc f → n / base ≤ f
  div-le n f h = grind arith

  scan_last :
      (n : ℕ) (out : Text) → scan base (digit_char (n % base) ∷ out) (n / base) ≡ scan base out n
  unfolding scan
  scan_last n out = ground (arith, digit_value-digit_char (n % base))

  scan-digits : (f n : ℕ) (out : Text) → n ≤ f → scan base (digits base f n out) 0 ≡ scan base out n
  unfolding digits
  scan-digits zero n out h = ground arith
  scan-digits (suc f) n out h =
      ground
        (arith, scan-digits f (n / base) (digit_char (n % base) ∷ out), scan_last n out, div-le n f)

-- No character is white space or a sign.
unfoldable pub AllPlain : Text → Type 0
AllPlain [] = Unit
AllPlain (c ∷ s) = (b'0' ≤ c) × AllPlain s

digits-AllPlain : (base f n : ℕ) (out : Text) → AllPlain out → AllPlain (digits base f n out)
unfolding digits AllPlain digit_char
digits-AllPlain base zero n out h = h
digits-AllPlain base (suc f) n out h = elim (Bool-cases (n == 0)) [
  | inl none_left ↦ rw none_left h
  | inr some_left ↦
      rw some_left
        (digits-AllPlain base f (n / base) (digit_char (n % base) ∷ out) (ground arith, h))
]

pub print_base-AllPlain : (base n : ℕ) → AllPlain (print_base base n)
unfolding print_base AllPlain
print_base-AllPlain base n = elim (Bool-cases (n == 0)) [
  | inl is_zero ↦ rw is_zero (omega arith, tt)
  | inr positive ↦ rw positive (digits-AllPlain base n n [] tt)
]

pub rstrip_plain : (s : Text) → AllPlain s → rstrip s ≡ s
unfolding rstrip AllPlain is_space
rstrip_plain [] h = refl
rstrip_plain (c ∷ []) (d, h) = ground arith
rstrip_plain (c ∷ e ∷ s) (d, h) = rw (rstrip_plain (e ∷ s) h)

pub lstrip_plain : (c : ℕ) (s : Text) → b'0' ≤ c → lstrip (c ∷ s) ≡ c ∷ s
unfolding lstrip is_space
lstrip_plain c s h = ground arith

magnitude_prefixed :
    (s : Text) (n : ℕ) → s ≢ [] → scan 16 s 0 ≡ some n → magnitude 16 (b'0' ∷ b'x' ∷ s) ≡ some n
unfolding magnitude
magnitude_prefixed [] n h e = absurd (h refl)
magnitude_prefixed (c ∷ s) n h e = e

digits-nonempty : (base f n : ℕ) (c : ℕ) (out : Text) → digits base f n (c ∷ out) ≢ []
unfolding digits
digits-nonempty base zero n c out = λ h. cc
digits-nonempty base (suc f) n c out = elim (Bool-cases (n == 0)) [
  | inl is_zero ↦ rw is_zero (λ h. cc)
  | inr positive ↦ rw positive (digits-nonempty base f (n / base) (digit_char (n % base)) (c ∷ out))
]

-- A number but zero is printed by `digits`, and has a digit.
print_base_step :
    (base n : ℕ)
    → print_base base (suc n) ≡ digits base n (suc n / base) (digit_char (suc n % base) ∷ [])
unfolding print_base digits
print_base_step base n = ground arith

pub print_base-nonempty : (base n : ℕ) → print_base base n ≢ []
unfolding print_base
print_base-nonempty base zero = λ h. cc
print_base-nonempty base (suc n) = λ h.
    digits-nonempty base n (suc n / base) (digit_char (suc n % base)) []
      (sym (print_base_step base n) ∙ h)

scan-print_base : (n : ℕ) → scan 16 (print_base 16 n) 0 ≡ some n
unfolding print_base scan
scan-print_base zero = refl
scan-print_base (suc n) =
    ap (λ s. scan 16 s 0) (print_base_digits n)
    ∙ scan-digits 16 (omega arith) (omega arith) (suc n) (suc n) [] (omega arith)
  where
    print_base_digits : (n : ℕ) → print_base 16 (suc n) ≡ digits 16 (suc n) (suc n) []
    print_base_digits n = ground arith

strip_prefixed : (s : Text) → AllPlain s → strip (b'0' ∷ b'x' ∷ s) ≡ b'0' ∷ b'x' ∷ s
unfolding strip AllPlain
strip_prefixed s h =
    ap rstrip (lstrip_plain b'0' (b'x' ∷ s) (omega arith))
    ∙ rstrip_plain (b'0' ∷ b'x' ∷ s) (omega arith, (omega arith, h))

long_mark_int : (limit n : ℕ) → n < limit → long_mark limit n ≡ []
unfolding long_mark
long_mark_int limit n h = ground arith

pub hex_lem : (n : ℕ) → n < 2 ^ 63 → hex (pos n) ≡ b'0' ∷ b'x' ∷ print_base 16 n
unfolding hex
hex_lem n h =
    ap (λ (t : Text). b'0' ∷ b'x' ∷ print_base 16 n ++ t) (long_mark_int (2 ^ 63) n h)
    ∙ ap (λ (t : Text). b'0' ∷ b'x' ∷ t) (append-nil (print_base 16 n))

-- An int of the machine that is printed by `hex` is read back by `int(_, 16)`: the sensor ids that
-- the program prints name their sensors.
pub int_of_text-hex : (n : ℕ) → n < 2 ^ 63 → int_of_text 16 (hex (pos n)) ≡ some (pos n)
unfolding int_of_text signed
int_of_text-hex n h =
    ap (int_of_text 16) (hex_lem n h)
    ∙ ap (signed 16) (strip_prefixed (print_base 16 n) (print_base-AllPlain 16 n))
    ∙ ap (Option.map pos)
        (magnitude_prefixed (print_base 16 n) n (print_base-nonempty 16 n) (scan-print_base n))
