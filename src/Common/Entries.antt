-- ===== src/Common/Entries.antt =====
-- What `str_hex_to_int` (common.py) makes of zero.
use idic.Prelude.{ℕ, zero, suc, ◌≡◌, refl, ap, none, [], ◌∷◌, replicate}
use idic.Text.{Text, codes, starts_with, int_of_text}
use idic.Model.{World, ok}
use idic.Common.{lstrip_0x, stripped_entry, checked_entry, str_hex_to_int}

lstrip_zeros : (n : ℕ) → lstrip_0x (replicate n b'0') ≡ []
unfolding lstrip_0x
lstrip_zeros zero = refl
lstrip_zeros (suc n) = lstrip_zeros n

stripped_zeros : (n : ℕ) → stripped_entry (b'0' ∷ b'x' ∷ replicate n b'0') ≡ []
unfolding stripped_entry starts_with codes
stripped_zeros n = lstrip_zeros n

-- A number that is written as 0x and zeros only is refused: every leading 0 and x is stripped, and
-- nothing is left to read.
pub str_hex_to_int_zero :
    (n : ℕ) (w : World) → (str_hex_to_int (b'0' ∷ b'x' ∷ replicate n b'0') w).0 ≡ ok none
unfolding str_hex_to_int int_of_text checked_entry
str_hex_to_int_zero n w =
    ap (λ (t : Text). (checked_entry (int_of_text 16 t) w).0) (stripped_zeros n)
