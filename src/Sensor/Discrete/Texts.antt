-- ===== src/Sensor/Discrete/Texts.antt =====
-- The texts of discrete values that sensor.py writes.
use idic.Prelude.{
  ℕ, zero, suc, ◌≡◌, refl, ◌≤◌, ◌-◌, arith, length, ◌++◌, [], ◌∷◌, length-append, length-drop,
  replicate, true, take, drop, ap,
}
use idic.Prelude.Int.{ℤ}
use idic.Text.{Text, codes, zfill, slice, hex, starts_with}
use idic.Sensor.Discrete.{value_text_of, is_discrete_text}

length-replicate : (n c : ℕ) → length (replicate n c) ≡ n
length-replicate zero c = refl
length-replicate (suc n) c = ap suc (length-replicate n c)

length-take : (n : ℕ) (t : Text) → n ≤ length t → length (take n t) ≡ n
length-take zero t h = refl
length-take (suc n) [] h = absurd (omega arith)
length-take (suc n) (c ∷ t) h = ap suc (length-take n t (omega arith))

pub length-zfill : (n : ℕ) (t : Text) → n ≤ length (zfill n t)
unfolding zfill
length-zfill n [] = omega (arith, length-replicate n b'0')
length-zfill n (c ∷ t) = ground (
  arith,
  length-append (replicate (n - length (c ∷ t)) b'0') (c ∷ t),
  length-append (replicate (n - 1 - length t) b'0') t,
  length-replicate (n - length (c ∷ t)) b'0',
  length-replicate (n - 1 - length t) b'0',
)

two_bytes : (t : Text) → 4 ≤ length t → length (slice t 2 4 ++ slice t 0 2) ≡ 4
unfolding slice
two_bytes t h = omega (
  arith,
  length-append (take 2 (drop 2 t)) (take 2 t),
  length-take 2 t (omega arith),
  length-take 2 (drop 2 t) (omega (arith, length-drop 2 t)),
)

pub six_characters : (t : Text) → length t ≡ 4 → is_discrete_text (codes "0x" ++ t) ≡ true
unfolding is_discrete_text starts_with codes
six_characters t h = rw h refl

-- Whatever the value, its text is 0x and four characters.
pub value_text_of-is_discrete_text : (n : ℤ) → is_discrete_text (value_text_of n) ≡ true
unfolding value_text_of codes slice
value_text_of-is_discrete_text n =
    six_characters (slice (zfill 4 (drop 2 (hex n))) 2 4 ++ slice (zfill 4 (drop 2 (hex n))) 0 2)
      (two_bytes (zfill 4 (drop 2 (hex n))) (length-zfill 4 (drop 2 (hex n))))
