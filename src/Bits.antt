-- ===== src/Bits.antt =====
-- The masks of sensor.py on bytes and on words of nine bits, as quotients and remainders. Each is a
-- table over the range of its argument.
pub mod Single
use idic.Prelude.{
  ℕ, ◌+◌, ◌-◌, ◌*◌, ◌/◌, ◌%◌, ◌<◌, ◌≡◌, refl, true, ◌==◌, ==_iff, each_below, each_below_at,
  bit_and, bit_or, bit_xor,
}

-- A table that holds gives the equation at every byte below its size.
by_table : (n : ℕ) (f g : ℕ → ℕ) (x : ℕ) → each_below (λ y. f y == g y) n ≡ true → x < n → f x ≡ g x
by_table n f g x table h = (==_iff (f x) (g x)).0 (each_below_at (λ y. f y == g y) x n h table)

module _ (x : ℕ) where
  pub and_0xc0 : x < 256 → bit_and x 0xc0 ≡ x / 64 * 64
  unfolding each_below
  and_0xc0 h = by_table 256 (λ y. bit_and y 0xc0) (λ y. y / 64 * 64) x refl h

  pub and_0x40 : x < 256 → bit_and x 0x40 ≡ x / 64 % 2 * 64
  unfolding each_below
  and_0x40 h = by_table 256 (λ y. bit_and y 0x40) (λ y. y / 64 % 2 * 64) x refl h

  pub and_0x70 : x < 256 → bit_and x 0x70 ≡ x / 16 % 8 * 16
  unfolding each_below
  and_0x70 h = by_table 256 (λ y. bit_and y 0x70) (λ y. y / 16 % 8 * 16) x refl h

  pub and_0xf0 : x < 256 → bit_and x 0xf0 ≡ x / 16 * 16
  unfolding each_below
  and_0xf0 h = by_table 256 (λ y. bit_and y 0xf0) (λ y. y / 16 * 16) x refl h

  pub and_0x0f : x < 256 → bit_and x 0x0f ≡ x % 16
  unfolding each_below
  and_0x0f h = by_table 256 (λ y. bit_and y 0x0f) (λ y. y % 16) x refl h

  pub and_0x01 : x < 256 → bit_and (x / 128) 0x1 ≡ x / 128
  unfolding each_below
  and_0x01 h = by_table 256 (λ y. bit_and (y / 128) 0x1) (λ y. y / 128) x refl h

  pub xor_0x1ff : x < 512 → bit_xor x 0x1ff ≡ 511 - x
  unfolding each_below
  xor_0x1ff h = by_table 512 (λ y. bit_xor y 0x1ff) (λ y. 511 - y) x refl h

  pub xor_0x07 : x < 8 → bit_xor x 0x07 ≡ 7 - x
  unfolding each_below
  xor_0x07 h = by_table 8 (λ y. bit_xor y 0x07) (λ y. 7 - y) x refl h

  pub or_0x00 : x < 128 → bit_or x 0 ≡ x
  unfolding each_below
  or_0x00 h = by_table 128 (λ y. bit_or y 0) (λ y. y) x refl h

  pub or_0x80 : x < 128 → bit_or x 0x80 ≡ x + 128
  unfolding each_below
  or_0x80 h = by_table 128 (λ y. bit_or y 0x80) (λ y. y + 128) x refl h
