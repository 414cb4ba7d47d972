-- ===== src/Sensor/Drawing/Normal.antt =====
-- When the auto mode (`get_random_value`, sensor.py) finds a reading to draw.
use idic.Prelude.{◌∙◌, ℕ, ◌+◌, ◌≡◌, some, arith, if◌then◌else◌, Bool-cases, inl, inr}
use idic.Prelude.Int.{ℤ, pos, negsuc, ◌≤ℤ◌, ◌-ℤ◌}
use idic.Model.{Sensor, World, ok, ◌>>=◌, bind_step, attribute-bind}
use idic.Sensor.Drawing.{
  randint, has, is_signed, low_value, high_value, get_random_value, draw_between,
}
use idic.Sensor.Drawing.Ranges.{IsNormal}

-- The readings of a sensor: 0 to 255, or -127 to 127 where they are signed.
abbrev pub IsRaw : ℕ → ℤ → Type 0
IsRaw su1 x =
    ((if is_signed su1 then negsuc 126 else pos 0) ≤ℤ x)
    × (x ≤ℤ (if is_signed su1 then pos 127 else pos 255))

module _ (s : Sensor) (rtm su1 : ℕ) (x : ℤ) (w : World) (has_su1 : s.su1 ≡ some su1)
    (normal : IsNormal s rtm x) (raw : IsRaw su1 x) where
  low_value_below : (low : ℤ) × (low_value s rtm w ≡ (ok low, w)) × (low ≤ℤ x)
  unfolding low_value
  low_value_below = elim (Bool-cases (has rtm 0x01)) [
    | inl lnc ↦ (pos (s.lnc + 1), rw lnc, normal.above_lnc lnc)
    | inr no_lnc ↦ elim (Bool-cases (has rtm 0x02)) [
      | inl lc ↦ (pos (s.lc + 1), rw (no_lnc, lc), normal.above_lc lc)
      | inr no_lc ↦ elim (Bool-cases (has rtm 0x04)) [
        | inl lnr ↦ (pos (s.lnr + 1), rw (no_lnc, no_lc, lnr), normal.above_lnr lnr)
        | inr no_lnr ↦ (
          if is_signed su1 then negsuc 126 else pos 0,
          rw (no_lnc, no_lc, no_lnr, has_su1),
          raw.0,
        )
      ]
    ]
  ]

  high_value_above : (high : ℤ) × (high_value s rtm w ≡ (ok high, w)) × (x ≤ℤ high)
  unfolding high_value
  high_value_above = elim (Bool-cases (has rtm 0x08)) [
    | inl unc ↦ (pos s.unc -ℤ pos 1, rw unc, normal.below_unc unc)
    | inr no_unc ↦ elim (Bool-cases (has rtm 0x10)) [
      | inl uc ↦ (pos s.uc -ℤ pos 1, rw (no_unc, uc), normal.below_uc uc)
      | inr no_uc ↦ elim (Bool-cases (has rtm 0x20)) [
        | inl unr ↦ (pos s.unr -ℤ pos 1, rw (no_unc, no_uc, unr), normal.below_unr unr)
        | inr no_unr ↦
            (if is_signed su1 then pos 127 else pos 255, rw (no_unc, no_uc, no_unr, has_su1), raw.1)
      ]
    ]
  ]

  randint_lem :
      (low high : ℤ)
      → low ≤ℤ x
      → x ≤ℤ high
      → randint low high w
        ≡ (ok (w.outside.draw w.draws low high), record w { draws = w.draws + 1 })
  unfolding randint
  randint_lem low high h k = ground arith

  -- If some reading of the sensor is above all its lower thresholds and below all its upper ones,
  -- the auto mode draws a reading, and the only effect is that of the draw.
  pub get_random_value_lem :
      s.rtm ≡ some rtm → (v : ℤ) × (get_random_value s w ≡ (ok v, record w { draws = w.draws + 1 }))
  unfolding get_random_value draw_between
  get_random_value_lem has_rtm =
      let (low, low_ok, low_le) = low_value_below in
      let (high, high_ok, high_ge) = high_value_above in
      (
        w.outside.draw w.draws low high,
        attribute-bind s.rtm (draw_between s) w has_rtm
            ∙ bind_step (low_value s rtm) (λ l. high_value s rtm >>= λ h. randint l h) w low_ok
            ∙ bind_step (high_value s rtm) (λ h. randint low h) w high_ok
            ∙ randint_lem low high low_le high_ge,
      )
