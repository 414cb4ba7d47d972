-- ===== src/Sensor/Drawing/Bounds.antt =====
-- The readings of the modes auto and fault (sensor.py) as raw values of one byte.
use idic.Prelude.{ℕ, ◌≤◌, ◌≡◌, refl, ap, ◌∙◌, Option, none, some, arith, ◌⊎◌, inl, inr}
use idic.Prelude.Int.{ℤ, pos, negsuc, ◌≤ℤ◌, ◌-ℤ◌}
use idic.Model.{
  Sensor, FaultLevel, lnr, lc, lnc, unc, uc, unr, World, ok, ◌>>=◌, >>=-eq-ok, attribute, Exec,
}
use idic.Sensor.Drawing.{
  randint, low_value, high_value, get_random_value, fault_range, draw_fault, get_fault_value,
  draw_between,
}
use idic.Sensor.Drawing.Ranges.{
  IsFair, randint_between, low_value_world, high_value_world, result-of_parts, top_of,
}

-- The thresholds are bytes.
pub record HasBytes (s : Sensor) : Type 0 where
  pub lnr : s.lnr ≤ 255
  pub lc : s.lc ≤ 255
  pub lnc : s.lnc ≤ 255
  pub unc : s.unc ≤ 255
  pub uc : s.uc ≤ 255
  pub unr : s.unr ≤ 255

low_value_least :
    (s : Sensor) (rtm : ℕ) (w : World) (low : ℤ)
    → low_value s rtm w ≡ (ok low, w)
    → negsuc 126 ≤ℤ low
unfolding low_value
low_value_least s rtm w low h = ground arith

high_value_most :
    (s : Sensor) (rtm : ℕ) (w : World) (high : ℤ)
    → HasBytes s
    → high_value s rtm w ≡ (ok high, w)
    → high ≤ℤ pos 255
unfolding high_value ◌-ℤ◌
high_value_most s rtm w high b h = ground arith

draw_between-bounds :
    (s : Sensor) (rtm : ℕ) (v : ℤ) (w : World)
    → IsFair w.outside
    → HasBytes s
    → (draw_between s rtm w).0 ≡ ok v
    → (negsuc 126 ≤ℤ v) × (v ≤ℤ pos 255)
unfolding draw_between
draw_between-bounds s rtm v w fair b h =
    let (low, low_ok, h1) =
      >>=-eq-ok (low_value s rtm) (λ low. high_value s rtm >>= randint low) w h in
    let (high, high_ok, h2) = >>=-eq-ok (high_value s rtm) (randint low) (low_value s rtm w).1 h1 in
    let same = low_value_world s rtm w in
    let high_ok' : (high_value s rtm w).0 ≡ ok high = rw same at high_ok in
    let h3 : (randint low high w).0 ≡ ok v = rw (same, high_value_world s rtm w) at h2 in
    let (ge, le) = randint_between low high v w fair h3 in
    (
      omega (
        arith,
        ge,
        low_value_least s rtm w low (result-of_parts (low_value s rtm w) low_ok same),
      ),
      omega (
        arith,
        le,
        high_value_most s rtm w high b
            (result-of_parts (high_value s rtm w) high_ok' (high_value_world s rtm w)),
      ),
    )

fault_range-bounds :
    (s : Sensor) (rtm : ℕ) (top : ℤ) (level : FaultLevel) (low high : ℤ)
    → HasBytes s
    → top ≤ℤ pos 255
    → fault_range s rtm top level ≡ some (low, high)
    → (pos 0 ≤ℤ low) × (high ≤ℤ pos 255)
unfolding fault_range ◌-ℤ◌
fault_range-bounds s rtm top lnc low high b t h = ground arith
fault_range-bounds s rtm top lc low high b t h = ground arith
fault_range-bounds s rtm top lnr low high b t h = ground arith
fault_range-bounds s rtm top unc low high b t h = ground arith
fault_range-bounds s rtm top uc low high b t h = ground arith
fault_range-bounds s rtm top unr low high b t h = ground arith

draw_fault-bounds :
    (s : Sensor) (rtm : ℕ) (top : ℤ) (level : FaultLevel) (r : Option (ℤ × ℤ)) (v : ℤ) (w : World)
    → IsFair w.outside
    → HasBytes s
    → top ≤ℤ pos 255
    → fault_range s rtm top level ≡ r
    → (draw_fault s level r w).0 ≡ ok (some v)
    → (pos 0 ≤ℤ v) × (v ≤ℤ pos 255)
unfolding draw_fault
draw_fault-bounds s rtm top level none v w fair b t e h = cc
draw_fault-bounds s rtm top level (some (low, high)) v w fair b t e h =
    let (x, drawn, same) = >>=-eq-ok (randint low high) (λ y u. (ok (some y), u)) w h in
    let same' : x ≡ v = cc in
    let (ge, le) = randint_between low high v w fair (drawn ∙ ap ok same') in
    let (least, most) = fault_range-bounds s rtm top level low high b t e in
    (omega (arith, ge, least), omega (arith, le, most))

-- A part that returns had the attribute that it reads first.
attribute-ok :
    {A B : Type 0} (o : Option A) (f : A → Exec B) (w : World) (y : B)
    → ((attribute o >>= f) w).0 ≡ ok y
    → (x : A) × ((f x w).0 ≡ ok y)
attribute-ok none f w y h = absurd (cc)
attribute-ok (some x) f w y h = (x, h)

get_fault_value-bounds :
    (s : Sensor) (v : ℤ) (w : World)
    → IsFair w.outside
    → HasBytes s
    → (get_fault_value s w).0 ≡ ok (some v)
    → (pos 0 ≤ℤ v) × (v ≤ℤ pos 255)
unfolding get_fault_value
get_fault_value-bounds s v w fair b h =
    let (rtm, h1) = attribute-ok s.rtm _ w (some v) h in
    let (su1, h2) = attribute-ok s.su1 _ w (some v) h1 in
    let (level, h3) = attribute-ok s.fault_level _ w (some v) h2 in
    draw_fault-bounds s rtm (top_of su1) level (fault_range s rtm (top_of su1) level) v w fair b
      (ground arith) refl h3

-- A raw value that the auto mode or the fault mode draws for a sensor whose thresholds are bytes lies
-- between -127 and 255.
pub readings_bounds :
    (s : Sensor) (v : ℤ) (w : World)
    → IsFair w.outside
    → HasBytes s
    → ((get_random_value s w).0 ≡ ok v) ⊎ ((get_fault_value s w).0 ≡ ok (some v))
    → (negsuc 126 ≤ℤ v) × (v ≤ℤ pos 255)
unfolding get_random_value
readings_bounds s v w fair b (inl h) =
    let (rtm, h1) = attribute-ok s.rtm (draw_between s) w v h in
    draw_between-bounds s rtm v w fair b h1
readings_bounds s v w fair b (inr h) =
    let (least, most) = get_fault_value-bounds s v w fair b h in (omega (arith, least), most)
