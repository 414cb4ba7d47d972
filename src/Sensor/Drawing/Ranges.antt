-- ===== src/Sensor/Drawing/Ranges.antt =====
-- Where the readings of the modes auto and fault lie.
use mathlib.Core.Path.{subst}
use idic.Prelude.{
  ◌∙◌, ap, ℕ, ◌+◌, ◌≤◌, ◌≡◌, refl, true, false, Option, none, some, [], ◌∷◌, ◌++◌, arith,
  if◌then◌else◌,
}
use idic.Prelude.Int.{ℤ, pos, ◌≤ℤ◌, ◌-ℤ◌}
use idic.Model.{
  Sensor, FaultLevel, lnr, lc, lnc, unc, uc, unr, Outside, World, ok, ◌>>=◌, >>=-eq-ok,
  attribute-bind, attribute,
}
use idic.Sensor.Drawing.{
  randint, has, is_signed, low_value, high_value, get_random_value, fault_range, draw_fault,
  not_crossed, get_fault_value, draw_between,
}

-- What Python documents of `random.randint`: the result lies between its arguments.
pub record IsFair (o : Outside) : Type 0 where
  pub at :
      (n : ℕ) (low high : ℤ)
      → low ≤ℤ high
      → (low ≤ℤ o.draw n low high) × (o.draw n low high ≤ℤ high)

-- The lower thresholds fall and the upper ones rise with their severity.
pub record IsOrdered (s : Sensor) : Type 0 where
  pub lnr_lc : s.lnr ≤ s.lc
  pub lc_lnc : s.lc ≤ s.lnc
  pub unc_uc : s.unc ≤ s.uc
  pub uc_unr : s.uc ≤ s.unr

-- v lies above every lower threshold that the mask has, and below every upper one.
pub record IsNormal (s : Sensor) (rtm : ℕ) (v : ℤ) : Type 0 where
  pub above_lnr : has rtm 0x04 ≡ true → pos (s.lnr + 1) ≤ℤ v
  pub above_lc : has rtm 0x02 ≡ true → pos (s.lc + 1) ≤ℤ v
  pub above_lnc : has rtm 0x01 ≡ true → pos (s.lnc + 1) ≤ℤ v
  pub below_unc : has rtm 0x08 ≡ true → v ≤ℤ pos s.unc -ℤ pos 1
  pub below_uc : has rtm 0x10 ≡ true → v ≤ℤ pos s.uc -ℤ pos 1
  pub below_unr : has rtm 0x20 ≡ true → v ≤ℤ pos s.unr -ℤ pos 1

pub randint_between :
    (low high v : ℤ) (w : World)
    → IsFair w.outside
    → (randint low high w).0 ≡ ok v
    → (low ≤ℤ v) × (v ≤ℤ high)
unfolding randint
randint_between low high v w fair h = ground (arith, fair.at w.draws low high)

low_value_limits :
    (s : Sensor) (rtm : ℕ) (w : World) (low v : ℤ)
    → IsOrdered s
    → low_value s rtm w ≡ (ok low, w)
    → low ≤ℤ v
    → (has rtm 0x04 ≡ true → pos (s.lnr + 1) ≤ℤ v)
      × (has rtm 0x02 ≡ true → pos (s.lc + 1) ≤ℤ v)
      × (has rtm 0x01 ≡ true → pos (s.lnc + 1) ≤ℤ v)
unfolding low_value
low_value_limits s rtm w low v ordered h le = ground arith

high_value_limits :
    (s : Sensor) (rtm : ℕ) (w : World) (high v : ℤ)
    → IsOrdered s
    → high_value s rtm w ≡ (ok high, w)
    → v ≤ℤ high
    → (has rtm 0x08 ≡ true → v ≤ℤ pos s.unc -ℤ pos 1)
      × (has rtm 0x10 ≡ true → v ≤ℤ pos s.uc -ℤ pos 1)
      × (has rtm 0x20 ≡ true → v ≤ℤ pos s.unr -ℤ pos 1)
unfolding high_value ◌-ℤ◌
high_value_limits s rtm w high v ordered h le = ground arith

pub low_value_world : (s : Sensor) (rtm : ℕ) (w : World) → (low_value s rtm w).1 ≡ w
unfolding low_value
low_value_world s rtm w = ground arith

pub high_value_world : (s : Sensor) (rtm : ℕ) (w : World) → (high_value s rtm w).1 ≡ w
unfolding high_value
high_value_world s rtm w = ground arith

pub result-of_parts : {A B : Type 0} (p : A × B) {a : A} {b : B} → p.0 ≡ a → p.1 ≡ b → p ≡ (a, b)
result-of_parts p e f = cc

draw_between-IsNormal :
    (s : Sensor) (rtm : ℕ) (v : ℤ) (w : World)
    → IsFair w.outside
    → IsOrdered s
    → (draw_between s rtm w).0 ≡ ok v
    → IsNormal s rtm v
unfolding draw_between
draw_between-IsNormal s rtm v w fair ordered h =
    let (low, low_ok, h1) =
      >>=-eq-ok (low_value s rtm) (λ low. high_value s rtm >>= randint low) w h in
    let (high, high_ok, h2) = >>=-eq-ok (high_value s rtm) (randint low) (low_value s rtm w).1 h1 in
    let same = low_value_world s rtm w in
    let high_ok' : (high_value s rtm w).0 ≡ ok high = rw same at high_ok in
    let h3 : (randint low high w).0 ≡ ok v = rw (same, high_value_world s rtm w) at h2 in
    let (ge, le) = randint_between low high v w fair h3 in
    let (l1, l2, l3) =
      low_value_limits s rtm w low v ordered (result-of_parts (low_value s rtm w) low_ok same) ge in
    let (h4, h5, h6) =
      high_value_limits s rtm w high v ordered
        (result-of_parts (high_value s rtm w) high_ok' (high_value_world s rtm w)) le in
    record {
      above_lnr = l1;
      above_lc = l2;
      above_lnc = l3;
      below_unc = h4;
      below_uc = h5;
      below_unr = h6;
    }

-- A reading that the auto mode draws is above every lower threshold that the sensor has and below
-- every upper one, if the thresholds are ordered by severity.
pub get_random_value-IsNormal :
    (s : Sensor) (rtm : ℕ) (v : ℤ) (w : World)
    → IsFair w.outside
    → IsOrdered s
    → s.rtm ≡ some rtm
    → (get_random_value s w).0 ≡ ok v
    → IsNormal s rtm v
unfolding get_random_value
get_random_value-IsNormal s rtm v w fair ordered e h =
    draw_between-IsNormal s rtm v w fair ordered
      (subst (λ r. r.0 ≡ ok v) (attribute-bind s.rtm (draw_between s) w e) h)

-- v crosses the threshold of the level, and the next more severe one if the mask has it stays
-- uncrossed.
abbrev pub InBand : Sensor → ℕ → FaultLevel → ℤ → Type 0
InBand s rtm lnc v = (v ≤ℤ pos s.lnc) × (has rtm 0x02 ≡ true → pos (s.lc + 1) ≤ℤ v)
InBand s rtm lc v = (v ≤ℤ pos s.lc) × (has rtm 0x04 ≡ true → pos (s.lnr + 1) ≤ℤ v)
InBand s rtm lnr v = (v ≤ℤ pos s.lnr) × (pos 0 ≤ℤ v)
InBand s rtm unc v = (pos s.unc ≤ℤ v) × (has rtm 0x10 ≡ true → v ≤ℤ pos s.uc -ℤ pos 1)
InBand s rtm uc v = (pos s.uc ≤ℤ v) × (has rtm 0x20 ≡ true → v ≤ℤ pos s.unr -ℤ pos 1)
InBand s rtm unr v = (pos s.unr ≤ℤ v) × (v ≤ℤ pos 255)

fault_range-InBand :
    (s : Sensor) (rtm : ℕ) (top : ℤ) (level : FaultLevel) (low high v : ℤ)
    → top ≤ℤ pos 255
    → fault_range s rtm top level ≡ some (low, high)
    → low ≤ℤ v
    → v ≤ℤ high
    → InBand s rtm level v
unfolding fault_range ◌-ℤ◌
fault_range-InBand s rtm top lnc low high v t h l u = ground arith
fault_range-InBand s rtm top lc low high v t h l u = ground arith
fault_range-InBand s rtm top lnr low high v t h l u = ground arith
fault_range-InBand s rtm top unc low high v t h l u = ground arith
fault_range-InBand s rtm top uc low high v t h l u = ground arith
fault_range-InBand s rtm top unr low high v t h l u = ground arith

-- The highest raw value of a sensor.
abbrev pub top_of : ℕ → ℤ
top_of su1 = if is_signed su1 then pos 0x7F else pos 0xFF

get_fault_value_step :
    (s : Sensor) (rtm su1 : ℕ) (level : FaultLevel) (w : World)
    → s.rtm ≡ some rtm
    → s.su1 ≡ some su1
    → s.fault_level ≡ some level
    → get_fault_value s w ≡ draw_fault s level (fault_range s rtm (top_of su1) level) w
unfolding get_fault_value
get_fault_value_step s rtm su1 level w e1 e2 e3 =
    attribute-bind s.rtm
      (λ r. attribute s.su1 >>= λ u.
        attribute s.fault_level >>= λ l. draw_fault s l (fault_range s r (top_of u) l))
      w e1
    ∙ attribute-bind s.su1
        (λ u. attribute s.fault_level >>= λ l. draw_fault s l (fault_range s rtm (top_of u) l)) w e2
    ∙ attribute-bind s.fault_level (λ l. draw_fault s l (fault_range s rtm (top_of su1) l)) w e3

draw_fault-InBand :
    (s : Sensor) (rtm : ℕ) (top : ℤ) (level : FaultLevel) (r : Option (ℤ × ℤ)) (v : ℤ) (w : World)
    → IsFair w.outside
    → top ≤ℤ pos 255
    → fault_range s rtm top level ≡ r
    → (draw_fault s level r w).0 ≡ ok (some v)
    → InBand s rtm level v
unfolding draw_fault
draw_fault-InBand s rtm top level none v w fair t e h = cc
draw_fault-InBand s rtm top level (some (low, high)) v w fair t e h =
    let (x, drawn, same) = >>=-eq-ok (randint low high) (λ y u. (ok (some y), u)) w h in
    let same' : x ≡ v = cc in
    let (ge, le) = randint_between low high v w fair (drawn ∙ ap ok same') in
    fault_range-InBand s rtm top level low high v t e ge le

-- A reading that the fault mode draws crosses the threshold of its level, and leaves the next more
-- severe threshold uncrossed if the sensor has that one.
pub get_fault_value-InBand :
    (s : Sensor) (rtm su1 : ℕ) (level : FaultLevel) (v : ℤ) (w : World)
    → IsFair w.outside
    → s.rtm ≡ some rtm
    → s.su1 ≡ some su1
    → s.fault_level ≡ some level
    → (get_fault_value s w).0 ≡ ok (some v)
    → InBand s rtm level v
get_fault_value-InBand s rtm su1 level v w fair e1 e2 e3 h =
    draw_fault-InBand s rtm (top_of su1) level (fault_range s rtm (top_of su1) level) v w fair
      (ground arith) refl
      (subst (λ r. r.0 ≡ ok (some v)) (get_fault_value_step s rtm su1 level w e1 e2 e3) h)

-- The bit of the mask that says that a sensor has the threshold of a level.
abbrev pub mask_of : FaultLevel → ℕ
mask_of lnc = 0x01
mask_of lc = 0x02
mask_of lnr = 0x04
mask_of unc = 0x08
mask_of uc = 0x10
mask_of unr = 0x20

fault_range-none :
    (s : Sensor) (rtm : ℕ) (top : ℤ) (level : FaultLevel)
    → has rtm (mask_of level) ≡ false
    → fault_range s rtm top level ≡ none
unfolding fault_range
fault_range-none s rtm top lnc h = ground arith
fault_range-none s rtm top lc h = ground arith
fault_range-none s rtm top lnr h = ground arith
fault_range-none s rtm top unc h = ground arith
fault_range-none s rtm top uc h = ground arith
fault_range-none s rtm top unr h = ground arith

-- A fault level whose threshold the sensor does not have draws nothing: the only effect is a
-- warning in the message queue.
pub get_fault_value_missing :
    (s : Sensor) (rtm su1 : ℕ) (level : FaultLevel) (w : World)
    → s.rtm ≡ some rtm
    → s.su1 ≡ some su1
    → s.fault_level ≡ some level
    → has rtm (mask_of level) ≡ false
    → get_fault_value s w
      ≡ (ok none, record w { msg_queue = w.msg_queue ++ not_crossed s level ∷ [] })
unfolding draw_fault
get_fault_value_missing s rtm su1 level w e1 e2 e3 h =
    get_fault_value_step s rtm su1 level w e1 e2 e3
    ∙ ap (λ (r : Option (ℤ × ℤ)). draw_fault s level r w)
        (fault_range-none s rtm (top_of su1) level h)
