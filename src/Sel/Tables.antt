-- ===== src/Sel/Tables.antt =====
-- Which event types and sensor types the tables of sel.py have.
use idic.Prelude.{
  ℕ, zero, suc, ◌+◌, ◌*◌, ◌≤◌, ◌<◌, ◌≡◌, refl, Bool, true, false, ◌&&◌, ◌||◌, not, Option, none,
  some, arith, ◌==◌, leb, each_below, each_below_at, entry, ap, ◌∙◌,
}
use idic.Prelude.Int.{pos, or_ℤ}
use idic.Bits.{or_0x00, or_0x80}
use idic.Sel.{between, sensor_specific_event_map}
use idic.Sel.Generic.{events_map}

abbrev pub is_some {ℓ} : {A : Type ℓ} → Option A → Bool
is_some none = false
is_some (some _) = true

is_some-none {ℓ} : {A : Type ℓ} (o : Option A) → is_some o ≡ false → o ≡ none
is_some-none none h = refl
is_some-none (some a) h = cc

implies : Bool → Bool → Bool
implies true b = b
implies false b = true

-- Every event type from 0x01 to 0x0C has its table of events.
pub events_map_total :
    (n : ℕ) → between 0x1 0x0C (pos n) ≡ true → is_some (entry n events_map) ≡ true
unfolding events_map implies
events_map_total n h = ground (
  arith,
  λ (lt : n < 13).
      each_below_at (λ k. implies (leb 0x1 k) (is_some (entry k events_map))) n 13 lt
        (unfold each_below in refl),
)

-- The sensor types below 0x2D that have no table of sensor specific events.
abbrev pub lacks_events : ℕ → Bool
lacks_events t =
    leb t 4
    || t == 0xA
    || t == 0xB
    || t == 0xE
    || (leb 0x15 t && leb t 0x18)
    || t == 0x1A
    || t == 0x1C
    || t == 0x26

same_bool : Bool → Bool → Bool
same_bool true b = b
same_bool false b = not b

same_bool→eq : (a b : Bool) → same_bool a b ≡ true → a ≡ b
unfolding same_bool
same_bool→eq true b h = cc
same_bool→eq false true h = cc
same_bool→eq false false h = refl

specific_events_table :
    each_below
      (λ k. same_bool (is_some (entry k sensor_specific_event_map)) (not (lacks_events k)))
      0x2D
    ≡ true
unfolding each_below same_bool sensor_specific_event_map
specific_events_table = refl

-- Of the sensor types below 0x2D, exactly the listed ones have no table of sensor specific events.
pub specific_events_iff :
    (t : ℕ) → t < 0x2D → is_some (entry t sensor_specific_event_map) ≡ not (lacks_events t)
specific_events_iff t h =
    same_bool→eq (is_some (entry t sensor_specific_event_map)) (not (lacks_events t)) (
      each_below_at
        (λ k. same_bool (is_some (entry k sensor_specific_event_map)) (not (lacks_events k))) t 0x2D
        h specific_events_table)

pub specific_events_missing :
    (t : ℕ) → t < 0x2D → lacks_events t ≡ true → entry t sensor_specific_event_map ≡ none
specific_events_missing t h lacks =
    is_some-none (entry t sensor_specific_event_map) (specific_events_iff t h ∙ ap not lacks)

-- Bit 7 of the event byte is the direction, and the low bits are the event type.
pub event_byte :
    (t : ℕ) (dir : ℕ) → t < 128 → dir ≤ 1 → or_ℤ (pos t) (dir * 128) ≡ pos (t + dir * 128)
unfolding or_ℤ
event_byte t zero h k = ap pos (or_0x00 t h ∙ omega arith)
event_byte t (suc zero) h k = ap pos (or_0x80 t h)
event_byte t (suc (suc dir)) h k = absurd (omega arith)
