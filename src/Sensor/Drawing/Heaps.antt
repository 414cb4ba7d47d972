-- ===== src/Sensor/Drawing/Heaps.antt =====
-- The draws (sensor.py) leave the objects alone.
use idic.Prelude.{ℕ, ◌≡◌, refl, arith, ap, ◌∙◌, Option, none, some, List, if◌then◌else◌}
use idic.Prelude.Int.{ℤ, pos}
use idic.Model.{World, Sensor, FaultLevel, attribute, ◌>>=◌}
use idic.Model.Outcomes.{Preserves, Preserves-bind, Preserves-attribute}
use idic.Sensor.Drawing.{
  randint, get_random_value, get_fault_value, draw_between, low_value, high_value, draw_fault,
  Range, fault_range, is_signed,
}
use idic.Sensor.Drawing.Ranges.{low_value_world, high_value_world}

abbrev pub SameHeap : List Sensor → World → Type 0
SameHeap h w = w.heap ≡ h

SameHeap-low_value :
    (h : List Sensor) (s : Sensor) (rtm : ℕ) → Preserves (SameHeap h) (low_value s rtm)
SameHeap-low_value h s rtm = record {
  at = λ w e. ap (λ (u : World). u.heap) (low_value_world s rtm w) ∙ e;
}

SameHeap-high_value :
    (h : List Sensor) (s : Sensor) (rtm : ℕ) → Preserves (SameHeap h) (high_value s rtm)
SameHeap-high_value h s rtm = record {
  at = λ w e. ap (λ (u : World). u.heap) (high_value_world s rtm w) ∙ e;
}

SameHeap-randint : (h : List Sensor) (low high : ℤ) → Preserves (SameHeap h) (randint low high)
unfolding randint
SameHeap-randint h low high = record { at = λ w e. ground arith }

pub SameHeap-get_random_value :
    (h : List Sensor) (s : Sensor) → Preserves (SameHeap h) (get_random_value s)
unfolding get_random_value draw_between
SameHeap-get_random_value h s =
    search (
      Preserves-bind, Preserves-attribute, SameHeap-low_value, SameHeap-high_value,
      SameHeap-randint,
    )

draw_fault-heap :
    (s : Sensor) (level : FaultLevel) (r : Range) (w : World)
    → (draw_fault s level r w).1.heap ≡ w.heap
unfolding draw_fault randint
draw_fault-heap s level none w = refl
draw_fault-heap s level (some (low, high)) w = ground arith

pub get_fault_value-heap : (s : Sensor) (w : World) → (get_fault_value s w).1.heap ≡ w.heap
unfolding get_fault_value
get_fault_value-heap s w = fault_heap s.rtm s.su1 s.fault_level
  where
    fault_heap :
        (r u : Option ℕ) (l : Option FaultLevel)
        → ((attribute r >>= λ rtm. attribute u >>= λ su1. attribute l >>= λ level.
              draw_fault s level
                (fault_range s rtm (if is_signed su1 then pos 0x7F else pos 0xFF) level))
            w).1.heap
          ≡ w.heap
    fault_heap none u l = refl
    fault_heap (some rtm) none l = refl
    fault_heap (some rtm) (some su1) none = refl
    fault_heap (some rtm) (some su1) (some level) =
        draw_fault-heap s level
          (fault_range s rtm (if is_signed su1 then pos 0x7F else pos 0xFF) level) w
