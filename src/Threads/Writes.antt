-- ===== src/Threads/Writes.antt =====
-- What the statements of all threads (sensor.py, ipmi_sim.py, command.py) do to the kinds of the
-- sensors and to the types of their values.
use mathlib.Core.Path.{subst}
use idic.Prelude.{
  ℕ, ◌≡◌, refl, sym, ap, ◌∙◌, Option, none, some, List, get_elem?, set, inl, inr,
  get_elem?-set_cases, true,
}
use idic.Prelude.Int.{ℤ}
use idic.Model.{World, Sensor, Mode, number, object, ◌>>=◌, text}
use idic.Model.Outcomes.{Preserves, Preserves-bind, Preserves-object}
use idic.Sensor.Attributes.{threshold, set_mode, set_raw_value, discrete, EventKind}
use idic.Sensor.Discrete.{is_discrete_text}
use idic.Sensor.Law.{HasKind}
use idic.Sensor.Typed.{Fits, IsTyped, AllTyped, same_kind}
use idic.Sensor.Drawing.{get_random_value, get_fault_value}
use idic.Sensor.Drawing.Heaps.{SameHeap, SameHeap-get_random_value, get_fault_value-heap}
use idic.Sensor.Execute.{
  Held, first_test, before_wait, second_test, drawing, failing, resetting, storing, sending,
  third_test, before_wait_5, quit_test,
}
use idic.Sensor.Execute.Steps.{write_object, advance, send_value}
use idic.Sensor.Execute.Alone.{SameHeap-send_value}
use idic.Threads.{
  Order, change, wake, join, look, leave, to_mode, to_level, to_value, to_text, to_quit,
  apply_change, obey, Text,
}

-- The object at an address, if there is one, is of a sensor of the kind.
abbrev pub IsOfKind : EventKind → World → ℕ → Type 0
IsOfKind k w a = (x : Sensor) → get_elem? w.heap a ≡ some x → HasKind x k

abbrev pub IsThreshold : World → ℕ → Type 0
IsThreshold w a = IsOfKind threshold w a

-- The values have their types, and no object has another kind than before.
pub record IsFine (v w : World) : Type 0 where
  pub typed : AllTyped w
  pub kinds :
      (a : ℕ) (x : Sensor)
      → get_elem? w.heap a ≡ some x
      → (y : Sensor) × (get_elem? v.heap a ≡ some y) × (x.event_type ≡ y.event_type)

pub same_heap-IsFine : (v w : World) → w.heap ≡ v.heap → AllTyped v → IsFine v w
same_heap-IsFine v w h typed = record {
  typed = λ a x e. typed a x (ap (λ (l : List Sensor). get_elem? l a) (sym h) ∙ e);
  kinds = λ a x e. (x, ap (λ (l : List Sensor). get_elem? l a) (sym h) ∙ e, refl);
}

pub IsFine-IsOfKind :
    {v w : World} {kind : EventKind} (a : ℕ) → IsFine v w → IsOfKind kind v a → IsOfKind kind w a
IsFine-IsOfKind a h k x e =
    let (y, old, same) = h.kinds a x e in
    record { number = (k y old).number; has = same ∙ (k y old).has; is = (k y old).is }

module _ (a : ℕ) (f : Sensor → Sensor) (w : World)
    (keeps : (x : Sensor) → (f x).event_type ≡ x.event_type)
    (types : (x : Sensor) → get_elem? w.heap a ≡ some x → IsTyped x → IsTyped (f x))
    (typed : AllTyped w) where
  written-IsTyped :
      (s : Sensor)
      → get_elem? w.heap a ≡ some s
      → (b : ℕ) (x : Sensor) → get_elem? (set w.heap a (f s)) b ≡ some x
      → IsTyped x
  written-IsTyped s found b x e = elim (get_elem?-set_cases w.heap a b (f s) e) [
    | inl (same, stored) ↦ subst IsTyped (sym stored) (types s found (typed a s found))
    | inr old ↦ typed b x old
  ]

  written_kinds :
      (s : Sensor)
      → get_elem? w.heap a ≡ some s
      → (b : ℕ) (x : Sensor) → get_elem? (set w.heap a (f s)) b ≡ some x
      → (y : Sensor) × (get_elem? w.heap b ≡ some y) × (x.event_type ≡ y.event_type)
  written_kinds s found b x e = elim (get_elem?-set_cases w.heap a b (f s) e) [
    | inl (same, stored) ↦ (
      s,
      ap (get_elem? w.heap) (sym same) ∙ found,
      ap (λ (t : Sensor). t.event_type) stored ∙ keeps s,
    )
    | inr old ↦ (x, old, refl)
  ]

  write_object-IsFine : IsFine w (write_object a f w)
  unfolding write_object
  write_object-IsFine = by_object (get_elem? w.heap a) refl
    where
      by_object :
          (o : Option Sensor)
          → get_elem? w.heap a ≡ o
          → IsFine w (record w { heap = elim o [ none ↦ w.heap | some s ↦ set w.heap a (f s) ] })
      by_object none e = record { typed = typed; kinds = λ b x k. (x, k, refl) }
      by_object (some s) e = record { typed = written-IsTyped s e; kinds = written_kinds s e }

-- A number is a value of a threshold sensor.
number-IsTyped : (x : Sensor) (v : ℤ) → HasKind x threshold → IsTyped (set_raw_value (number v) x)
number-IsTyped x v k n e = subst (λ j. Fits j (number v)) (sym (same_kind n k e)) (v, refl)

text-IsTyped :
    (x : Sensor) (t : Text)
    → HasKind x discrete
    → is_discrete_text t ≡ true
    → IsTyped (set_raw_value (text t) x)
text-IsTyped x t k six n e =
    subst (λ j. Fits j (text t)) (sym (same_kind n k e)) (inl (t, refl, six))

SameHeap-drawing :
    (h : List Sensor) (a : ℕ) → Preserves (SameHeap h) (object a >>= get_random_value)
SameHeap-drawing h a =
    Preserves-bind (SameHeap h) (object a) get_random_value (Preserves-object (SameHeap h) a)
      (SameHeap-get_random_value h)

SameHeap-failing : (h : List Sensor) (a : ℕ) → Preserves (SameHeap h) (object a >>= get_fault_value)
SameHeap-failing h a =
    Preserves-bind (SameHeap h) (object a) get_fault_value (Preserves-object (SameHeap h) a)
      (λ s. record { at = λ w e. get_fault_value-heap s w ∙ e })

-- A statement of the thread of a threshold sensor.
pub advance-IsFine :
    (a : ℕ) (h : Held) (w : World) → IsThreshold w a → AllTyped w → IsFine w (advance a h w).1
unfolding advance
advance-IsFine a first_test w k t = same_heap-IsFine w w refl t
advance-IsFine a before_wait w k t = same_heap-IsFine w w refl t
advance-IsFine a second_test w k t = same_heap-IsFine w w refl t
advance-IsFine a drawing w k t =
    same_heap-IsFine w ((object a >>= get_random_value) w).1 ((SameHeap-drawing w.heap a).at w refl)
      t
advance-IsFine a failing w k t =
    same_heap-IsFine w ((object a >>= get_fault_value) w).1 ((SameHeap-failing w.heap a).at w refl)
      t
advance-IsFine a (resetting v) w k t =
    write_object-IsFine a (set_mode Mode.user) w (λ x. refl) (λ x e h. h) t
advance-IsFine a (storing v) w k t =
    write_object-IsFine a (set_raw_value (number v)) w (λ x. refl)
      (λ x e h. number-IsTyped x v (k x e)) t
advance-IsFine a (sending v) w k t =
    same_heap-IsFine w (send_value a v w).1 ((SameHeap-send_value w.heap a v).at w refl) t
advance-IsFine a third_test w k t = same_heap-IsFine w w refl t
advance-IsFine a before_wait_5 w k t = same_heap-IsFine w w refl t
advance-IsFine a quit_test w k t = same_heap-IsFine w w refl t

-- A number is assigned to a threshold sensor only, and to a discrete one only 0x and four characters.
abbrev pub OrderFits : World → Order → Type 0
OrderFits w (change a (to_value x)) = IsThreshold w a
OrderFits w (change a (to_text t)) = IsOfKind discrete w a × (is_discrete_text t ≡ true)
OrderFits w o = Unit

-- A statement of another thread.
pub obey-IsFine : (o : Order) (w : World) → OrderFits w o → AllTyped w → IsFine w (obey o w)
unfolding obey
obey-IsFine (change a (to_mode m)) w k t =
    write_object-IsFine a (apply_change (to_mode m)) w (λ x. refl) (λ x e h. h) t
obey-IsFine (change a (to_level l)) w k t =
    write_object-IsFine a (apply_change (to_level l)) w (λ x. refl) (λ x e h. h) t
obey-IsFine (change a (to_value v)) w k t =
    write_object-IsFine a (apply_change (to_value v)) w (λ x. refl)
      (λ x e h. number-IsTyped x v (k x e)) t
obey-IsFine (change a (to_text v)) w (k, six) t =
    write_object-IsFine a (apply_change (to_text v)) w (λ x. refl)
      (λ x e h. text-IsTyped x v (k x e) six) t
obey-IsFine (change a to_quit) w k t =
    write_object-IsFine a (apply_change to_quit) w (λ x. refl) (λ x e h. h) t
obey-IsFine (wake a) w k t = same_heap-IsFine w w refl t
obey-IsFine (join a) w k t = same_heap-IsFine w w refl t
obey-IsFine (look a m) w k t = same_heap-IsFine w w refl t
obey-IsFine (leave a) w k t = same_heap-IsFine w w refl t
