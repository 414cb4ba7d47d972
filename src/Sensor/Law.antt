-- ===== src/Sensor/Law.antt =====
-- What the operations of a sensor (sensor.py, sel.py, common.py) leave alone: the lists and maps of
-- the sensors, the number of objects, the history of commands, and a property of the objects that
-- the setters keep.
use mathlib.Core.Path.{subst}
use idic.Prelude.{
  ℕ, ◌≡◌, refl, List, arith, ap, ◌∙◌, if◌then◌else◌, length, length-set, get_elem?, inl, inr, some,
  none, true, false, Bool, Option, sym, get_elem?-set_cases, ◌∷◌, [],
}
use idic.Prelude.Int.{ℤ}
use idic.Text.{Text}
use idic.Model.{
  World, Sensor, Mode, FaultLevel, Sel, number, text, Exec, ◌>>=◌, raise, store, put_message,
  notify, attribute_error, object, continue, or_raise, attribute, pure,
}
use idic.Model.Outcomes.{Preserves, Preserves-attribute, Preserves-bind, Preserves-pure}
use idic.Common.{log_error, send_ipmi_sim_command}
use idic.Sensor.Attributes.{
  EventKind, na, threshold, discrete, kind_of, mem_kind, get_event_type, with_type, set_mode,
  set_fault_level, set_raw_value,
}
use idic.Sensor.Discrete.{is_discrete_text}

-- The kind that `get_event_type` gives.
pub record HasKind (s : Sensor) (k : EventKind) : Type 0 where
  pub number : ℕ
  pub has : s.event_type ≡ some number
  pub is : kind_of number ≡ k

mem_kind-eq : (j k : EventKind) → mem_kind j (k ∷ []) ≡ true → j ≡ k
mem_kind-eq na na h = refl
mem_kind-eq na threshold h = cc
mem_kind-eq na discrete h = cc
mem_kind-eq threshold na h = cc
mem_kind-eq threshold threshold h = refl
mem_kind-eq threshold discrete h = cc
mem_kind-eq discrete na h = cc
mem_kind-eq discrete threshold h = cc
mem_kind-eq discrete discrete h = refl

-- A property of the objects that the methods of a sensor keep: the mode, the fault level and the
-- event record may change, and the value changes to one of the sensor's kind.
pub record Law : Type 1 where
  pub Holds : ℕ → Sensor → Type 0
  pub mode : (a : ℕ) (s : Sensor) (m : Mode) → Holds a s → Holds a (set_mode m s)
  pub level : (a : ℕ) (s : Sensor) (l : FaultLevel) → Holds a s → Holds a (set_fault_level l s)
  pub sel : (a : ℕ) (s : Sensor) (x : Sel) → Holds a s → Holds a (record s { sel = x })
  pub reading :
      (a : ℕ) (s : Sensor) (x : ℤ)
      → HasKind s threshold
      → Holds a s
      → Holds a (set_raw_value (number x) s)
  pub register :
      (a : ℕ) (s : Sensor) (t : Text)
      → HasKind s discrete
      → is_discrete_text t ≡ true
      → Holds a s
      → Holds a (set_raw_value (text t) s)

-- Every object has the property.
abbrev pub Lawful : Law → World → Type 0
Lawful p w = (a : ℕ) (s : Sensor) → get_elem? w.heap a ≡ some s → p.Holds a s

abbrev pub no_law : Law
no_law = record {
  Holds = λ a s. Unit;
  mode = λ a s m h. h;
  level = λ a s l h. h;
  sel = λ a s x h. h;
  reading = λ a s x k h. h;
  register = λ a s t k d h. h;
}

pub record IsFramed (p : Law) (v w : World) : Type 0 where
  pub objects : length w.heap ≡ length v.heap
  pub lawful : Lawful p w
  pub sensor_list : w.sensor_list ≡ v.sensor_list
  pub sensor_name_list : w.sensor_name_list ≡ v.sensor_name_list
  pub sensor_id_list : w.sensor_id_list ≡ v.sensor_id_list
  pub sensor_name_map : w.sensor_name_map ≡ v.sensor_name_map
  pub sensor_id_map : w.sensor_id_map ≡ v.sensor_id_map
  pub command_history : w.command_history ≡ v.command_history

module _ (p : Law) (v : World) where
  abbrev pub Framed : {A : Type 0} → Exec A → Type 0
  Framed m = Preserves (IsFramed p v) m

  pub Framed-store : (a : ℕ) (s : Sensor) → p.Holds a s → Framed (store a s)
  Framed-store a s new = record {
    at = λ w h. record {
      lawful = λ b t e. elim (get_elem?-set_cases w.heap a b s e) [
        | inl (same, stored) ↦ subst (λ c. p.Holds c t) same (subst (p.Holds a) (sym stored) new)
        | inr old ↦ h.lawful b t old
      ];
      objects = length-set w.heap a s ∙ h.objects;
      sensor_list = h.sensor_list;
      sensor_name_list = h.sensor_name_list;
      sensor_id_list = h.sensor_id_list;
      sensor_name_map = h.sensor_name_map;
      sensor_id_map = h.sensor_id_map;
      command_history = h.command_history;
    };
  }

  -- The queue, the log and the counters are not in the frame.
  pub framed :
      {w u : World}
      → u.heap ≡ w.heap
      → u.sensor_list ≡ w.sensor_list
      → u.sensor_name_list ≡ w.sensor_name_list
      → u.sensor_id_list ≡ w.sensor_id_list
      → u.sensor_name_map ≡ w.sensor_name_map
      → u.sensor_id_map ≡ w.sensor_id_map
      → u.command_history ≡ w.command_history
      → IsFramed p v w
      → IsFramed p v u
  framed h1 h2 h3 h4 h5 h6 h7 h = record {
    objects = ap length h1 ∙ h.objects;
    lawful = λ a s e. h.lawful a s (ap (λ (l : List Sensor). get_elem? l a) (sym h1) ∙ e);
    sensor_list = h2 ∙ h.sensor_list;
    sensor_name_list = h3 ∙ h.sensor_name_list;
    sensor_id_list = h4 ∙ h.sensor_id_list;
    sensor_name_map = h5 ∙ h.sensor_name_map;
    sensor_id_map = h6 ∙ h.sensor_id_map;
    command_history = h7 ∙ h.command_history;
  }

  pub Framed-put_message : (t : Text) → Framed (put_message t)
  Framed-put_message t = record { at = λ w. framed refl refl refl refl refl refl refl }

  pub Framed-notify : (a : ℕ) → Framed (notify a)
  Framed-notify a = record { at = λ w. framed refl refl refl refl refl refl refl }

  pub Framed-log_error : (t : Text) → Framed (log_error t)
  Framed-log_error t = record { at = λ w. framed refl refl refl refl refl refl refl }

  pub Framed-send : (t : Text) → Framed (send_ipmi_sim_command t)
  unfolding send_ipmi_sim_command
  Framed-send t = record {
    at = λ w.
        framed (ground arith) (ground arith) (ground arith) (ground arith) (ground arith)
          (ground arith) (ground arith);
  }

  pub Framed-kind :
      {A : Type 0} (k : EventKind) (m n o : Exec A)
      → Framed m
      → Framed n
      → Framed o
      → Framed (elim k [ na ↦ m | threshold ↦ n | discrete ↦ o ])
  Framed-kind na m n o h i j = h
  Framed-kind threshold m n o h i j = i
  Framed-kind discrete m n o h i j = j

  pub Framed-get_event_type : (s : Sensor) → Framed (get_event_type s)
  Framed-get_event_type s = search (Preserves-bind, Preserves-attribute, Preserves-pure)

  pub Framed-by_kind :
      {A : Type 0} (s : Sensor) (f : EventKind → Exec A)
      → ((k : EventKind) → Framed (f k))
      → Framed (get_event_type s >>= f)
  Framed-by_kind s f h =
      Preserves-bind (IsFramed p v) (get_event_type s) f (Framed-get_event_type s) h

  continue_object :
      {B : Type 0} (a : ℕ) (f : Sensor → Exec B) (w : World)
      → ((s : Sensor) → p.Holds a s → Framed (f s))
      → IsFramed p v w
      → (o : Option Sensor) → get_elem? w.heap a ≡ o
      → IsFramed p v (continue (or_raise attribute_error o) f w).1
  continue_object a f w k h none e = h
  continue_object a f w k h (some s) e = (k s (h.lawful a s e)).at w h

  -- An object that is read has the property.
  pub Framed-object :
      {B : Type 0} (a : ℕ) (f : Sensor → Exec B)
      → ((s : Sensor) → p.Holds a s → Framed (f s))
      → Framed (object a >>= f)
  Framed-object a f k = record { at = λ w h. continue_object a f w k h (get_elem? w.heap a) refl }

  Framed-guarded :
      {A : Type 0} (b : Bool) (fn : Exec A)
      → (b ≡ true → Framed fn)
      → Framed (if b then fn else raise attribute_error)
  Framed-guarded true fn h = h refl
  Framed-guarded false fn h = record { at = λ w i. i }

  of_kind :
      {A : Type 0} (k : EventKind) (s : Sensor) (fn : Exec A) (o : Option ℕ)
      → s.event_type ≡ o
      → (HasKind s k → Framed fn)
      → Framed (
          attribute o >>= (λ n. pure (kind_of n)) >>= λ j.
          if mem_kind j (k ∷ []) then fn else raise attribute_error)
  of_kind k s fn none e h = record { at = λ w i. i }
  of_kind k s fn (some n) e h = record {
    at =
        (Framed-guarded (mem_kind (kind_of n) (k ∷ [])) fn
          (λ listed. h (record { number = n; has = e; is = mem_kind-eq (kind_of n) k listed }))).at;
  }

  -- What the decorator lets through has the kind.
  pub Framed-with_type :
      {A : Type 0} (k : EventKind) (s : Sensor) (fn : Exec A)
      → (HasKind s k → Framed fn)
      → Framed (with_type (k ∷ []) s fn)
  unfolding with_type
  Framed-with_type k s fn h = of_kind k s fn s.event_type refl h
