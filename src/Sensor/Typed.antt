-- ===== src/Sensor/Typed.antt =====
-- The types of the values (sensor.py): what `value` holds for each kind of event, and which
-- attributes stay as they were parsed.
use mathlib.Core.Path.{subst}
use idic.Prelude.{ℕ, ◌≡◌, refl, sym, ◌∙◌, ap, some, ◌⊎◌, inl, true, get_elem?}
use idic.Prelude.Int.{ℤ, pos}
use idic.Text.{Text}
use idic.Model.{World, Sensor, Value, absent, number, text}
use idic.Sensor.Attributes.{EventKind, na, threshold, discrete, kind_of}
use idic.Sensor.Discrete.{is_discrete_text}
use idic.Sensor.Law.{Law, HasKind}

-- A threshold sensor holds a number; a discrete one 0x and four characters, or the number 0 that
-- a failed call of ipmitool leaves; one without a kind holds nothing.
abbrev pub Fits : EventKind → Value → Type 0
Fits na v = v ≡ absent
Fits threshold v = (x : ℤ) × (v ≡ number x)
Fits discrete v = ((t : Text) × (v ≡ text t) × (is_discrete_text t ≡ true)) ⊎ (v ≡ number (pos 0))

abbrev pub IsTyped : Sensor → Type 0
IsTyped s = (n : ℕ) → s.event_type ≡ some n → Fits (kind_of n) s.value

abbrev pub AllTyped : World → Type 0
AllTyped w = (a : ℕ) (s : Sensor) → get_elem? w.heap a ≡ some s → IsTyped s

pub same_kind :
    {s : Sensor} {k : EventKind} (n : ℕ) → HasKind s k → s.event_type ≡ some n → kind_of n ≡ k
same_kind {s} n h e = let same : n ≡ h.number = cc in ap kind_of same ∙ h.is

unfoldable pub typed_law : Law
typed_law = record {
  Holds = λ a s. IsTyped s;
  mode = λ a s m h. h;
  level = λ a s l h. h;
  sel = λ a s x h. h;
  reading = λ a s x k h n e. subst (λ j. Fits j (number x)) (sym (same_kind n k e)) (x, refl);
  register = λ a s t k six h n e.
      subst (λ j. Fits j (text t)) (sym (same_kind n k e)) (inl (t, refl, six));
}

-- All that an operation may change is the mode, the value, the fault level and the event record.
abbrev pub with_changes : Sensor → Sensor → Sensor
with_changes old new = record old {
  mode = new.mode;
  value = new.value;
  fault_level = new.fault_level;
  sel = new.sel;
}

-- Against the objects of an earlier state.
abbrev pub KeepsAttributes : World → ℕ → Sensor → Type 0
KeepsAttributes v a s = (old : Sensor) × (get_elem? v.heap a ≡ some old) × (s ≡ with_changes old s)

unfoldable pub attributes_law : World → Law
attributes_law v = record {
  Holds = KeepsAttributes v;
  mode = λ a s m (old, e, h). (old, e, ap (λ (o : Sensor). record o { mode = m }) h);
  level = λ a s l (old, e, h). (old, e, ap (λ (o : Sensor). record o { fault_level = some l }) h);
  sel = λ a s x (old, e, h). (old, e, ap (λ (o : Sensor). record o { sel = x }) h);
  reading = λ a s x k (old, e, h). (old, e, ap (λ (o : Sensor). record o { value = number x }) h);
  register = λ a s t k d (old, e, h). (old, e, ap (λ (o : Sensor). record o { value = text t }) h);
}
