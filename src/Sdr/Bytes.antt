-- ===== src/Sdr/Bytes.antt =====
-- What the stores of sdr.py do to the thresholds of the sensors.
use mathlib.Core.Path.{subst}
use idic.Prelude.{
  ℕ, ◌≤◌, ◌≡◌, refl, sym, ap, ◌∙◌, arith, Option, none, some, List, get_elem?, inl, inr,
  get_elem?-snoc_cases, get_elem?-set_cases,
}
use idic.Text.{Text}
use idic.Model.{
  World, Sensor, Value, new_sensor, Exec, object, store, ◌>>=◌, continue, or_raise, attribute_error,
  type_error,
}
use idic.Model.Outcomes.{Preserves}
use idic.Common.{send_ipmitool_command}
use idic.Sensor.Attributes.{set_unr, set_uc, set_unc, set_lnr, set_lc, set_lnc}
use idic.Sensor.Drawing.Bounds.{HasBytes}
use idic.Sdr.{byte_at, set_byte, build_sensors}

abbrev pub AllBytes : World → Type 0
AllBytes w = (a : ℕ) (s : Sensor) → get_elem? w.heap a ≡ some s → HasBytes s

abbrev pub IsByteFile : List ℕ → Type 0
IsByteFile file = (i x : ℕ) → get_elem? file i ≡ some x → x ≤ 255

same_heap : (v w : World) → v.heap ≡ w.heap → AllBytes w → AllBytes v
same_heap v w h b a s e = b a s (ap (λ (l : List Sensor). get_elem? l a) (sym h) ∙ e)

pub from_six :
    (s : Sensor)
    → s.lnr ≤ 255
    → s.lc ≤ 255
    → s.lnc ≤ 255
    → s.unc ≤ 255
    → s.uc ≤ 255
    → s.unr ≤ 255
    → HasBytes s
from_six s h1 h2 h3 h4 h5 h6 = record { lnr = h1; lc = h2; lnc = h3; unc = h4; uc = h5; unr = h6 }

pub bytes_store : (a : ℕ) (t : Sensor) → HasBytes t → Preserves AllBytes (store a t)
bytes_store a t h = record {
  at = λ w b c s e. elim (get_elem?-set_cases w.heap a c t e) [
    | inl (same, stored) ↦ subst HasBytes (sym stored) h
    | inr old ↦ b c s old
  ];
}

pub bytes_build :
    (name : Text) (num mc tp : ℕ) (v : Value) → Preserves AllBytes (build_sensors name num mc v tp)
unfolding build_sensors
bytes_build name num mc tp v = record {
  at = λ w b a s e. elim (get_elem?-snoc_cases w.heap a (new_sensor name num v tp) e) [
    | inl old ↦ b a s old
    | inr (at_end, same) ↦ subst HasBytes (sym same) unset
  ];
}
  where
    unset : HasBytes (new_sensor name num v tp)
    unset =
        from_six (new_sensor name num v tp) (omega arith) (omega arith) (omega arith) (omega arith)
          (omega arith) (omega arith)

-- The object is read, and the rest may use that its thresholds are bytes.
pub bytes_object :
    {B : Type 0} (a : ℕ) (g : Sensor → Exec B)
    → ((s : Sensor) → HasBytes s → Preserves AllBytes (g s))
    → Preserves AllBytes (object a >>= g)
bytes_object {B} a g k = record { at = λ w b. found w b (get_elem? w.heap a) refl }
  where
    found :
        (w : World)
        → AllBytes w
        → (o : Option Sensor) → get_elem? w.heap a ≡ o
        → AllBytes (continue (or_raise attribute_error o) g w).1
    found w b none e = b
    found w b (some s) e = (k s (b a s e)).at w b

-- A byte of the file is read, and the rest may use that it is one.
pub bytes_bounded :
    {B : Type 0} (file : List ℕ) (i : ℕ) (g : ℕ → Exec B)
    → IsByteFile file
    → ((x : ℕ) → x ≤ 255 → Preserves AllBytes (g x))
    → Preserves AllBytes (byte_at file i >>= g)
bytes_bounded {B} file i g bytes k = record { at = λ w b. found w b (get_elem? file i) refl }
  where
    found :
        (w : World)
        → AllBytes w
        → (o : Option ℕ) → get_elem? file i ≡ o
        → AllBytes (continue (or_raise type_error o) g w).1
    found w b none e = b
    found w b (some x) e = (k x (bytes i x e)).at w b

pub bytes_set_byte :
    (a : ℕ) (setter : ℕ → Sensor → Sensor) (file : List ℕ) (i : ℕ)
    → IsByteFile file
    → ((x : ℕ) (s : Sensor) → x ≤ 255 → HasBytes s → HasBytes (setter x s))
    → Preserves AllBytes (set_byte a setter file i)
unfolding set_byte
bytes_set_byte a setter file i bytes k = bytes_bounded file i _ bytes (λ x h.
    bytes_object a (λ s. store a (setter x s)) (λ s b. bytes_store a (setter x s) (k x s h b)))

pub bytes_call : (cmds : List Text) → Preserves AllBytes (send_ipmitool_command cmds)
unfolding send_ipmitool_command
bytes_call cmds = record { at = λ w. same_heap (send_ipmitool_command cmds w).1 w (ground arith) }

pub set_unr-HasBytes : (x : ℕ) (s : Sensor) → x ≤ 255 → HasBytes s → HasBytes (set_unr x s)
set_unr-HasBytes x s h b = from_six (set_unr x s) b.lnr b.lc b.lnc b.unc b.uc h

pub set_uc-HasBytes : (x : ℕ) (s : Sensor) → x ≤ 255 → HasBytes s → HasBytes (set_uc x s)
set_uc-HasBytes x s h b = from_six (set_uc x s) b.lnr b.lc b.lnc b.unc h b.unr

pub set_unc-HasBytes : (x : ℕ) (s : Sensor) → x ≤ 255 → HasBytes s → HasBytes (set_unc x s)
set_unc-HasBytes x s h b = from_six (set_unc x s) b.lnr b.lc b.lnc h b.uc b.unr

pub set_lnr-HasBytes : (x : ℕ) (s : Sensor) → x ≤ 255 → HasBytes s → HasBytes (set_lnr x s)
set_lnr-HasBytes x s h b = from_six (set_lnr x s) h b.lc b.lnc b.unc b.uc b.unr

pub set_lc-HasBytes : (x : ℕ) (s : Sensor) → x ≤ 255 → HasBytes s → HasBytes (set_lc x s)
set_lc-HasBytes x s h b = from_six (set_lc x s) b.lnr h b.lnc b.unc b.uc b.unr

pub set_lnc-HasBytes : (x : ℕ) (s : Sensor) → x ≤ 255 → HasBytes s → HasBytes (set_lnc x s)
set_lnc-HasBytes x s h b = from_six (set_lnc x s) b.lnr b.lc h b.unc b.uc b.unr
