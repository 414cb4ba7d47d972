-- ===== src/Sensor/Attributes.antt =====
-- The attributes of a sensor (vcompute/common/scripts/ipmi_sim/sensor.py): the setters, the kinds
-- of event, and the decorator `with_type`.
use idic.Prelude.{
  ℕ, zero, suc, Bool, true, false, ◌||◌, Option, some, List, [], ◌∷◌, ◌/◌, if◌then◌else◌, bit_and,
  ◌≡◌, ap,
}
use idic.Prelude.Int.{pos}
use idic.Sel
use idic.Model.{
  Sensor, Mode, FaultLevel, Value, Exec, pure, raise, attribute, attribute_error, ◌>>=◌, World, err,
}

abbrev pub set_mc : ℕ → Sensor → Sensor
set_mc x s = record s { mc = some x }

abbrev pub set_lun : ℕ → Sensor → Sensor
set_lun x s = record s { lun = some x }

abbrev pub set_event_type : ℕ → Sensor → Sensor
set_event_type x s = record s { event_type = some x }

abbrev pub set_cap : ℕ → Sensor → Sensor
set_cap x s = record s { cap = some x }

abbrev pub set_ltm_lb : ℕ → Sensor → Sensor
set_ltm_lb x s = record s { ltm_lb = some x }

abbrev pub set_ltm_ub : ℕ → Sensor → Sensor
set_ltm_ub x s = record s { ltm_ub = some x }

abbrev pub set_utm_lb : ℕ → Sensor → Sensor
set_utm_lb x s = record s { utm_lb = some x }

abbrev pub set_utm_ub : ℕ → Sensor → Sensor
set_utm_ub x s = record s { utm_ub = some x }

abbrev pub set_su1 : ℕ → Sensor → Sensor
set_su1 x s = record s { su1 = some x }

abbrev pub set_su2 : ℕ → Sensor → Sensor
set_su2 x s = record s { su2 = some x }

abbrev pub set_m_lb : ℕ → Sensor → Sensor
set_m_lb x s = record s { m_lb = some x }

abbrev pub set_m_ub : ℕ → Sensor → Sensor
set_m_ub x s = record s { m_ub = some x }

abbrev pub set_b_lb : ℕ → Sensor → Sensor
set_b_lb x s = record s { b_lb = some x }

abbrev pub set_b_ub : ℕ → Sensor → Sensor
set_b_ub x s = record s { b_ub = some x }

abbrev pub set_accuracy : ℕ → Sensor → Sensor
set_accuracy x s = record s { accuracy = some x }

abbrev pub set_exp : ℕ → Sensor → Sensor
set_exp x s = record s { exp = some x }

abbrev pub set_stm : ℕ → Sensor → Sensor
set_stm x s = record s { stm = some x }

abbrev pub set_rtm : ℕ → Sensor → Sensor
set_rtm x s = record s { rtm = some x }

abbrev pub set_lnr : ℕ → Sensor → Sensor
set_lnr x s = record s { lnr = x }

abbrev pub set_lnc : ℕ → Sensor → Sensor
set_lnc x s = record s { lnc = x }

abbrev pub set_lc : ℕ → Sensor → Sensor
set_lc x s = record s { lc = x }

abbrev pub set_unc : ℕ → Sensor → Sensor
set_unc x s = record s { unc = x }

abbrev pub set_uc : ℕ → Sensor → Sensor
set_uc x s = record s { uc = x }

abbrev pub set_unr : ℕ → Sensor → Sensor
set_unr x s = record s { unr = x }

abbrev pub set_quit : Bool → Sensor → Sensor
set_quit flag s = record s { quit = flag }

abbrev pub set_mode : Mode → Sensor → Sensor
set_mode m s = record s { mode = m }

abbrev pub set_fault_level : FaultLevel → Sensor → Sensor
set_fault_level fl s = record s { fault_level = some fl }

abbrev pub set_raw_value : Value → Sensor → Sensor
set_raw_value v s = record s { value = v }

-- The strings "NA", "threshold" and "discrete".
pub data EventKind : Type 0 where
  na threshold discrete : EventKind

abbrev pub kind_of : ℕ → EventKind
kind_of zero = na
kind_of (suc zero) = threshold
kind_of (suc (suc n)) = discrete

abbrev pub get_event_type : Sensor → Exec EventKind
get_event_type s = do n ← attribute s.event_type; pure (kind_of n)

abbrev pub kind_eq : EventKind → EventKind → Bool
kind_eq na na = true
kind_eq threshold threshold = true
kind_eq discrete discrete = true
kind_eq _ _ = false

abbrev pub mem_kind : EventKind → List EventKind → Bool
mem_kind k [] = false
mem_kind k (j ∷ ks) = kind_eq k j || mem_kind k ks

-- The decorator. Its refusal formats `self.expect_type`, an attribute that is set nowhere, so what
-- is raised is AttributeError.
unfoldable pub with_type : {A : Type 0} → List EventKind → Sensor → Exec A → Exec A
with_type expect_type_list s fn = do
  k ← get_event_type s
  if mem_kind k expect_type_list then fn else raise attribute_error

-- The kind of access to the thresholds that the capability byte gives.
pub data ThresholdAccess : Type 0 where
  none_supported readable settable fixed : ThresholdAccess

abbrev access_of : ℕ → ThresholdAccess
access_of zero = none_supported
access_of (suc zero) = readable
access_of (suc (suc zero)) = settable
access_of (suc (suc (suc n))) = fixed

unfoldable pub get_thres_ac_supp : Sensor → Exec ThresholdAccess
get_thres_ac_supp s = do c ← attribute s.cap; pure (access_of (bit_and (c / 4) 0x3))

unfoldable pub initialize_sel : Sensor → Exec Sensor
initialize_sel s = do
  mc ← attribute s.mc
  lun ← attribute s.lun
  event_type ← attribute s.event_type
  pure (record s {
    sel = Sel.set_event_type (pos event_type) (
        Sel.set_sensor_num (pos s.id) (
          Sel.set_sensor_type (pos s.tp)
            (Sel.set_gid_2 (pos lun) (Sel.set_gid_1 (pos mc) (Sel.set_mc (pos mc) s.sel)))));
  })

with_type_step :
    {A : Type 0} (ks : List EventKind) (s : Sensor) (fn : Exec A) (n : ℕ) (w : World)
    → s.event_type ≡ some n
    → with_type ks s fn w ≡ (if mem_kind (kind_of n) ks then fn else raise attribute_error) w
unfolding with_type
with_type_step ks s fn n w e =
    ap
      (λ (o : Option ℕ).
        (attribute o >>= (λ m. pure (kind_of m)) >>= λ k.
        if mem_kind k ks then fn else raise attribute_error)
          w)
      e

-- The decorated function runs for a kind that is listed.
pub with_type_accepts :
    {A : Type 0} (ks : List EventKind) (s : Sensor) (fn : Exec A) (n : ℕ) (w : World)
    → s.event_type ≡ some n
    → mem_kind (kind_of n) ks ≡ true
    → with_type ks s fn w ≡ fn w
with_type_accepts ks s fn n w e h = rw (with_type_step ks s fn n w e, h)

-- For a kind that is not listed nothing of a decorated function runs, and AttributeError is raised.
pub with_type_refuses :
    {A : Type 0} (ks : List EventKind) (s : Sensor) (fn : Exec A) (n : ℕ) (w : World)
    → s.event_type ≡ some n
    → mem_kind (kind_of n) ks ≡ false
    → with_type ks s fn w ≡ (err attribute_error, w)
with_type_refuses ks s fn n w e h = rw (with_type_step ks s fn n w e, h)
