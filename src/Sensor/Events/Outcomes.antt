-- ===== src/Sensor/Events/Outcomes.antt =====
-- What `set_sel` and `get_sel` do, by how they end.
use mathlib.Core.Path.{subst}
use idic.Prelude.{
  ℕ, ◌+◌, ◌≡◌, refl, Bool, true, false, not, Option, some, arith, ap, ◌∙◌, get_elem?, set, length,
  length-snoc, if◌then◌else◌, sym,
}
use idic.Prelude.Int.{ℤ}
use idic.Sel.{
  check_event_type, check_sensor_type, set_event_data, send_event, sel_add, set_event_dir,
}
use idic.Common.Sending.{send-returns}
use idic.Model.{
  Sensor, Sel, World, Result, ok, err, object-bind, pure, continue, >>=-eq-ok, Exec, bind_step',
}
use idic.Sensor.Events.{set_sel, add_event, record_event, checked_add, standard_add}

-- A call that returns False has sent nothing, and has left the objects alone.
pub record Refused (w w' : World) : Type 0 where
  pub heap : w'.heap ≡ w.heap
  pub sent : w'.sent ≡ w.sent
  pub sessions : w'.sessions ≡ w.sessions
  pub told : length w'.msg_queue ≡ length w.msg_queue + 1

check_event_type_refuses :
    (s : Sel) (w : World) → (check_event_type s w).0 ≡ ok false → Refused w (check_event_type s w).1
unfolding check_event_type
check_event_type_refuses s w h = grind (arith, length-snoc)

check_event_type_accepts :
    (s : Sel) (w : World) → (check_event_type s w).0 ≡ ok true → (check_event_type s w).1 ≡ w
unfolding check_event_type
check_event_type_accepts s w h = ground arith

check_sensor_type_refuses :
    (s : Sel) (w : World)
    → (check_sensor_type s w).0 ≡ ok false
    → Refused w (check_sensor_type s w).1
unfolding check_sensor_type
check_sensor_type_refuses s w h = grind (arith, length-snoc)

check_sensor_type_accepts :
    (s : Sel) (w : World) → (check_sensor_type s w).0 ≡ ok true → (check_sensor_type s w).1 ≡ w
unfolding check_sensor_type
check_sensor_type_accepts s w h = ground arith

set_event_data_refuses :
    (i : ℤ) (s s' : Sel) (w : World)
    → (set_event_data i s w).0 ≡ ok (false, s')
    → Refused w (set_event_data i s w).1
unfolding set_event_data
set_event_data_refuses i s s' w h = grind (arith, length-snoc)

record_event_refuses :
    (a : ℕ) (s : Sensor) (dir : ℕ) (p : Bool × Sel) (w : World)
    → (record_event a s dir p w).0 ≡ ok (some false)
    → (p.0 ≡ false) × ((record_event a s dir p w).1 ≡ w)
unfolding record_event send_event
record_event_refuses a s dir (false, sel) w h = (refl, refl)
record_event_refuses a s dir (true, sel) w h =
    let (t, sent) =
      send-returns (sel_add (set_event_dir dir sel))
        (record w { heap = set w.heap a (record s { sel = set_event_dir dir sel }) }) in
    cc

add_event_refuses :
    (a : ℕ) (s : Sensor) (i : ℤ) (dir : ℕ) (w : World)
    → (add_event a s i dir w).0 ≡ ok (some false)
    → Refused w (add_event a s i dir w).1
unfolding add_event
add_event_refuses a s i dir w h =
    let (p, done, h1) = >>=-eq-ok (set_event_data i s.sel) (record_event a s dir) w h in
    let (refused, same) = record_event_refuses a s dir p (set_event_data i s.sel w).1 h1 in
    subst (Refused w)
      (sym (
        ap (λ (r : Result (Option Bool) × World). r.1)
          (bind_step' (set_event_data i s.sel) (record_event a s dir) w done)
        ∙ same))
      (set_event_data_refuses i s.sel p.1 w (done ∙ ap (λ (b : Bool). ok (b, p.1)) refused))

-- A check whose False is an early return, before a part that has the same property.
guarded : Bool → Exec (Option Bool) → Exec (Option Bool)
guarded b k = if not b then pure (some false) else k

module _ (k : Exec (Option Bool)) (w : World)
    (k_refuses : (k w).0 ≡ ok (some false) → Refused w (k w).1) where
  continue_refuses :
      (r : Result Bool) (w' : World)
      → (r ≡ ok false → Refused w w')
      → (r ≡ ok true → w' ≡ w)
      → (continue r (λ b. guarded b k) w').0 ≡ ok (some false)
      → Refused w (continue r (λ b. guarded b k) w').1
  unfolding guarded
  continue_refuses (err e) w' f t h = cc
  continue_refuses (ok false) w' f t h = f refl
  continue_refuses (ok true) w' f t h =
      subst (λ u. (k u).0 ≡ ok (some false) → Refused w (k u).1) (sym (t refl)) k_refuses h

standard_add_refuses :
    (a : ℕ) (s : Sensor) (i : ℤ) (dir : ℕ) (w : World)
    → (standard_add a i dir s w).0 ≡ ok (some false)
    → Refused w (standard_add a i dir s w).1
unfolding standard_add guarded
standard_add_refuses a s i dir w =
    continue_refuses (add_event a s i dir) w (add_event_refuses a s i dir w)
      (check_sensor_type s.sel w).0 (check_sensor_type s.sel w).1
      (check_sensor_type_refuses s.sel w) (check_sensor_type_accepts s.sel w)

checked_add_refuses :
    (a : ℕ) (s : Sensor) (i : ℤ) (dir : ℕ) (w : World)
    → (checked_add a i dir s w).0 ≡ ok (some false)
    → Refused w (checked_add a i dir s w).1
unfolding checked_add guarded
checked_add_refuses a s i dir w =
    continue_refuses (standard_add a i dir s) w (standard_add_refuses a s i dir w)
      (check_event_type s.sel w).0 (check_event_type s.sel w).1 (check_event_type_refuses s.sel w)
      (check_event_type_accepts s.sel w)

-- A call of `Sensor.set_sel` that returns False has sent nothing to the simulator, has changed no
-- object, and has put exactly one message for the user.
pub set_sel-Refused :
    (a : ℕ) (s : Sensor) (i : ℤ) (dir : ℕ) (w : World)
    → get_elem? w.heap a ≡ some s
    → (set_sel a i dir w).0 ≡ ok (some false)
    → Refused w (set_sel a i dir w).1
unfolding set_sel
set_sel-Refused a s i dir w found h =
    let step = object-bind a (checked_add a i dir) w found in
    subst (λ (r : Result (Option Bool) × World). Refused w r.1) (sym step)
      (checked_add_refuses a s i dir w
        (subst (λ (r : Result (Option Bool) × World). r.0 ≡ ok (some false)) step h))
