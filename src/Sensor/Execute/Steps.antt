-- ===== src/Sensor/Execute/Steps.antt =====
-- The statements of `Sensor.execute` (vcompute/common/scripts/ipmi_sim/sensor.py) under the
-- condition, one at a time. The commands and `free_resource` write `mode`, `quit`, `value` and
-- `fault_level` without the condition, so they may fall between any two of these steps.
use idic.Prelude.{
  ℕ, zero, suc, Bool, false, Option, none, some, List, if◌then◌else◌, get_elem?, set,
}
use idic.Prelude.Int.{ℤ}
use idic.Model.{
  Sensor, Mode, World, Result, ok, err, number, Exec, Done, object, ◌>>=◌, ◌>>◌, pure,
  attribute_error,
}
use idic.Common.{send_ipmi_sim_command}
use idic.Sensor.Attributes.{set_mode, set_raw_value}
use idic.Sensor.Drawing.{get_random_value, get_fault_value}
use idic.Sensor.Discrete.{value_command}
use idic.Sensor.Execute.{
  Held, first_test, before_wait, second_test, drawing, failing, resetting, storing, sending,
  third_test, before_wait_5, quit_test, Phase, testing, waiting, waiting_5, returned, holding,
  crashed,
}

abbrev pub update_at : List Sensor → ℕ → (Sensor → Sensor) → List Sensor
update_at h a f = elim (get_elem? h a) [ none ↦ h | some s ↦ set h a (f s) ]

-- `self.x = ...` or a setter, on the object at an address.
unfoldable pub write_object : ℕ → (Sensor → Sensor) → World → World
write_object a f w = record w { heap = update_at w.heap a f }

-- `self.quit`, as the thread of `a` reads it.
abbrev pub quit_of : Option Sensor → Bool
quit_of none = false
quit_of (some s) = s.quit

unfoldable pub has_quit : World → ℕ → Bool
has_quit w a = quit_of (get_elem? w.heap a)

-- A test of `self.mode`.
abbrev pub by_mode : (Mode → Phase) → Option Sensor → Phase
by_mode branch none = crashed attribute_error
by_mode branch (some s) = branch s.mode

abbrev pub first_branch : Mode → Phase
first_branch Mode.user = holding before_wait
first_branch _ = holding second_test

abbrev pub second_branch : Mode → Phase
second_branch Mode.auto = holding drawing
second_branch _ = holding failing

abbrev pub third_branch : Mode → Phase
third_branch Mode.auto = holding before_wait_5
third_branch _ = testing

-- `if s_value == None: continue`
abbrev pub drawn : Option ℤ → Phase
drawn none = testing
drawn (some v) = holding (storing v)

-- A call that raises ends the thread; the `finally` releases the condition.
abbrev pub behind_call : {A : Type 0} → (A → Phase) → Result A → Phase
behind_call next (ok x) = next x
behind_call next (err e) = crashed e

unfoldable pub send_value : ℕ → ℤ → Exec Done
send_value a v = do
  s ← object a
  command ← value_command v s
  send_ipmi_sim_command command
  pure tt

abbrev pub after_call : {A : Type 0} → (A → Phase) → Result A × World → Phase × World
after_call next (r, w) = (behind_call next r, w)

-- The next statement of the thread of `a`.
unfoldable pub advance : ℕ → Held → World → Phase × World
unfolding write_object has_quit send_value
advance a first_test w = (by_mode first_branch (get_elem? w.heap a), w)
advance a before_wait w = (waiting, w)
advance a second_test w = (by_mode second_branch (get_elem? w.heap a), w)
advance a drawing w = after_call (λ v. holding (storing v)) ((object a >>= get_random_value) w)
advance a failing w = after_call (λ v. holding (resetting v)) ((object a >>= get_fault_value) w)
advance a (resetting v) w = (drawn v, write_object a (set_mode Mode.user) w)
advance a (storing v) w = (holding (sending v), write_object a (set_raw_value (number v)) w)
advance a (sending v) w = after_call (λ d. holding third_test) (send_value a v w)
advance a third_test w = (by_mode third_branch (get_elem? w.heap a), w)
advance a before_wait_5 w = (waiting_5, w)
advance a quit_test w = (if has_quit w a then returned else testing, w)

-- `n` statements in which nothing else runs; a thread without the condition stays.
unfoldable pub run_alone : ℕ → ℕ → Phase × World → Phase × World
unfolding advance
run_alone zero a p = p
run_alone (suc n) a (holding h, w) = run_alone n a (advance a h w)
run_alone (suc n) a p = p
