-- ===== src/Sensor/Execute.antt =====
-- One round of the loop of `Sensor.execute` (vcompute/common/scripts/ipmi_sim/sensor.py), from the
-- acquisition of the condition to its release, and what the thread does next.
pub mod Steps
pub mod Alone
pub mod Auto
pub mod Fault
use idic.Prelude.{ℕ, Option, none, some}
use idic.Prelude.Int.{ℤ}
use idic.Model.{
  Sensor, Mode, number, Exec, Done, pure, object, store, ◌>>=◌, ◌>>◌, Error, Result, ok, err,
}
use idic.Common.{send_ipmi_sim_command}
use idic.Sensor.Attributes.{set_mode, set_raw_value}
use idic.Sensor.Drawing.{get_random_value, get_fault_value}
use idic.Sensor.Discrete.{value_command}

-- Where a thread stands that holds the condition: at the first test of the mode, before `wait()`,
-- at the second test, in the calls of `get_random_value` and `get_fault_value`, behind the latter,
-- before the value is stored, before it is sent, at the third test of the mode, before `wait(5)`, and
-- behind a wait at the test of `quit`.
pub data Held : Type 0 where
  first_test before_wait second_test drawing failing : Held
  resetting : Option ℤ → Held
  storing sending : ℤ → Held
  third_test before_wait_5 quit_test : Held

-- Where the thread of a sensor stands: before the test of `while not self.quit`, between that test
-- and the acquisition of the condition, with the condition, in `wait()`, in `wait(5)`, notified or
-- timed out and about to take the condition again, returned, or ended by an exception.
pub data Phase : Type 0 where
  testing entering waiting waiting_5 resumed returned : Phase
  holding : Held → Phase
  crashed : Error → Phase

-- The value is stored and sent.
unfoldable pub publish : ℕ → ℤ → Exec Done
publish a v = do
  s ← object a
  store a (set_raw_value (number v) s)
  command ← value_command v s
  send_ipmi_sim_command command
  pure tt

-- The fault mode lasts for one round.
unfoldable pub draw_fault_once : ℕ → Exec (Option ℤ)
draw_fault_once a = do s ← object a; v ← get_fault_value s; store a (set_mode Mode.user s); pure v

unfoldable pub publish_some : ℕ → Option ℤ → Exec Done
unfolding publish
publish_some a none = pure tt
publish_some a (some v) = publish a v

unfoldable pub round_in : ℕ → Mode → Sensor → Exec Phase
unfolding draw_fault_once publish_some
round_in a Mode.user s = pure Phase.waiting
round_in a Mode.auto s = do v ← get_random_value s; publish a v; pure Phase.waiting_5
round_in a Mode.fault s = do v ← draw_fault_once a; publish_some a v; pure Phase.testing

unfoldable pub round : ℕ → Exec Phase
unfolding round_in
round a = do s ← object a; round_in a s.mode s

-- A round that raises ends the thread: the `finally` only releases the condition.
unfoldable pub after_round : Result Phase → Phase
after_round (ok p) = p
after_round (err e) = Phase.crashed e
