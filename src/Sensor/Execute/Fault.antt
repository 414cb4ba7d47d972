-- ===== src/Sensor/Execute/Fault.antt =====
-- One round of `execute` (sensor.py) in the mode fault, for a threshold that the sensor lacks.
use idic.Prelude.{ℕ, ◌≡◌, ap, ◌∙◌, false, none, some, [], ◌∷◌, ◌++◌, get_elem?, set}
use idic.Model.{
  Sensor, Mode, FaultLevel, World, ok, pure, store, ◌>>=◌, ◌>>◌, object-bind, bind_step,
}
use idic.Sensor.Attributes.{set_mode}
use idic.Sensor.Drawing.{has, not_crossed, get_fault_value}
use idic.Sensor.Drawing.Ranges.{mask_of, get_fault_value_missing}
use idic.Sensor.Execute.{testing, draw_fault_once, publish_some, round_in, round}

module _ (a : ℕ) (s : Sensor) (rtm su1 : ℕ) (level : FaultLevel) (w : World)
    (found : get_elem? w.heap a ≡ some s) (in_fault : s.mode ≡ Mode.fault)
    (has_rtm : s.rtm ≡ some rtm) (has_su1 : s.su1 ≡ some su1)
    (has_level : s.fault_level ≡ some level) (lacks : has rtm (mask_of level) ≡ false) where
  draw_fault_once_lem : draw_fault_once a w ≡ (
    ok none,
    record w {
      heap = set w.heap a (record s { mode = Mode.user });
      msg_queue = w.msg_queue ++ not_crossed s level ∷ [];
    },
  )
  unfolding draw_fault_once
  draw_fault_once_lem =
      object-bind a (λ o. get_fault_value o >>= λ v. store a (set_mode Mode.user o) >> pure v) w
        found
      ∙ bind_step (get_fault_value s) (λ v. store a (set_mode Mode.user s) >> pure v) w
          (get_fault_value_missing s rtm su1 level w has_rtm has_su1 has_level lacks)

  -- A round in fault mode for a level whose threshold the sensor does not have: a warning is put, the
  -- sensor is back in user mode with its value as it was, nothing is sent, and the thread goes back
  -- to the test of its loop without a wait.
  pub round_fault_missing : round a w ≡ (
    ok testing,
    record w {
      heap = set w.heap a (record s { mode = Mode.user });
      msg_queue = w.msg_queue ++ not_crossed s level ∷ [];
    },
  )
  unfolding round round_in publish_some
  round_fault_missing =
      object-bind a (λ o. round_in a o.mode o) w found
      ∙ ap (λ (m : Mode). round_in a m s w) in_fault
      ∙ bind_step (draw_fault_once a) (λ v. publish_some a v >> pure testing) w draw_fault_once_lem
