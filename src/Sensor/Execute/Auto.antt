-- ===== src/Sensor/Execute/Auto.antt =====
-- One round of `execute` (sensor.py) in the mode auto.
use idic.Prelude.{ℕ, ◌+◌, ◌≡◌, ap, ◌∙◌, some, [], ◌∷◌, ◌++◌, get_elem?, set}
use idic.Prelude.Int.{ℤ}
use idic.Model.{
  Sensor, Mode, number, World, ok, pure, store, attribute, ◌>>=◌, ◌>>◌, object-bind, bind_step,
  attribute-bind,
}
use idic.Common.{send_ipmi_sim_command}
use idic.Common.Sending.{IsAnswering, send_answered}
use idic.Sensor.Attributes.{set_raw_value}
use idic.Sensor.Discrete.{value_line, value_command}
use idic.Sensor.Drawing.{get_random_value}
use idic.Sensor.Drawing.Ranges.{IsFair, IsOrdered, IsNormal, get_random_value-IsNormal}
use idic.Sensor.Drawing.Normal.{IsRaw, get_random_value_lem}
use idic.Sensor.Execute.{waiting_5, publish, round_in, round}

value_command_lem :
    (x : ℤ) (s : Sensor) (mc lun : ℕ) (w : World)
    → s.mc ≡ some mc
    → s.lun ≡ some lun
    → value_command x s w ≡ (ok (value_line mc lun s.id x), w)
unfolding value_command
value_command_lem x s mc lun w e1 e2 =
    attribute-bind s.mc (λ m. attribute s.lun >>= λ l. pure (value_line m l s.id x)) w e1
    ∙ attribute-bind s.lun (λ l. pure (value_line mc l s.id x)) w e2

-- The value is stored, and one command with it is sent.
publish_lem :
    (a : ℕ) (x : ℤ) (s : Sensor) (mc lun : ℕ) (w : World)
    → IsAnswering w.outside
    → get_elem? w.heap a ≡ some s
    → s.mc ≡ some mc
    → s.lun ≡ some lun
    → publish a x w ≡ (
      ok tt,
      record w {
        heap = set w.heap a (record s { value = number x });
        sent = w.sent ++ value_line mc lun s.id x ∷ [];
        sessions = w.sessions + 1;
      },
    )
unfolding publish
publish_lem a x s mc lun w answering found e1 e2 =
    let stored : World = record w { heap = set w.heap a (record s { value = number x }) } in
    object-bind a
      (λ o.
        store a (set_raw_value (number x) o)
        >> (value_command x o >>= λ c. send_ipmi_sim_command c >> pure tt))
      w found
    ∙ bind_step (value_command x s) (λ c. send_ipmi_sim_command c >> pure tt) stored
        (value_command_lem x s mc lun stored e1 e2)
    ∙ bind_step (send_ipmi_sim_command (value_line mc lun s.id x)) (λ r. pure tt) stored
        (send_answered (value_line mc lun s.id x) stored
          (record { reply = answering.reply; at = answering.at }))

module _ (a : ℕ) (s : Sensor) (mc lun rtm su1 : ℕ) (x : ℤ) (w : World)
    (answering : IsAnswering w.outside) (fair : IsFair w.outside)
    (found : get_elem? w.heap a ≡ some s) (in_auto : s.mode ≡ Mode.auto) (has_mc : s.mc ≡ some mc)
    (has_lun : s.lun ≡ some lun) (has_rtm : s.rtm ≡ some rtm) (has_su1 : s.su1 ≡ some su1)
    (ordered : IsOrdered s) (normal : IsNormal s rtm x) (raw : IsRaw su1 x) where
  -- A round of a sensor in auto mode, with ordered thresholds and some reading between them: a
  -- reading between them is drawn and stored, the same reading is sent in one command, and the
  -- thread waits for at most five seconds; nothing else changes.
  pub round_auto :
      (v : ℤ) × IsNormal s rtm v
      × (round a w ≡ (
        ok waiting_5,
        record w {
          heap = set w.heap a (record s { value = number v });
          sent = w.sent ++ value_line mc lun s.id v ∷ [];
          sessions = w.sessions + 1;
          draws = w.draws + 1;
        },
      ))
  unfolding round round_in
  round_auto =
      let (v, drawn) = get_random_value_lem s rtm su1 x w has_su1 normal raw has_rtm in
      let w' : World = record w { draws = w.draws + 1 } in
      (
        v,
        get_random_value-IsNormal s rtm v w fair ordered has_rtm (ap (λ p. p.0) drawn),
        object-bind a (λ o. round_in a o.mode o) w found
            ∙ ap (λ (m : Mode). round_in a m s w) in_auto
            ∙ bind_step (get_random_value s) (λ r. publish a r >> pure waiting_5) w drawn
            ∙ bind_step (publish a v) (λ d. pure waiting_5) w'
                (publish_lem a v s mc lun w' (record { reply = answering.reply; at = answering.at })
                  found has_mc has_lun),
      )
