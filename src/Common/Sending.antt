-- ===== src/Common/Sending.antt =====
-- What a call of `send_ipmi_sim_command` leaves behind.
use idic.Prelude.{ℕ, ◌+◌, ◌≡◌, refl, [], ◌∷◌, ◌++◌, arith}
use idic.Text.{Text}
use idic.Model.{World, Outside, answered, ok}
use idic.Common.{send_ipmi_sim_command, after_session}

-- A simulator that answers every command.
pub record IsAnswering (o : Outside) : Type 0 where
  pub reply : ℕ → Text → Text
  pub at : (n : ℕ) (c : Text) → o.telnet n c ≡ answered (reply n c)

-- To an answering simulator the command is written, and the answer is returned.
pub send_answered :
    (c : Text) (w : World) (a : IsAnswering w.outside)
    → send_ipmi_sim_command c w
      ≡ (ok (a.reply w.sessions c), record w { sent = w.sent ++ c ∷ []; sessions = w.sessions + 1 })
unfolding send_ipmi_sim_command
send_answered c w a = rw (a.at w.sessions c)

-- Whatever the simulator does, the call returns, and the objects and the messages stay.
pub record Sends (w w' : World) : Type 0 where
  pub outside : w'.outside ≡ w.outside
  pub heap : w'.heap ≡ w.heap
  pub sensor_list : w'.sensor_list ≡ w.sensor_list
  pub sensor_id_map : w'.sensor_id_map ≡ w.sensor_id_map
  pub msg_queue : w'.msg_queue ≡ w.msg_queue
  pub command_history : w'.command_history ≡ w.command_history
  pub notified : w'.notified ≡ w.notified

pub send-Sends : (c : Text) (w : World) → Sends w (send_ipmi_sim_command c w).1
unfolding send_ipmi_sim_command
send-Sends c w = ground arith

pub send-returns : (c : Text) (w : World) → (t : Text) × ((send_ipmi_sim_command c w).0 ≡ ok t)
unfolding send_ipmi_sim_command
send-returns c w = (((after_session c (w.outside.telnet w.sessions c) w).0), refl)
