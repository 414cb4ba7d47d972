-- ===== src/Sensor/Discrete/State.antt =====
-- `set_state` (sensor.py): which state ids and bits it takes, and what it sends.
use idic.Prelude.{
  Bool-cases, ℕ, ◌+◌, ◌≡◌, ◌⊎◌, inl, inr, true, false, some, [], ◌∷◌, ◌++◌, ◌∙◌, set, get_elem?,
}
use idic.Prelude.Int.{ℤ}
use idic.Text.{Text, int_of_text, slice}
use idic.Model.{
  Sensor, World, text, ok, err, store, ◌>>=◌, ◌>>◌, pure, bind_step, object-bind, value_error,
}
use idic.Common.{send_ipmi_sim_command}
use idic.Common.Sending.{IsAnswering, send_answered}
use idic.Sel.{between}
use idic.Sensor.Attributes.{discrete, with_type, kind_of, set_raw_value, with_type_accepts}
use idic.Sensor.Discrete.{
  bit_line, bit_command, register_of_value, with_bit, value_text_of, number_of, write_state,
  checked_state, set_state,
}
use idic.Sensor.Discrete.Sent.{bit_command_lem, register_of_value_lem}

checked_state_refuses :
    (a : ℕ) (state_id state_bit : ℤ) (s : Sensor) (w : World)
    → (between 0 14 state_id ≡ false) ⊎ (between 0 1 state_bit ≡ false)
    → checked_state a state_id state_bit s w ≡ (err value_error, w)
unfolding checked_state
checked_state_refuses a state_id state_bit s w (inl h) = rw h
checked_state_refuses a state_id state_bit s w (inr h) = elim (Bool-cases (between 0 14 state_id)) [
  | inl inside ↦ rw (inside, h)
  | inr outside ↦ rw outside
]

checked_state_accepts :
    (a : ℕ) (state_id state_bit : ℤ) (s : Sensor) (w : World)
    → between 0 14 state_id ≡ true
    → between 0 1 state_bit ≡ true
    → checked_state a state_id state_bit s w
      ≡ write_state a (number_of state_id) (number_of state_bit) s w
unfolding checked_state
checked_state_accepts a state_id state_bit s w h k = rw (h, k)

module _ (a : ℕ) (s : Sensor) (kind : ℕ) (w : World) (found : get_elem? w.heap a ≡ some s)
    (has_kind : s.event_type ≡ some kind) (is_discrete : kind_of kind ≡ discrete) where
  -- For a discrete sensor, a state id outside 0 to 14 or a bit other than 0 and 1 is a ValueError,
  -- and nothing is stored or sent.
  pub set_state_refuses :
      (state_id state_bit : ℤ)
      → (between 0 14 state_id ≡ false) ⊎ (between 0 1 state_bit ≡ false)
      → set_state a state_id state_bit w ≡ (err value_error, w)
  unfolding set_state
  set_state_refuses state_id state_bit h =
      object-bind a (λ o. with_type (discrete ∷ []) o (checked_state a state_id state_bit o)) w
        found
      ∙ with_type_accepts (discrete ∷ []) s (checked_state a state_id state_bit s) kind w has_kind
          (rw is_discrete)
      ∙ checked_state_refuses a state_id state_bit s w h

  module _ (old : Text) (mc lun : ℕ) (value : ℤ) (answering : IsAnswering w.outside)
      (has_mc : s.mc ≡ some mc) (has_lun : s.lun ≡ some lun) (has_value : s.value ≡ text old)
      (reads : int_of_text 16 (slice old 4 6 ++ slice old 2 4) ≡ some value) where
    -- For a discrete sensor, a state id of 0 to 14 and a bit of 0 or 1: what with_bit and
    -- value_text_of give is stored, and one command with the state id and the bit is sent.
    pub set_state_lem :
        (state_id state_bit : ℤ)
        → between 0 14 state_id ≡ true
        → between 0 1 state_bit ≡ true
        → set_state a state_id state_bit w ≡ (
          ok tt,
          record w {
            heap = set w.heap a (record s {
              value =
                  text (value_text_of (with_bit value (number_of state_id) (number_of state_bit)));
            });
            sent = w.sent ++ bit_line mc lun s.id (number_of state_id, number_of state_bit) ∷ [];
            sessions = w.sessions + 1;
          },
        )
    unfolding set_state write_state
    set_state_lem state_id state_bit h k =
        let i = number_of state_id in
        let b = number_of state_bit in
        let stored = record s { value = text (value_text_of (with_bit value i b)) } in
        object-bind a (λ o. with_type (discrete ∷ []) o (checked_state a state_id state_bit o)) w
          found
        ∙ with_type_accepts (discrete ∷ []) s (checked_state a state_id state_bit s) kind w has_kind
            (rw is_discrete)
        ∙ checked_state_accepts a state_id state_bit s w h k
        ∙ bind_step (register_of_value s.value)
            (λ n.
              store a (set_raw_value (text (value_text_of (with_bit n i b))) s)
              >> (bit_command i b s >>= λ c. send_ipmi_sim_command c >> pure tt))
            w (register_of_value_lem s.value old value w has_value reads)
        ∙ bind_step (bit_command i b s) (λ c. send_ipmi_sim_command c >> pure tt)
            (record w { heap = set w.heap a stored })
            (bit_command_lem s mc lun i b (record w { heap = set w.heap a stored }) has_mc has_lun)
        ∙ bind_step (send_ipmi_sim_command (bit_line mc lun s.id (i, b))) (λ r. pure tt)
            (record w { heap = set w.heap a stored })
            (send_answered (bit_line mc lun s.id (i, b)) (record w { heap = set w.heap a stored })
              (record { reply = answering.reply; at = answering.at }))
