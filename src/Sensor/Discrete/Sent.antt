-- ===== src/Sensor/Discrete/Sent.antt =====
-- The commands that `set_discrete_value` writes to the simulator.
use idic.Prelude.{
  if◌then◌else◌, ltb, ◌<◌, ℕ, ◌+◌, ◌≡◌, true, some, List, [], ◌∷◌, ◌++◌, map, ap, ◌∙◌, append_assoc,
  append-nil, set, get_elem?, ◌<◌,
}
use idic.Prelude.Int.{ℤ}
use idic.Text.{Text}
use idic.Model.{
  Sensor, World, Value, text, ok, attribute, store, attribute-bind, ◌>>=◌, ◌>>◌, pure, bind_step,
  object-bind, raise, value_error,
}
use idic.Common.Sending.{IsAnswering, send_answered}
use idic.Sensor.Discrete.Diffs.{Register, register_bits, apply_bits, apply_bits-list_diff}
use idic.Sensor.Attributes.{discrete, with_type, kind_of, set_raw_value, with_type_accepts}
use idic.Sensor.Discrete.{
  bit_line, bit_command, send_bits, list_diff, bits_16, register_of, register_of_value,
  is_discrete_text, write_discrete, set_discrete_value, int_of_text, slice,
}

pub bit_command_lem :
    (s : Sensor) (mc lun i b : ℕ) (w : World)
    → s.mc ≡ some mc
    → s.lun ≡ some lun
    → bit_command i b s w ≡ (ok (bit_line mc lun s.id (i, b)), w)
unfolding bit_command
bit_command_lem s mc lun i b w e1 e2 =
    attribute-bind s.mc (λ m. attribute s.lun >>= λ l. pure (bit_line m l s.id (i, b))) w e1
    ∙ attribute-bind s.lun (λ l. pure (bit_line mc l s.id (i, b))) w e2

abbrev pub count_sessions : ℕ → List (ℕ × ℕ) → ℕ
count_sessions n [] = n
count_sessions n (d ∷ ds) = count_sessions (n + 1) ds

-- One command for each bit, in the order of the list; nothing else changes.
send_bits_lem :
    (s : Sensor) (mc lun : ℕ) (ds : List (ℕ × ℕ)) (w : World)
    → IsAnswering w.outside
    → s.mc ≡ some mc
    → s.lun ≡ some lun
    → send_bits ds s w ≡ (
      ok tt,
      record w {
        sent = w.sent ++ map (bit_line mc lun s.id) ds;
        sessions = count_sessions w.sessions ds;
      },
    )
unfolding send_bits
send_bits_lem s mc lun [] w a e1 e2 = rw append-nil
send_bits_lem s mc lun ((i, b) ∷ ds) w a e1 e2 =
    let c = bit_line mc lun s.id (i, b) in
    let w' = record w { sent = w.sent ++ c ∷ []; sessions = w.sessions + 1 } in
    rw (bit_command_lem s mc lun i b w e1 e2, send_answered c w a)
      (send_bits_lem s mc lun ds w' (record { reply = a.reply; at = a.at }) e1 e2
        ∙ ap
            (λ (t : List Text).
              (ok tt, record w { sent = t; sessions = count_sessions (w.sessions + 1) ds }))
            (append_assoc w.sent (c ∷ []) (map (bit_line mc lun s.id) ds)))

register_of_lem :
    (t : Text) (n : ℤ) (w : World)
    → int_of_text 16 (slice t 4 6 ++ slice t 2 4) ≡ some n
    → register_of t w ≡ (ok n, w)
unfolding register_of
register_of_lem t n w e = rw e

pub register_of_value_lem :
    (v : Value) (t : Text) (n : ℤ) (w : World)
    → v ≡ text t
    → int_of_text 16 (slice t 4 6 ++ slice t 2 4) ≡ some n
    → register_of_value v w ≡ (ok n, w)
unfolding register_of_value
register_of_value_lem v t n w same e = rw same (register_of_lem t n w e)

module _ (a : ℕ) (value old : Text) (s : Sensor) (mc lun kind : ℕ) (orig targ : ℤ) (w : World)
    (answering : IsAnswering w.outside) (found : get_elem? w.heap a ≡ some s)
    (has_mc : s.mc ≡ some mc) (has_lun : s.lun ≡ some lun) (has_kind : s.event_type ≡ some kind)
    (is_discrete : kind_of kind ≡ discrete) (has_value : s.value ≡ text old)
    (accepted : is_discrete_text value ≡ true)
    (old_reads : int_of_text 16 (slice old 4 6 ++ slice old 2 4) ≡ some orig)
    (new_reads : int_of_text 16 (slice value 4 6 ++ slice value 2 4) ≡ some targ) where
  write_discrete_lem : write_discrete a value s w ≡ (
    ok tt,
    record w {
      heap = set w.heap a (record s { value = text value });
      sent = w.sent ++ map (bit_line mc lun s.id) (list_diff 15 0 (bits_16 orig) (bits_16 targ));
      sessions = count_sessions w.sessions (list_diff 15 0 (bits_16 orig) (bits_16 targ));
    },
  )
  unfolding write_discrete
  write_discrete_lem =
      bind_step (register_of_value s.value)
        (λ o. register_of value >>= λ t.
          store a (set_raw_value (text value) s)
          >> send_bits (list_diff 15 0 (bits_16 o) (bits_16 t)) s)
        w (register_of_value_lem s.value old orig w has_value old_reads)
      ∙ bind_step (register_of value)
          (λ t.
            store a (set_raw_value (text value) s)
            >> send_bits (list_diff 15 0 (bits_16 orig) (bits_16 t)) s)
          w (register_of_lem value targ w new_reads)
      ∙ send_bits_lem s mc lun (list_diff 15 0 (bits_16 orig) (bits_16 targ))
          (record w { heap = set w.heap a (record s { value = text value }) })
          (record { reply = answering.reply; at = answering.at }) has_mc has_lun

  -- A discrete sensor takes a value of two bytes: the value is stored, and one command for each entry
  -- of list_diff is sent, in such a way that a register with the old bits ends with the new ones on
  -- the states 0 to 14.
  pub set_discrete_value_lem :
      (set_discrete_value a value w ≡ (
        ok tt,
        record w {
          heap = set w.heap a (record s { value = text value });
          sent =
              w.sent ++ map (bit_line mc lun s.id) (list_diff 15 0 (bits_16 orig) (bits_16 targ));
          sessions = count_sessions w.sessions (list_diff 15 0 (bits_16 orig) (bits_16 targ));
        },
      ))
      × ((r : Register)
          → ((j : ℕ) → j < 15 → r j ≡ register_bits (bits_16 orig) j)
          → (j : ℕ)
          → apply_bits (list_diff 15 0 (bits_16 orig) (bits_16 targ)) r j
            ≡ (if ltb j 15 then register_bits (bits_16 targ) j else r j))
  unfolding set_discrete_value
  set_discrete_value_lem = (
    object-bind a
          (λ o.
            with_type (discrete ∷ []) o
              (if is_discrete_text value then write_discrete a value o else raise value_error))
          w found
        ∙ with_type_accepts (discrete ∷ []) s
            (if is_discrete_text value then write_discrete a value s else raise value_error) kind w
            has_kind (rw is_discrete)
        ∙ rw accepted write_discrete_lem,
    apply_bits-list_diff (bits_16 orig) (bits_16 targ),
  )
