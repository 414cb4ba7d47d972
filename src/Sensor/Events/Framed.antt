-- ===== src/Sensor/Events/Framed.antt =====
-- What the event operations (sel.py, sensor.py) leave alone.
use idic.Prelude.{entry_ℤ, ℕ, Bool, [], ◌∷◌}
use idic.Prelude.Int.{ℤ}
use idic.Model.{World, Sensor, Sel}
use idic.Model.Outcomes.{
  Preserves-pure, Preserves-lift, Preserves-object, Preserves-bind, Preserves-if, Preserves-raise,
  Preserves-option,
}
use idic.Sel.{
  between, is_number, check_event_type, check_sensor_type, list_events, list_specific_events,
  get_event, set_event_data, send_event, OemClass, c0_df, e0_ff, OemSel, oem_send_event,
}
use idic.Sel.Generic.{Events}
use idic.Sel.Entry.{SpecificEvents}
use idic.Sensor.Law.{
  Law, IsFramed, Framed, Framed-store, Framed-put_message, Framed-log_error, Framed-send,
  Framed-object,
}
use idic.Sensor.Events.{get_sel, set_sel, record_event, add_event, standard_add, checked_add}

module _ (p : Law) (v : World) where
  Framed-check_event_type : (s : Sel) → Framed p v (check_event_type s)
  unfolding check_event_type
  Framed-check_event_type s =
      search (Preserves-bind, Preserves-if, Framed-put_message, Framed-log_error, Preserves-pure)
        depth 8

  Framed-check_sensor_type : (s : Sel) → Framed p v (check_sensor_type s)
  unfolding check_sensor_type
  Framed-check_sensor_type s =
      search (Preserves-bind, Preserves-if, Framed-put_message, Framed-log_error, Preserves-pure)
        depth 8

  Framed-list_events : (es : Events) → Framed p v (list_events es)
  unfolding list_events
  Framed-list_events [] = search (Preserves-pure)
  Framed-list_events ((i, d) ∷ es) =
      Preserves-bind (IsFramed p v) _ (λ t. list_events es) (Framed-put_message p v _)
        (λ t. Framed-list_events es)

  Framed-list_specific_events : (es : SpecificEvents) → Framed p v (list_specific_events es)
  unfolding list_specific_events
  Framed-list_specific_events [] = search (Preserves-pure)
  Framed-list_specific_events ((i, e) ∷ es) =
      Preserves-bind (IsFramed p v) _ (λ t. list_specific_events es) (Framed-put_message p v _)
        (λ t. Framed-list_specific_events es)

  Framed-get_event : (s : Sel) → Framed p v (get_event s)
  unfolding get_event
  Framed-get_event s =
      search
        (
          Preserves-bind, Preserves-if, Preserves-lift, Framed-list_events,
          Framed-list_specific_events, Framed-put_message, Framed-log_error, Preserves-pure,
        )
        depth 10

  Framed-set_event_data : (i : ℤ) (s : Sel) → Framed p v (set_event_data i s)
  unfolding set_event_data
  Framed-set_event_data i s =
      Preserves-if (IsFramed p v) (between 0x1 0x0C s.event_type) _ _
        (Preserves-bind (IsFramed p v) _ _ (Preserves-lift (IsFramed p v) _) (λ events.
          Preserves-option (IsFramed p v) (entry_ℤ i events) _ _
            (search (Preserves-bind, Framed-put_message, Preserves-pure))
            (λ d. Preserves-pure (IsFramed p v) _)))
        (Preserves-if (IsFramed p v) (is_number 0x6F s.event_type) _ _
          (Preserves-bind (IsFramed p v) _ _ (Preserves-lift (IsFramed p v) _) (λ events.
            Preserves-option (IsFramed p v) (entry_ℤ i events) _ _
              (search (Preserves-bind, Framed-put_message, Preserves-pure))
              (λ e. Preserves-pure (IsFramed p v) _)))
          (search (Preserves-bind, Framed-put_message, Framed-log_error, Preserves-pure)))

  pub Framed-send_event : (s : Sel) → Framed p v (send_event s)
  unfolding send_event
  Framed-send_event s = search (Preserves-bind, Framed-send, Preserves-pure)

  Framed-record_event :
      (a : ℕ) (s : Sensor) (d : ℕ) (r : Bool × Sel)
      → p.Holds a s
      → Framed p v (record_event a s d r)
  unfolding record_event
  Framed-record_event a s d (b, sel) h =
      search (Preserves-bind, Preserves-if, Framed-store, Framed-send_event, Preserves-pure, p.sel)
        depth 8

  pub Framed-get_sel : (a : ℕ) → Framed p v (get_sel a)
  unfolding get_sel
  Framed-get_sel a =
      search
        (
          Preserves-bind, Preserves-object, Framed-check_event_type, Framed-check_sensor_type,
          Preserves-if, Framed-get_event, Preserves-pure,
        )
        depth 12

  pub Framed-set_sel : (a : ℕ) (i : ℤ) (d : ℕ) → Framed p v (set_sel a i d)
  unfolding set_sel checked_add standard_add add_event
  Framed-set_sel a i d = Framed-object p v a _ (λ s h.
      search
        (
          Preserves-bind, Framed-check_event_type, Framed-check_sensor_type, Preserves-if,
          Framed-set_event_data, Framed-record_event, Preserves-pure,
        )
        depth 12)

  pub Framed-oem_send_event : (c : OemClass) (s : OemSel) → Framed p v (oem_send_event c s)
  unfolding oem_send_event
  Framed-oem_send_event c0_df s = search (Preserves-raise)
  Framed-oem_send_event e0_ff s = search (Preserves-bind, Framed-send, Preserves-pure)
