-- ===== src/Sensor/Events/Sent.antt =====
-- The record that `set_sel` sends for an event that the tables have.
use idic.Prelude.{
  ℕ, ◌+◌, ◌≡◌, true, false, not, none, some, [], ◌∷◌, ◌++◌, arith, ◌∙◌, get_elem?, set, entry_ℤ,
  if◌then◌else◌, String,
}
use idic.Prelude.Int.{ℤ, pos}
use idic.Sel.{
  between, check_event_type, check_sensor_type, set_event_data, send_event, sel_add, set_event_dir,
  with_data, sensor_specific_event_map,
}
use idic.Sel.Entry.{SpecificEvent, SpecificEvents}
use idic.Sel.Generic.{Events, events_map}
use idic.Common.Sending.{IsAnswering, send_answered}
use idic.Model.{Sensor, Sel, World, ok, object-bind, bind_step, pure}
use idic.Sensor.Events.{set_sel, checked_add, standard_add, add_event, record_event}

-- The data bytes that the tables give for an event id: of a generic event type its id, and of the
-- type 0x6F the three bytes of the entry for the sensor type.
pub data Lists (s : Sel) (i : ℤ) : ℤ → ℤ → ℤ → Type 0 where
  generic :
      (events : Events) (d : String)
      → between 0x1 0x0C s.event_type ≡ true
      → entry_ℤ s.event_type events_map ≡ some events
      → entry_ℤ i events ≡ some d
      → Lists s i i (pos 0) (pos 0)
  specific :
      (events : SpecificEvents) (e : SpecificEvent)
      → s.event_type ≡ pos 0x6F
      → entry_ℤ s.sensor_type sensor_specific_event_map ≡ some events
      → entry_ℤ i events ≡ some e
      → Lists s i (pos e.data_1) (pos e.data_2) (pos e.data_3)

check_event_type_listed :
    {s : Sel} {i a b c : ℤ} (w : World) → Lists s i a b c → check_event_type s w ≡ (ok true, w)
unfolding check_event_type
check_event_type_listed w (generic events d e1 e2 e3) = ground arith
check_event_type_listed w (specific events d e1 e2 e3) = ground arith

set_event_data_listed :
    {s : Sel} {i a b c : ℤ} (w : World)
    → Lists s i a b c
    → set_event_data i s w ≡ (ok (true, with_data a b c s), w)
unfolding set_event_data
set_event_data_listed w (generic events d e1 e2 e3) = ground arith
set_event_data_listed w (specific events d e1 e2 e3) = ground arith

check_sensor_type_accepts :
    (s : Sel) (w : World)
    → between 0x1 0x2C s.sensor_type ≡ true
    → check_sensor_type s w ≡ (ok true, w)
unfolding check_sensor_type
check_sensor_type_accepts s w e = rw e

module _ (a : ℕ) (s : Sensor) (i d1 d2 d3 : ℤ) (dir : ℕ) (w : World)
    (answering : IsAnswering w.outside) (found : get_elem? w.heap a ≡ some s)
    (standard : between 0x1 0x2C s.sel.sensor_type ≡ true) (listed : Lists s.sel i d1 d2 d3) where
  abbrev sent_sel : Sel
  sent_sel = set_event_dir dir (with_data d1 d2 d3 s.sel)

  record_event_lem : record_event a s dir (true, with_data d1 d2 d3 s.sel) w ≡ (
    ok none,
    record w {
      heap = set w.heap a (record s { sel = sent_sel });
      sent = w.sent ++ sel_add sent_sel ∷ [];
      sessions = w.sessions + 1;
    },
  )
  unfolding record_event send_event
  record_event_lem = rw (
      send_answered (sel_add sent_sel)
        (record w { heap = set w.heap a (record s { sel = sent_sel }) })
        (record { reply = answering.reply; at = answering.at }))

  -- An event that the tables have, on a sensor of a standard type, is stored with its data bytes and
  -- its direction, and exactly one record with those goes to the simulator; there is no other effect.
  pub set_sel-sends : set_sel a i dir w ≡ (
    ok none,
    record w {
      heap = set w.heap a (record s { sel = set_event_dir dir (with_data d1 d2 d3 s.sel) });
      sent = w.sent ++ sel_add (set_event_dir dir (with_data d1 d2 d3 s.sel)) ∷ [];
      sessions = w.sessions + 1;
    },
  )
  unfolding set_sel checked_add standard_add add_event
  set_sel-sends =
      object-bind a (checked_add a i dir) w found
      ∙ bind_step (check_event_type s.sel)
          (λ b. if not b then pure (some false) else standard_add a i dir s) w
          (check_event_type_listed w listed)
      ∙ bind_step (check_sensor_type s.sel)
          (λ b. if not b then pure (some false) else add_event a s i dir) w
          (check_sensor_type_accepts s.sel w standard)
      ∙ bind_step (set_event_data i s.sel) (record_event a s dir) w (set_event_data_listed w listed)
      ∙ record_event_lem
