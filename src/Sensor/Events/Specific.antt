-- ===== src/Sensor/Events/Specific.antt =====
-- Sensor specific events (event type 0x6F): the sensor types that pass the check and have no table,
-- and the record that an event with a table sends.
use idic.Prelude.{ℕ, ◌<◌, ◌≤◌, ◌≡◌, true, none, some, arith, get_elem?, entry}
use idic.Prelude.Int.{ℤ, pos}
use idic.Sel.{
  check_event_type, check_sensor_type, get_event, set_event_data, sensor_specific_event_map,
}
use idic.Sel.Tables.{lacks_events, specific_events_missing}
use idic.Model.{Sensor, Sel, World, ok, err, key_error}
use idic.Sensor.Events.{get_sel, set_sel}

check_event_type_specific :
    (s : Sel) (w : World) → s.event_type ≡ pos 0x6F → check_event_type s w ≡ (ok true, w)
unfolding check_event_type
check_event_type_specific s w e = ground arith

check_sensor_type_standard :
    (s : Sel) (t : ℕ) (w : World)
    → s.sensor_type ≡ pos t
    → 1 ≤ t
    → t < 0x2D
    → check_sensor_type s w ≡ (ok true, w)
unfolding check_sensor_type
check_sensor_type_standard s t w e l h = ground arith

get_event_missing :
    (s : Sel) (t : ℕ) (w : World)
    → s.event_type ≡ pos 0x6F
    → s.sensor_type ≡ pos t
    → entry t sensor_specific_event_map ≡ none
    → get_event s w ≡ (err key_error, w)
unfolding get_event
get_event_missing s t w e1 e2 m = ground arith

set_event_data_missing :
    (s : Sel) (i : ℤ) (t : ℕ) (w : World)
    → s.event_type ≡ pos 0x6F
    → s.sensor_type ≡ pos t
    → entry t sensor_specific_event_map ≡ none
    → set_event_data i s w ≡ (err key_error, w)
unfolding set_event_data
set_event_data_missing s i t w e1 e2 m = ground arith

-- For a sensor of event type 0x6F whose standard sensor type has no table, `sel get` and `sel set`
-- pass both checks and raise KeyError; no message is put and nothing is sent.
pub specific_events_raise :
    (a : ℕ) (s : Sensor) (t : ℕ) (i : ℤ) (dir : ℕ) (w : World)
    → get_elem? w.heap a ≡ some s
    → s.sel.event_type ≡ pos 0x6F
    → s.sel.sensor_type ≡ pos t
    → 1 ≤ t
    → t < 0x2D
    → lacks_events t ≡ true
    → (get_sel a w ≡ (err key_error, w)) × (set_sel a i dir w ≡ (err key_error, w))
unfolding get_sel set_sel
specific_events_raise a s t i dir w found e1 e2 l h lacks =
    let m = specific_events_missing t h lacks in
    (
      ground (
        arith,
        check_event_type_specific s.sel w e1,
        check_sensor_type_standard s.sel t w e2 l h,
        get_event_missing s.sel t w e1 e2 m,
      ),
      ground (
        arith,
        check_event_type_specific s.sel w e1,
        check_sensor_type_standard s.sel t w e2 l h,
        set_event_data_missing s.sel i t w e1 e2 m,
      ),
    )
