-- ===== src/Sensor/Events.antt =====
-- `Sensor.get_sel` and `Sensor.set_sel` (vcompute/common/scripts/ipmi_sim/sensor.py). The result
-- is the False of an early return, or None.
pub mod Outcomes
pub mod Framed
pub mod Sent
pub mod Specific
use idic.Prelude.{ℕ, Bool, true, false, Option, none, some, if◌then◌else◌, not}
use idic.Prelude.Int.{ℤ}
use idic.Sel.{
  check_event_type, check_sensor_type, get_event, set_event_data, set_event_dir, send_event,
}
use idic.Model.{
  Sensor, Sel, Exec, Done, pure, object, store, ◌>>=◌, ◌>>◌, World, Result, ok, err, continue,
  modify,
}

unfoldable pub get_sel : ℕ → Exec (Option Bool)
get_sel a = do
  s ← object a
  typed ← check_event_type s.sel
  if not typed then pure (some false) else do
    standard ← check_sensor_type s.sel
    if not standard then pure (some false) else do get_event s.sel; pure none

-- The rest of `set_sel` once `set_event_data` has returned.
unfoldable pub record_event : ℕ → Sensor → ℕ → Bool × Sel → Exec (Option Bool)
record_event a s event_dir (found, sel) = if not found then pure (some false) else do
  store a (record s { sel = set_event_dir event_dir sel })
  send_event (set_event_dir event_dir sel)
  pure none

-- The part of `set_sel` behind the two checks.
unfoldable pub add_event : ℕ → Sensor → ℤ → ℕ → Exec (Option Bool)
unfolding record_event
add_event a s event_id event_dir = do
  found ← set_event_data event_id s.sel
  record_event a s event_dir found

-- The second check, and the first.
unfoldable pub standard_add : ℕ → ℤ → ℕ → Sensor → Exec (Option Bool)
standard_add a event_id event_dir s = do
  standard ← check_sensor_type s.sel
  if not standard then pure (some false) else add_event a s event_id event_dir

unfoldable pub checked_add : ℕ → ℤ → ℕ → Sensor → Exec (Option Bool)
checked_add a event_id event_dir s = do
  typed ← check_event_type s.sel
  if not typed then pure (some false) else standard_add a event_id event_dir s

unfoldable pub set_sel : ℕ → ℤ → ℕ → Exec (Option Bool)
unfolding checked_add standard_add add_event
set_sel a event_id event_dir = do s ← object a; checked_add a event_id event_dir s
