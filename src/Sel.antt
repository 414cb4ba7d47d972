-- ===== src/Sel.antt =====
-- The methods of `class SEL` and of the two OEM classes (vcompute/common/scripts/ipmi_sim/sel.py).
-- The event tables are in the children Generic, Specific and SpecificMore.
pub mod Generic
pub mod Entry
pub mod Specific
mod SpecificMore
pub mod Tables
use idic.Prelude.{
  ℕ, ◌+◌, ◌*◌, Bool, true, false, ◌&&◌, ◌||◌, Option, none, some, List, [], ◌∷◌, ◌++◌, map, leb,
  ◌==◌, if◌then◌else◌, entry_ℤ,
}
use idic.Prelude.Int.{ℤ, pos, negsuc, or_ℤ}
use idic.Text.{Text, codes, hex, decimal, join}
use idic.Model.{
  Sel, Exec, Done, pure, raise, lift, or_raise, key_error, attribute_error, put_message, ◌>>=◌,
  ◌>>◌, World, modify, Result, ok, err, continue,
}
use idic.Common.{log_error, send_ipmi_sim_command}
use Generic.{Events, events_map}
use Entry.{SpecificEvent, SpecificEvents}
use Specific.{specific_events_low}
use SpecificMore.{specific_events_high}

-- The setters.
abbrev pub set_mc : ℤ → Sel → Sel
set_mc x s = record s { mc = x }

abbrev pub set_gid_1 : ℤ → Sel → Sel
set_gid_1 x s = record s { gid_1 = x }

abbrev pub set_gid_2 : ℤ → Sel → Sel
set_gid_2 x s = record s { gid_2 = x }

abbrev pub set_sensor_type : ℤ → Sel → Sel
set_sensor_type x s = record s { sensor_type = x }

abbrev pub set_sensor_num : ℤ → Sel → Sel
set_sensor_num x s = record s { sensor_num = x }

abbrev pub set_event_dir : ℕ → Sel → Sel
set_event_dir x s = record s { event_dir = x }

abbrev pub set_event_type : ℤ → Sel → Sel
set_event_type x s = record s { event_type = x }

abbrev pub set_event_data_1 : ℤ → Sel → Sel
set_event_data_1 x s = record s { event_data_1 = x }

abbrev pub set_event_data_2 : ℤ → Sel → Sel
set_event_data_2 x s = record s { event_data_2 = x }

abbrev pub set_event_data_3 : ℤ → Sel → Sel
set_event_data_3 x s = record s { event_data_3 = x }

-- lo <= x <= hi, and x == n.
abbrev pub between : ℕ → ℕ → ℤ → Bool
between lo hi (pos n) = leb lo n && leb n hi
between lo hi (negsuc n) = false

abbrev pub is_number : ℕ → ℤ → Bool
is_number n (pos m) = m == n
is_number n (negsuc m) = false

unfoldable pub sensor_specific_event_map : List (ℕ × SpecificEvents)
unfolding specific_events_low specific_events_high
sensor_specific_event_map = specific_events_low ++ specific_events_high

-- The text that goes both to the log and to the user.
abbrev report : Text → Exec Done
report t = do log_error t; put_message t

unfoldable pub check_event_type : Sel → Exec Bool
check_event_type s =
    if is_number 0x6F s.event_type
    then pure true
    else if between 0x1 0x0C s.event_type
    then pure true
    else do
      report (
          codes "sensor num: "
          ++ hex s.sensor_num
          ++ codes "\nevent type "
          ++ hex s.event_type
          ++ codes " not in the sensor events.                    perhaps OEM defined")
      pure false

unfoldable pub check_sensor_type : Sel → Exec Bool
check_sensor_type s = if between 0x1 0x2C s.sensor_type then pure true else do
  report (
      codes "sensor num: "
      ++ hex s.sensor_num
      ++ codes "\nsensor type "
      ++ hex s.sensor_type
      ++ codes " not exist in the stardard                     system\n")
  pure false

-- One line for each event: '\tID: {0}\t{1}\n'.
unfoldable pub event_line : ℕ → Text → Text
event_line i description =
    codes "\tID: " ++ decimal (pos i) ++ codes "\t" ++ description ++ codes "\n"

unfoldable pub list_events : Events → Exec Done
unfolding event_line
list_events [] = pure tt
list_events ((i, description) ∷ rest) = do
  put_message (event_line i (codes description))
  list_events rest

unfoldable pub list_specific_events : SpecificEvents → Exec Done
unfolding event_line
list_specific_events [] = pure tt
list_specific_events ((i, e) ∷ rest) = do
  put_message (event_line i (codes e.description))
  list_specific_events rest

unfoldable pub get_event : Sel → Exec Bool
get_event s =
    if between 0x1 0x0C s.event_type
    then (do
      events ← lift (or_raise key_error (entry_ℤ s.event_type events_map))
      list_events events
      pure true)
    else if is_number 0x6F s.event_type
    then (do
      events ← lift (or_raise key_error (entry_ℤ s.sensor_type sensor_specific_event_map))
      list_specific_events events
      pure true)
    else do
      report (
          codes "sensor num: "
          ++ hex s.sensor_num
          ++ codes " event type "
          ++ hex s.event_type
          ++ codes " not exist\n")
      pure true

-- The second line of the two refusals of an event id.
unfoldable pub event_refusal : ℤ → Text → Sel → Text
event_refusal event_id where_text s =
    codes "event id "
    ++ decimal event_id
    ++ where_text
    ++ codes "sensor num: "
    ++ hex s.sensor_num
    ++ codes " sensor type: "
    ++ hex s.sensor_type
    ++ codes " event type: "
    ++ hex s.event_type
    ++ codes "\n"

abbrev pub with_data : ℤ → ℤ → ℤ → Sel → Sel
with_data a b c s = record s { event_data_1 = a; event_data_2 = b; event_data_3 = c }

-- The state after `set_event_data` comes back beside its result.
unfoldable pub set_event_data : ℤ → Sel → Exec (Bool × Sel)
set_event_data event_id s =
    if between 0x1 0x0C s.event_type
    then (do
      events ← lift (or_raise key_error (entry_ℤ s.event_type events_map))
      elim (entry_ℤ event_id events) [
        | none ↦ (do
          put_message (event_refusal event_id (codes " not in the sensor event\n") s)
          pure (false, s))
        | some _ ↦ pure (true, with_data event_id (pos 0) (pos 0) s)
      ])
    else if is_number 0x6F s.event_type
    then (do
      events ← lift (or_raise key_error (entry_ℤ s.sensor_type sensor_specific_event_map))
      elim (entry_ℤ event_id events) [
        | none ↦ (do
          put_message (event_refusal event_id (codes " not in the sensor specific event\n") s)
          pure (false, s))
        | some e ↦ pure (true, with_data (pos e.data_1) (pos e.data_2) (pos e.data_3) s)
      ])
    else do
      report (
          codes "event type "
          ++ decimal s.event_type
          ++ codes " not exist\nsensor num: "
          ++ decimal s.sensor_num
          ++ codes "\n")
      pure (false, s)

-- The line that `send_event` writes.
unfoldable pub sel_add : Sel → Text
sel_add s =
    codes "sel_add "
    ++ join (codes " ") (
        map hex (
          s.mc
          ∷ s.record_type
          ∷ s.ts_1
          ∷ s.ts_2
          ∷ s.ts_3
          ∷ s.ts_4
          ∷ s.gid_1
          ∷ s.gid_2
          ∷ s.evm_rev
          ∷ s.sensor_type
          ∷ s.sensor_num
          ∷ or_ℤ s.event_type (s.event_dir * 128)
          ∷ s.event_data_1
          ∷ s.event_data_2
          ∷ s.event_data_3
          ∷ []))
    ++ codes "\n"

unfoldable pub send_event : Sel → Exec Done
unfolding sel_add
send_event s = do send_ipmi_sim_command (sel_add s); pure tt

-- The OEM records. Neither class has a method `set_sensor_type`, and `mfg_id_3` is set nowhere.
pub record OemSel : Type 0 where
  pub mc : ℤ
  pub record_id : ℤ
  pub record_type : ℤ
  pub oem_defined : List ℤ

pub data OemClass : Type 0 where
  c0_df e0_ff : OemClass

abbrev pub new_oem : OemSel
new_oem = record { mc = pos 0x20; record_id = pos 0; record_type = pos 0; oem_defined = [] }

unfoldable pub set_oem_defined_bytes : List ℤ → OemSel → OemSel
set_oem_defined_bytes [] s = s
set_oem_defined_bytes (x ∷ xs) s =
    set_oem_defined_bytes xs (record s { oem_defined = s.oem_defined ++ x ∷ [] })

-- `sel_obj.set_sensor_type(...)` on an OEM object.
unfoldable pub oem_set_sensor_type : OemSel → ℤ → Exec OemSel
oem_set_sensor_type s x = raise attribute_error

-- `send_event(self, sel)` of the two classes.
unfoldable pub oem_send_event : OemClass → OemSel → Exec Done
oem_send_event c0_df s = raise attribute_error
oem_send_event e0_ff s = do
  send_ipmi_sim_command (
      codes "sel_add "
      ++ hex s.mc
      ++ codes " "
      ++ hex s.record_type
      ++ codes " "
      ++ join (codes " ") (map hex s.oem_defined)
      ++ codes "\n")
  pure tt
