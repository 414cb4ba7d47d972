-- ===== src/Command/SelCommands.antt =====
-- The `sel` commands (vcompute/common/scripts/ipmi_sim/command.py).
use idic.Prelude.{not, Option, none, some, List, [], ◌∷◌, ◌==◌, if◌then◌else◌, length}
use idic.Prelude.Int.{ℤ}
use idic.Text.{Text, codes, text_eq, lower, int_of_text}
use idic.Sel
use idic.Sel.{
  between, is_number, send_event, OemClass, c0_df, e0_ff, new_oem, set_oem_defined_bytes,
  oem_set_sensor_type, oem_send_event,
}
use idic.Model.{new_sel, Exec, Done, pure, raise, index_error, ◌>>=◌, ◌>>◌}
use idic.Common.{log_error}
use idic.Sensor.Events
use idic.Command.Docs.{handle_sel_command_doc}
use idic.Command.Lookup.{get_sensor_instance}
use idic.Command.SensorCommands.{put_help}

-- `[int(x, 16) for x in texts]`
unfoldable pub parse_hex_list : List Text → Option (List ℤ)
parse_hex_list [] = some []
parse_hex_list (t ∷ ts) = elim (int_of_text 16 t) [
  | none ↦ none
  | some n ↦ elim (parse_hex_list ts) [ none ↦ none | some ns ↦ some (n ∷ ns) ]
]

-- A standard record from the eight numbers behind its type.
unfoldable pub send_standard : List ℤ → Exec Done
send_standard
      (gid_1 ∷ gid_2 ∷ sensor_type ∷ sensor_num ∷ event_type ∷ data_1 ∷ data_2 ∷ data_3 ∷ rest) =
    send_event (
      Sel.set_event_data_3 data_3 (
        Sel.set_event_data_2 data_2 (
          Sel.set_event_data_1 data_1 (
            Sel.set_event_type event_type (
              Sel.set_sensor_num sensor_num (
                Sel.set_gid_2 gid_2
                  (Sel.set_gid_1 gid_1 (Sel.set_sensor_type sensor_type new_sel))))))))
send_standard _ = raise index_error

unfoldable pub set_standard_sel : List Text → Exec Done
unfolding parse_hex_list send_standard
set_standard_sel args =
    if not (length args == 8) then put_help handle_sel_command_doc else elim (parse_hex_list args) [
      | none ↦ log_error (codes "illegal data format\n")
      | some ns ↦ send_standard ns
    ]

-- The tail of `set_oem_sel`, for an object of one of the OEM classes.
unfoldable pub set_oem_bytes : OemClass → ℤ → List Text → Exec Done
unfolding parse_hex_list oem_set_sensor_type set_oem_defined_bytes oem_send_event
set_oem_bytes class_ record_type args = elim (parse_hex_list args) [
  | none ↦ log_error (codes "illegal data format\n")
  | some elements ↦ (do
    sel ← oem_set_sensor_type new_oem record_type
    oem_send_event class_ (set_oem_defined_bytes elements sel))
]

unfoldable pub set_oem_of_type : ℤ → List Text → Exec Done
unfolding set_standard_sel set_oem_bytes
set_oem_of_type record_type args =
    if is_number 0x02 record_type
    then set_standard_sel args
    else if between 0xC0 0xDF record_type
    then (if not (length args == 6)
        then put_help handle_sel_command_doc
        else set_oem_bytes c0_df record_type args)
    else if between 0xE0 0xFF record_type
    then (if not (length args == 13)
        then put_help handle_sel_command_doc
        else set_oem_bytes e0_ff record_type args)
    else log_error (codes "unkown record type")

-- `args` behind the word oem; the length tests of the source count the record type too.
unfoldable pub set_oem_sel : List Text → Exec Done
unfolding set_oem_of_type
set_oem_sel [] = raise index_error
set_oem_sel (record_type ∷ args) = elim (int_of_text 16 record_type) [
  | none ↦ log_error (codes "record type illegal\n")
  | some n ↦ set_oem_of_type n args
]

-- The event of a sensor.
unfoldable pub set_sensor_sel : Text → Text → Text → Exec Done
set_sensor_sel str_num event_id action = do
  found ← get_sensor_instance str_num
  elim found [
    | none ↦ pure tt
    | some a ↦ elim (int_of_text 10 event_id) [
      | none ↦ log_error (codes "illegal event id")
      | some n ↦
          if text_eq action (codes "assert")
          then (do Events.set_sel a n 0; pure tt)
          else if text_eq action (codes "deassert")
          then (do Events.set_sel a n 1; pure tt)
          else put_help handle_sel_command_doc
    ]
  ]

unfoldable pub set_sel : List Text → Exec Done
unfolding set_oem_sel set_sensor_sel
set_sel (target ∷ event_id ∷ action ∷ rest) =
    if text_eq (lower target) (codes "oem")
    then set_oem_sel (event_id ∷ action ∷ rest)
    else set_sensor_sel target event_id action
set_sel _ = put_help handle_sel_command_doc

unfoldable pub get_sel : List Text → Exec Done
get_sel (str_num ∷ []) = do
  found ← get_sensor_instance str_num
  elim found [ none ↦ pure tt | some a ↦ (do Events.get_sel a; pure tt) ]
get_sel _ = put_help handle_sel_command_doc

unfoldable pub handle_sel_command : List Text → Exec Done
unfolding set_sel get_sel
handle_sel_command [] = put_help handle_sel_command_doc
handle_sel_command (verb ∷ args) =
    if text_eq verb (codes "set")
    then set_sel args
    else if text_eq verb (codes "get")
    then get_sel args
    else pure tt
