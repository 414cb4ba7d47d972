-- ===== src/Command/SensorCommands.antt =====
-- `sensor mode`, `sensor value` and `sensor` (vcompute/common/scripts/ipmi_sim/command.py).
use idic.Prelude.{
  ℕ, Bool, true, false, ◌&&◌, ◌||◌, not, Option, none, some, List, [], ◌∷◌, ◌++◌, ◌==◌, inl, inr,
  if◌then◌else◌, length,
}
use idic.Prelude.Int.{ℤ}
use idic.Text.{Text, codes, text_eq, mem_text, lower, starts_with, int_of_text}
use idic.Sel.{between}
use idic.Model.{
  Mode, user, auto, fault, FaultLevel, lnr, lc, lnc, unc, uc, unr, Exec, Done, pure, raise, lift,
  or_raise, gets, object, store, notify, put_message, value_error, ◌>>=◌, ◌>>◌,
}
use idic.Sensor.Attributes.{
  EventKind, na, threshold, discrete, get_event_type, set_mode, set_fault_level,
}
use idic.Sensor.Reading.{
  get_reading_factor, formula_1, formula_2, format_three_places, get_unit, str_value,
}
use idic.Sensor.Discrete.{set_threshold_value, set_discrete_value, set_state}
use idic.Command.Docs.{handle_sensor_mode_doc, handle_sensor_value_doc, handle_sensor_command_doc}
use idic.Command.Lookup.{get_sensor_instance, dump_sensor_info}

-- A help text with its line end.
abbrev pub put_help : Text → Exec Done
put_help doc = put_message (doc ++ codes "\n")

unfoldable pub parse_mode : Text → Option Mode
parse_mode t =
    if text_eq t (codes "user")
    then some user
    else if text_eq t (codes "auto")
    then some auto
    else if text_eq t (codes "fault")
    then some fault
    else none

unfoldable pub mode_name : Mode → Text
mode_name user = codes "user"
mode_name auto = codes "auto"
mode_name fault = codes "fault"

unfoldable pub parse_fault_level : Text → Option FaultLevel
parse_fault_level t =
    if text_eq t (codes "lnr")
    then some lnr
    else if text_eq t (codes "lc")
    then some lc
    else if text_eq t (codes "lnc")
    then some lnc
    else if text_eq t (codes "unc")
    then some unc
    else if text_eq t (codes "uc")
    then some uc
    else if text_eq t (codes "unr")
    then some unr
    else none

-- The sensor thread waits without a limit only in user mode.
abbrev pub must_wake : Mode → Mode → Bool
must_wake user pre_mode = false
must_wake _ user = true
must_wake _ _ = false

unfoldable pub change_mode : ℕ → Mode → Exec Done
change_mode a mode = do
  s ← object a
  store a (set_mode mode s)
  if must_wake mode s.mode then notify a else pure tt
  put_message (codes "Sensor " ++ s.name ++ codes " changed to " ++ mode_name mode ++ codes "\n")

unfoldable pub change_to_fault : ℕ → List Text → Exec Done
unfolding change_mode
change_to_fault a [] = put_help handle_sensor_mode_doc
change_to_fault a (level ∷ rest) = elim (parse_fault_level level) [
  | none ↦ put_help handle_sensor_mode_doc
  | some fault_level ↦ (do
    s ← object a
    store a (set_fault_level fault_level s)
    change_mode a fault)
]

unfoldable pub set_sensor_mode : List Text → Exec Done
unfolding change_to_fault
set_sensor_mode (str_num ∷ mode ∷ rest) = do
  found ← get_sensor_instance str_num
  elim found [
    | none ↦ pure tt
    | some a ↦ elim (parse_mode mode) [
      | none ↦ put_help handle_sensor_mode_doc
      | some m ↦ elim m [ fault ↦ change_to_fault a rest | other ↦ change_mode a other ]
    ]
  ]
set_sensor_mode _ = put_help handle_sensor_mode_doc

unfoldable pub get_sensor_mode : List Text → Exec Done
get_sensor_mode (str_num ∷ []) = do
  found ← get_sensor_instance str_num
  elim found [
    | none ↦ pure tt
    | some a ↦ (do
      s ← object a
      put_message (codes "Sensor " ++ s.name ++ codes " mode: " ++ mode_name s.mode ++ codes "\n"))
  ]
get_sensor_mode _ = put_help handle_sensor_mode_doc

unfoldable pub handle_sensor_mode : List Text → Exec Done
unfolding set_sensor_mode get_sensor_mode
handle_sensor_mode [] = put_help handle_sensor_mode_doc
handle_sensor_mode (verb ∷ args) =
    if text_eq verb (codes "set")
    then set_sensor_mode args
    else if text_eq verb (codes "get")
    then get_sensor_mode args
    else pure tt

-- A value for an analog sensor: float(), the inverse of the reading, int().
unfoldable pub set_analog : ℕ → Text → Exec Done
set_analog a t = do
  analog ← gets (λ w. w.outside.parse_double t)
  elim analog [
    | none ↦ put_message (codes "illegal sensor value: " ++ t ++ codes "\n")
    | some analog_value ↦ (do
      s ← object a
      f ← get_reading_factor s
      x ← formula_2 f analog_value
      raw ← gets (λ w. w.outside.truncate x)
      elim raw [ inl raw_value ↦ set_threshold_value a raw_value | inr e ↦ raise e ])
  ]

-- The two accepted spellings of two bytes.
unfoldable pub discrete_text : Text → Option Text
discrete_text t =
    if starts_with (lower t) (codes "0x") && length t == 6
    then some t
    else if not (starts_with (lower t) (codes "0x")) && length t == 4
    then some (codes "0x" ++ t)
    else none

unfoldable pub set_or_help : ℕ → Option Text → Exec Done
set_or_help a none = put_help handle_sensor_value_doc
set_or_help a (some raw_value) = set_discrete_value a raw_value

-- The value is checked to be a number, and then to have one of the two spellings.
unfoldable pub set_if_hex : ℕ → Text → Option ℤ → Exec Done
unfolding discrete_text set_or_help
set_if_hex a t none = put_help handle_sensor_value_doc
set_if_hex a t (some _) = set_or_help a (discrete_text t)

unfoldable pub set_discrete : ℕ → Text → Exec Done
unfolding set_if_hex
set_discrete a t = set_if_hex a t (int_of_text 16 t)

-- `sensor_obj` is switched to user mode first if it is in auto mode.
unfoldable pub leave_auto : ℕ → Exec Done
leave_auto a = do
  s ← object a
  elim s.mode [ auto ↦ (do store a (set_mode user s); notify a) | _ ↦ pure tt ]

unfoldable pub set_by_kind : ℕ → Text → Exec Done
unfolding set_analog set_discrete
set_by_kind a t = do
  s ← object a
  k ← get_event_type s
  elim k [ threshold ↦ set_analog a t | discrete ↦ set_discrete a t | na ↦ pure tt ]

unfoldable pub kind_name : EventKind → Text
kind_name na = codes "NA"
kind_name threshold = codes "threshold"
kind_name discrete = codes "discrete"

-- `<sensor id> state <state id> 1|0`, behind the lookup of the sensor.
unfoldable pub set_state_bit : ℕ → Text → Text → Text → Text → Exec Done
set_state_bit a str_num word state_id bit = do
  s ← object a
  k ← get_event_type s
  elim k [
    | discrete ↦ (do
      if not (text_eq (lower word) (codes "state")) then put_help handle_sensor_value_doc else do
        i ← lift (or_raise value_error (int_of_text 10 state_id))
        if not (between 0 14 i) || not (mem_text bit (codes "1" ∷ codes "0" ∷ []))
            then put_help handle_sensor_value_doc
            else do b ← lift (or_raise value_error (int_of_text 10 bit)); set_state a i b)
    | other ↦ put_message (
        codes "Set state bit is for discrete sensor only, sensor: "
        ++ str_num
        ++ codes " is "
        ++ kind_name other)
  ]

-- What follows the lookup, by the number of arguments behind the sensor id.
unfoldable pub assign_value : ℕ → Text → List Text → Exec Done
unfolding leave_auto set_by_kind set_state_bit
assign_value a str_num (t ∷ []) = do leave_auto a; set_by_kind a t
assign_value a str_num (word ∷ state_id ∷ bit ∷ []) = do
  leave_auto a
  set_state_bit a str_num word state_id bit
assign_value a str_num _ = do leave_auto a; put_help handle_sensor_value_doc

unfoldable pub look_up_and_assign : List Text → Exec Done
unfolding assign_value
look_up_and_assign [] = put_help handle_sensor_value_doc
look_up_and_assign (str_num ∷ rest) = do
  found ← get_sensor_instance str_num
  elim found [ none ↦ pure tt | some a ↦ assign_value a str_num rest ]

unfoldable pub set_sensor_value : List Text → Exec Done
unfolding look_up_and_assign
set_sensor_value args =
    if not (length args == 2) then put_help handle_sensor_value_doc else look_up_and_assign args

unfoldable pub show_value : ℕ → Exec Done
show_value a = do
  s ← object a
  k ← get_event_type s
  elim k [
    | threshold ↦ (do
      f ← get_reading_factor s
      n ← formula_1 f s.value
      value ← format_three_places n
      unit ← get_unit s
      put_message (s.name ++ codes " : " ++ value ++ codes " " ++ unit ++ codes "\n"))
    | discrete ↦ put_message (s.name ++ codes " : " ++ str_value s.value)
    | na ↦ pure tt
  ]

unfoldable pub get_sensor_value : List Text → Exec Done
unfolding show_value
get_sensor_value (str_num ∷ []) = do
  found ← get_sensor_instance str_num
  elim found [ none ↦ pure tt | some a ↦ show_value a ]
get_sensor_value _ = put_help handle_sensor_value_doc

unfoldable pub handle_sensor_value : List Text → Exec Done
unfolding set_sensor_value get_sensor_value
handle_sensor_value [] = put_help handle_sensor_value_doc
handle_sensor_value (verb ∷ args) =
    if text_eq verb (codes "set")
    then set_sensor_value args
    else if text_eq verb (codes "get")
    then get_sensor_value args
    else pure tt

unfoldable pub handle_sensor_command : List Text → Exec Done
unfolding dump_sensor_info handle_sensor_mode handle_sensor_value
handle_sensor_command [] = put_help handle_sensor_command_doc
handle_sensor_command (verb ∷ args) =
    if text_eq verb (codes "info")
    then dump_sensor_info args
    else if text_eq verb (codes "mode")
    then handle_sensor_mode args
    else if text_eq verb (codes "value")
    then handle_sensor_value args
    else pure tt
