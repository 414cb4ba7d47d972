-- ===== src/Sdr.antt =====
-- vcompute/common/scripts/ipmi_sim/sdr.py: the sensors are built from a dump of the SDR repository.
pub mod Fuel
pub mod Reads
pub mod Registry
pub mod Preserved
pub mod Values
pub mod Fresh
pub mod Typed
pub mod Bytes
pub mod Bounded
use idic.Prelude.{
  ℕ, zero, suc, ◌+◌, ◌-◌, Bool, true, false, ◌&&◌, not, Option, none, some, List, [], ◌∷◌, ◌++◌,
  ◌==◌, ltb, if◌then◌else◌, length, get_elem?,
}
use idic.Prelude.Int.{pos}
use idic.Text.{Text, codes, text_eq, hex, words, int_of_text}
use idic.Model.{
  Sensor, new_sensor, Value, absent, number, text, Exec, Done, pure, raise, lift, or_raise, object,
  store, type_error, value_error, index_error, system_exit, ◌>>=◌, ◌>>◌,
}
use idic.Common.{send_ipmitool_command}
use idic.Sensor.Attributes.{
  EventKind, na, threshold, discrete, kind_of, set_mc, set_lun, set_ltm_lb, set_ltm_ub, set_utm_lb,
  set_utm_ub, set_stm, set_rtm, set_su1, set_su2, set_cap, set_event_type, set_m_lb, set_m_ub,
  set_b_lb, set_b_ub, set_accuracy, set_exp, set_unr, set_uc, set_unc, set_lnr, set_lc, set_lnc,
  initialize_sel,
}
use idic.Sensor.Reading.{get_reading_factor}

-- `d[name] = x` for the two kinds of key.
unfoldable pub put_name : Text → ℕ → List (Text × ℕ) → List (Text × ℕ)
unfolding text_eq
put_name k a [] = (k, a) ∷ []
put_name k a ((j, b) ∷ d) = if text_eq j k then (k, a) ∷ d else (j, b) ∷ put_name k a d

unfoldable pub same_key : ℕ × ℕ → ℕ × ℕ → Bool
same_key (i, m) (j, n) = i == j && m == n

unfoldable pub put_id : ℕ × ℕ → ℕ → List ((ℕ × ℕ) × ℕ) → List ((ℕ × ℕ) × ℕ)
unfolding same_key
put_id k a [] = (k, a) ∷ []
put_id k a ((j, b) ∷ d) = if same_key j k then (k, a) ∷ d else (j, b) ∷ put_id k a d

unfoldable pub find_id : ℕ × ℕ → List ((ℕ × ℕ) × ℕ) → Option ℕ
unfolding same_key
find_id k [] = none
find_id k ((j, a) ∷ d) = if same_key j k then some a else find_id k d

-- The new object's address is the size of the heap.
unfoldable pub build_sensors : Text → ℕ → ℕ → Value → ℕ → Exec ℕ
unfolding put_name put_id
build_sensors name ID mc value tp w =
    let a = length w.heap in
    pure a (record w {
      heap = w.heap ++ new_sensor name ID value tp ∷ [];
      sensor_list = w.sensor_list ++ a ∷ [];
      sensor_name_list = w.sensor_name_list ++ name ∷ [];
      sensor_id_list = w.sensor_id_list ++ ID ∷ [];
      sensor_name_map = put_name name a w.sensor_name_map;
      sensor_id_map = put_id (ID, mc) a w.sensor_id_map;
    })

unfoldable pub dump_all_sdrs : Text → Exec Done
dump_all_sdrs file_name = do
  send_ipmitool_command (codes "sdr" ∷ codes "dump" ∷ file_name ∷ [])
  pure tt

-- `parts[i]`
abbrev part : List Text → ℕ → Exec Text
part parts i = lift (or_raise index_error (get_elem? parts i))

unfoldable pub read_value : EventKind → Text → Exec Value
read_value threshold result = do
  value ← part (words result) 0
  n ← lift (or_raise value_error (int_of_text 16 value))
  pure (number n)
read_value discrete result = do
  low ← part (words result) 2
  high ← part (words result) 3
  pure (text (codes "0x" ++ low ++ high))
read_value na result = pure absent

-- A call that fails reads as the int 0, whatever the kind.
unfoldable pub read_sensor_raw_value : ℕ → EventKind → Exec Value
unfolding read_value
read_sensor_raw_value sensor_num event_type = do
  result ←
      send_ipmitool_command (codes "raw" ∷ codes "0x04" ∷ codes "0x2d" ∷ hex (pos sensor_num) ∷ [])
  elim result [ none ↦ pure (number (pos 0)) | some out ↦ read_value event_type out ]

unfoldable pub initial_value : ℕ → ℕ → Exec Value
unfolding read_sensor_raw_value
initial_value sensor_num event_type = elim (kind_of event_type) [
  | na ↦ pure absent
  | threshold ↦ read_sensor_raw_value sensor_num threshold
  | discrete ↦ read_sensor_raw_value sensor_num discrete
]

-- `fd.seek(i); ord(fd.read(1))`: behind the end `ord('')` is a TypeError.
abbrev pub byte_at : List ℕ → ℕ → Exec ℕ
byte_at file i = lift (or_raise type_error (get_elem? file i))

unfoldable pub read_name : List ℕ → ℕ → ℕ → Exec Text
read_name file i zero = pure []
read_name file i (suc n) = do c ← byte_at file i; rest ← read_name file (i + 1) n; pure (c ∷ rest)

-- A setter applied to a byte of the file.
unfoldable pub set_byte : ℕ → (ℕ → Sensor → Sensor) → List ℕ → ℕ → Exec Done
set_byte a setter file i = do x ← byte_at file i; s ← object a; store a (setter x s)

-- The part of a record of type 1 or 2 that precedes its name.
pub record Fields : Type 0 where
  pub mc : ℕ
  pub lun : ℕ
  pub num : ℕ
  pub cap : ℕ
  pub tp : ℕ
  pub event_type : ℕ
  pub value : Value
  pub ltm_lb : ℕ
  pub ltm_ub : ℕ
  pub utm_lb : ℕ
  pub utm_ub : ℕ
  pub rtm : ℕ
  pub stm : ℕ
  pub su1 : ℕ
  pub su2 : ℕ

unfoldable pub read_fields : List ℕ → ℕ → Exec Fields
unfolding initial_value
read_fields file offset = do
  mc ← byte_at file (offset + 5)
  lun ← byte_at file (offset + 6)
  sensor_num ← byte_at file (offset + 7)
  sensor_cap ← byte_at file (offset + 11)
  sensor_type ← byte_at file (offset + 12)
  event_type ← byte_at file (offset + 13)
  sensor_value ← initial_value sensor_num event_type
  sensor_ltm_lb ← byte_at file (offset + 14)
  sensor_ltm_ub ← byte_at file (offset + 15)
  sensor_utm_lb ← byte_at file (offset + 16)
  sensor_utm_ub ← byte_at file (offset + 17)
  sensor_rtm ← byte_at file (offset + 18)
  sensor_stm ← byte_at file (offset + 19)
  sensor_su1 ← byte_at file (offset + 20)
  sensor_su2 ← byte_at file (offset + 21)
  pure (record {
    mc = mc;
    lun = lun;
    num = sensor_num;
    cap = sensor_cap;
    tp = sensor_type;
    event_type = event_type;
    value = sensor_value;
    ltm_lb = sensor_ltm_lb;
    ltm_ub = sensor_ltm_ub;
    utm_lb = sensor_utm_lb;
    utm_ub = sensor_utm_ub;
    rtm = sensor_rtm;
    stm = sensor_stm;
    su1 = sensor_su1;
    su2 = sensor_su2;
  })

-- The name behind `start` bytes, and the object.
unfoldable pub build_named : List ℕ → ℕ → ℕ → ℕ → Fields → Exec ℕ
unfolding read_name build_sensors
build_named file offset record_length start f = do
  name ← read_name file (offset + start) (5 + record_length - start)
  build_sensors name f.num f.mc f.value f.tp

-- The factors and thresholds of a full sensor record.
unfoldable pub read_full : List ℕ → ℕ → ℕ → Exec Done
unfolding set_byte get_reading_factor
read_full file offset a = do
  sensor_m_lb ← byte_at file (offset + 24)
  sensor_m_ub ← byte_at file (offset + 25)
  sensor_b_lb ← byte_at file (offset + 26)
  sensor_b_ub ← byte_at file (offset + 27)
  sensor_acc ← byte_at file (offset + 28)
  sensor_exp ← byte_at file (offset + 29)
  s ← object a
  store a (
      set_exp sensor_exp (
        set_accuracy sensor_acc (
          set_b_ub sensor_b_ub
            (set_b_lb sensor_b_lb (set_m_ub sensor_m_ub (set_m_lb sensor_m_lb s))))))
  set_byte a set_unr file (offset + 36)
  set_byte a set_uc file (offset + 37)
  set_byte a set_unc file (offset + 38)
  set_byte a set_lnr file (offset + 39)
  set_byte a set_lc file (offset + 40)
  set_byte a set_lnc file (offset + 41)
  filled ← object a
  get_reading_factor filled
  pure tt

abbrev set_fields : Fields → Sensor → Sensor
set_fields f s = set_event_type f.event_type (
    set_cap f.cap (
      set_su2 f.su2 (
        set_su1 f.su1 (
          set_rtm f.rtm (
            set_stm f.stm (
              set_utm_ub f.utm_ub (
                set_utm_lb f.utm_lb
                  (set_ltm_ub f.ltm_ub (set_ltm_lb f.ltm_lb (set_lun f.lun (set_mc f.mc s)))))))))))

-- The tail of the loop's body, for both record types.
unfoldable pub finish_sensor : Fields → ℕ → Exec Done
unfolding initialize_sel
finish_sensor f a = do
  s ← object a
  let filled = set_fields f s
  store a filled
  ready ← initialize_sel filled
  store a ready

unfoldable pub parse_sensor : List ℕ → ℕ → ℕ → ℕ → Exec Done
unfolding read_fields build_named read_full finish_sensor
parse_sensor file offset record_type record_length = do
  f ← read_fields file offset
  if record_type == 0x1
      then (do
        a ← build_named file offset record_length 48 f
        read_full file offset a
        finish_sensor f a)
      else do a ← build_named file offset record_length 32 f; finish_sensor f a

-- One record, and the offset of the next.
unfoldable pub parse_record : List ℕ → ℕ → Exec ℕ
unfolding parse_sensor
parse_record file offset = do
  record_type ← byte_at file (offset + 3)
  record_length ← byte_at file (offset + 4)
  if not (record_type == 0x1) && not (record_type == 0x2)
      then pure (offset + (5 + record_length))
      else do parse_sensor file offset record_type record_length; pure (offset + record_length + 5)

-- `while offset < file_size`; false is a loop that ran out of fuel.
unfoldable pub parse_from : ℕ → List ℕ → ℕ → Exec Bool
unfolding parse_record
parse_from zero file offset = pure false
parse_from (suc fuel) file offset =
    if ltb offset (length file)
    then (parse_record file offset >>= parse_from fuel file)
    else pure true

-- `dumped` is the file that the dump leaves, if it leaves one.
unfoldable pub parse_sdrs : Option (List ℕ) → Exec Bool
unfolding dump_all_sdrs parse_from
parse_sdrs dumped = do
  dump_all_sdrs (codes "sdr.bin")
  elim dumped [ none ↦ raise system_exit | some file ↦ parse_from (length file + 1) file 0 ]
