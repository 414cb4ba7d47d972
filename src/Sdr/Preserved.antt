-- ===== src/Sdr/Preserved.antt =====
-- Every part of `parse_sdrs` (sdr.py) preserves the registry of the sensors.
use idic.Prelude.{
  ℕ, zero, suc, ◌+◌, ◌≡◌, refl, sym, Bool, true, false, Option, none, some, List, arith, ap, ◌∙◌,
  ltb, length, get_elem?, length-set,
}
use idic.Text.{Text, codes}
use idic.Model.{World, Sensor, Exec, raise, system_exit, store}
use idic.Model.Outcomes.{
  Preserves, Preserves-pure, Preserves-lift, Preserves-object, Preserves-bind, Preserves-if,
}
use idic.Common.{send_ipmitool_command}
use idic.Sdr.{
  find_id, dump_all_sdrs, byte_at, set_byte, Fields, read_fields, build_named, read_full,
  finish_sensor, parse_sensor, parse_record, parse_from, parse_sdrs,
}
use idic.Sdr.Reads.{
  kept_read_name, kept_reading_factor, kept_initialize_sel, kept_dump, kept_read_fields,
}
use idic.Sdr.Registry.{IsRegistered, build_sensors-IsRegistered}

-- The registry reads the objects only for their number.
pub same_registry :
    (v w : World)
    → length v.heap ≡ length w.heap
    → v.sensor_list ≡ w.sensor_list
    → v.sensor_name_list ≡ w.sensor_name_list
    → v.sensor_id_list ≡ w.sensor_id_list
    → v.sensor_id_map ≡ w.sensor_id_map
    → IsRegistered w
    → IsRegistered v
same_registry v w heap list name_list id_list id_map r = record {
  objects = cc;
  names = cc;
  ids = cc;
  listed = λ i a e. r.listed i a (ap (λ l. get_elem? l i) (sym list) ∙ e);
  mapped = λ k a e. omega (arith, heap, r.mapped k a (ap (find_id k) (sym id_map) ∙ e));
}

abbrev Registered : {A : Type 0} → Exec A → Type 0
Registered m = Preserves IsRegistered m

Preserves-store : (a : ℕ) (s : Sensor) → Registered (store a s)
Preserves-store a s = record {
  at = λ w. same_registry (store a s w).1 w (length-set w.heap a s) refl refl refl refl;
}

Preserves-send_ipmitool_command : (cmds : List Text) → Registered (send_ipmitool_command cmds)
unfolding send_ipmitool_command
Preserves-send_ipmitool_command cmds = record {
  at = λ w.
      same_registry (send_ipmitool_command cmds w).1 w (ground arith) (ground arith) (ground arith)
        (ground arith) (ground arith);
}

Preserves-byte_at : (file : List ℕ) (i : ℕ) → Registered (byte_at file i)
Preserves-byte_at file i = Preserves-lift _ _

Preserves-set_byte :
    (a : ℕ) (f : ℕ → Sensor → Sensor) (file : List ℕ) (i : ℕ) → Registered (set_byte a f file i)
unfolding set_byte
Preserves-set_byte a f file i =
    search (Preserves-bind, Preserves-byte_at, Preserves-object, Preserves-store)

Preserves-read_fields : (file : List ℕ) (offset : ℕ) → Registered (read_fields file offset)
Preserves-read_fields = kept_read_fields IsRegistered Preserves-send_ipmitool_command

Preserves-build_named :
    (file : List ℕ) (offset record_length start : ℕ) (f : Fields)
    → Registered (build_named file offset record_length start f)
unfolding build_named
Preserves-build_named file offset record_length start f =
    search (Preserves-bind, kept_read_name, build_sensors-IsRegistered)

Preserves-read_full : (file : List ℕ) (offset a : ℕ) → Registered (read_full file offset a)
unfolding read_full
Preserves-read_full file offset a =
    search
      (
        Preserves-bind, Preserves-byte_at, Preserves-object, Preserves-store, Preserves-set_byte,
        kept_reading_factor, Preserves-pure,
      )
      depth 30

Preserves-finish_sensor : (f : Fields) (a : ℕ) → Registered (finish_sensor f a)
unfolding finish_sensor
Preserves-finish_sensor f a =
    search (Preserves-bind, Preserves-object, Preserves-store, kept_initialize_sel)

Preserves-parse_sensor :
    (file : List ℕ) (offset t l : ℕ) → Registered (parse_sensor file offset t l)
unfolding parse_sensor
Preserves-parse_sensor file offset t l = search (
  Preserves-bind, Preserves-if, Preserves-read_fields, Preserves-build_named, Preserves-read_full,
  Preserves-finish_sensor,
)

Preserves-parse_record : (file : List ℕ) (offset : ℕ) → Registered (parse_record file offset)
unfolding parse_record
Preserves-parse_record file offset =
    search (Preserves-bind, Preserves-if, Preserves-byte_at, Preserves-parse_sensor, Preserves-pure)

Preserves-parse_from :
    (fuel : ℕ) (file : List ℕ) (offset : ℕ) → Registered (parse_from fuel file offset)
unfolding parse_from
Preserves-parse_from zero file offset = Preserves-pure IsRegistered false
Preserves-parse_from (suc fuel) file offset =
    Preserves-if IsRegistered (ltb offset (length file)) _ _
      (Preserves-bind IsRegistered (parse_record file offset) (parse_from fuel file)
        (Preserves-parse_record file offset) (Preserves-parse_from fuel file))
      (Preserves-pure IsRegistered true)

-- Parsing the dump keeps the registry, also where it raises in the middle of a record: there is one
-- object for each entry of the three lists, the list of sensors names them in the order in which
-- they were built, and every address in the map of ids is that of an object.
pub parse_sdrs-IsRegistered :
    (dumped : Option (List ℕ)) (w : World) → IsRegistered w → IsRegistered (parse_sdrs dumped w).1
unfolding parse_sdrs
parse_sdrs-IsRegistered dumped =
    (Preserves-bind IsRegistered (dump_all_sdrs (codes "sdr.bin")) _
      (kept_dump IsRegistered Preserves-send_ipmitool_command _) (λ d. rest dumped)).at
  where
    rest :
        (dumped : Option (List ℕ))
        → Registered (elim dumped [
          | none ↦ raise {A = Bool} system_exit
          | some file ↦ parse_from (length file + 1) file 0
        ])
    rest none = record { at = λ w r. r }
    rest (some file) = Preserves-parse_from (length file + 1) file 0
