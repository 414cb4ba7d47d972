-- ===== src/Command/Lookup.antt =====
-- `get_sensor_instance` and the listing of sensors (vcompute/common/scripts/ipmi_sim/command.py).
pub mod Found
use idic.Prelude.{ℕ, Option, none, some, List, [], ◌∷◌, ◌++◌}
use idic.Prelude.Int.{ℤ, pos, negsuc}
use idic.Text.{Text, codes, int_of_text}
use idic.Model.{Exec, Done, pure, gets, object, put_message, ◌>>=◌, ◌>>◌, World}
use idic.Common.{log_error}
use idic.Sensor.Reading.{output_info}
use idic.Sdr.{find_id}

-- A negative number is no key.
abbrev find_sensor : ℤ → ℕ → World → Option ℕ
find_sensor (pos n) mc w = find_id (n, mc) w.sensor_id_map
find_sensor (negsuc n) mc w = none

unfoldable pub found_or_told : Text → Option ℕ → Exec (Option ℕ)
found_or_told str_num none = do
  put_message (codes "sensor: " ++ str_num ++ codes " not exist\n")
  pure none
found_or_told str_num (some a) = pure (some a)

unfoldable pub look_up : Text → Option ℤ → Exec (Option ℕ)
unfolding found_or_told
look_up str_num none = do log_error (codes "illegal sensor id " ++ str_num); pure none
look_up str_num (some sensor_id) = do
  found ← gets (find_sensor sensor_id 0x20)
  found_or_told str_num found

unfoldable pub get_sensor_instance : Text → Exec (Option ℕ)
unfolding look_up
get_sensor_instance str_num = look_up str_num (int_of_text 16 str_num)

-- The line of one sensor.
unfoldable pub put_info : ℕ → Exec Done
put_info a = do s ← object a; info ← output_info s; put_message (info ++ codes "\n")

unfoldable pub output_sensors : List Text → Exec Done
unfolding get_sensor_instance put_info
output_sensors [] = pure tt
output_sensors (str_num ∷ rest) = do
  found ← get_sensor_instance str_num
  elim found [ none ↦ pure tt | some a ↦ (do put_info a; output_sensors rest) ]

unfoldable pub put_infos : List ((ℕ × ℕ) × ℕ) → Exec Done
unfolding put_info
put_infos [] = pure tt
put_infos ((k, a) ∷ rest) = do put_info a; put_infos rest

unfoldable pub dump_all_sensor_info : Exec Done
unfolding put_infos
dump_all_sensor_info = do items ← gets (λ w. w.outside.dict_order w.sensor_id_map); put_infos items

unfoldable pub dump_sensor_info : List Text → Exec Done
unfolding dump_all_sensor_info output_sensors
dump_sensor_info [] = do dump_all_sensor_info; output_sensors []
dump_sensor_info (t ∷ ts) = output_sensors (t ∷ ts)
