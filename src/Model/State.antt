-- ===== src/Model/State.antt =====
-- What lies outside the program, and the state of the process: the objects, the module variables
-- of common.py and sdr.py, and the history of the command handler.
use idic.Prelude.{ℕ, Option, List, ◌⊎◌}
use idic.Prelude.Int.{ℤ}
use idic.Text.{Text}
use idic.Model.Sensors.{Sensor}

-- The exceptions that the code can raise.
pub data Error : Type 0 where
  value_error type_error attribute_error key_error index_error : Error
  unbound_local zero_division overflow_error system_exit : Error

-- A telnet session with the IPMI simulator: `open` fails, `read_some` fails after the command was
-- written, or an answer is read.
pub data Session : Type 0 where
  refused dropped : Session
  answered : Text → Session

-- An IEEE double, by its bit pattern.
abbrev pub Double : Type 0
Double = ℕ

-- Third parties: the simulator behind telnet, the program ipmitool (stdout and stderr of a call),
-- Python's random generator, the order in which a dict is listed, and double arithmetic.
-- The first number of an oracle counts the earlier calls.
pub record Outside : Type 0 where
  pub telnet : ℕ → Text → Session
  pub ipmitool : ℕ → List Text → Text × Text
  -- `random.randint(a, b)` for a <= b.
  pub draw : ℕ → ℤ → ℤ → ℤ
  pub dict_order : List ((ℕ × ℕ) × ℕ) → List ((ℕ × ℕ) × ℕ)
  -- `float(s)`, `float(n)`, `10 ** n` of a negative n, and `int(x)`, which infinities and NaN refuse.
  pub parse_double : Text → Option Double
  pub double_of : ℤ → Double
  pub power_of_ten : ℤ → Double
  pub mul_double : Double → Double → Double
  pub sub_double : Double → Double → Double
  pub div_double : Double → Double → Double
  pub truncate : Double → ℤ ⊎ Error
  -- `"%.3f" % x`.
  pub three_places : Double → Text

-- Objects are addresses in `heap`: the lists and maps of sdr.py share them.
pub record World : Type 0 where
  pub outside : Outside
  pub heap : List Sensor
  pub sensor_list : List ℕ
  pub sensor_name_list : List Text
  pub sensor_id_list : List ℕ
  pub sensor_name_map : List (Text × ℕ)
  pub sensor_id_map : List ((ℕ × ℕ) × ℕ)
  pub msg_queue : List Text
  pub error_log : List Text
  pub sent : List Text
  pub sessions : ℕ
  pub tool_calls : ℕ
  -- `random.randint(a, b)` for a <= b.
  pub draws : ℕ
  -- the sensors whose condition was notified, in order
  pub notified : List ℕ
  pub command_history : List Text
