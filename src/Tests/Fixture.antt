-- ===== src/Tests/Fixture.antt =====
-- A simulator that answers with an empty line, a generator that draws the lower end, and two sensors.
use idic.Prelude.{refl, arith, none, some, [], ◌∷◌, inl, arith}
use idic.Prelude.Int.{pos}
use idic.Text.{codes}
use idic.Model.{
  Sensor, new_sensor, new_sel, Mode, FaultLevel, number, text, Outside, answered, World,
}
use idic.Common.Sending.{IsAnswering}
use idic.Sensor.Drawing.Ranges.{IsFair, IsOrdered}

abbrev pub quiet : Outside
quiet = record {
  telnet = λ n c. answered [];
  ipmitool = λ n cmds. ([], []);
  draw = λ n low high. low;
  dict_order = λ d. d;
  parse_double = λ t. none;
  double_of = λ n. 0;
  power_of_ten = λ n. 0;
  mul_double = λ x y. 0;
  sub_double = λ x y. 0;
  div_double = λ x y. 0;
  truncate = λ x. inl (pos 0);
  three_places = λ x. [];
}

-- A threshold sensor with all six thresholds.
abbrev pub fan : Sensor
fan = record (new_sensor (codes "FAN") 0x42 (number (pos 50)) 0x04) {
  mc = some 0x20;
  lun = some 0;
  event_type = some 1;
  rtm = some 0x3F;
  su1 = some 0;
  mode = Mode.auto;
  fault_level = some FaultLevel.uc;
  lnr = 10;
  lc = 20;
  lnc = 30;
  unc = 70;
  uc = 80;
  unr = 90;
  m_lb = some 3;
  m_ub = some 0x40;
  b_lb = some 0xFF;
  b_ub = some 0xC0;
  exp = some 0xE1;
}

-- A discrete sensor of the sensor type 0x05 (physical security) whose state 0 is set.
abbrev pub door : Sensor
door =
    record (new_sensor (codes "DOOR") 0x43 (text (b'0' ∷ b'x' ∷ b'0' ∷ b'1' ∷ b'8' ∷ b'0' ∷ []))
      0x05) {
        mc = some 0x20;
        lun = some 0;
        event_type = some 0x6F;
        sel = record new_sel {
          sensor_type = pos 0x05;
          event_type = pos 0x6F;
          sensor_num = pos 0x43;
        };
      }

-- A discrete sensor of the sensor type 0x0A, which has no table of events.
abbrev pub unlisted : Sensor
unlisted = record door {
  sel = record new_sel { sensor_type = pos 0x0A; event_type = pos 0x6F; sensor_num = pos 0x43 };
}

abbrev pub world : World
world = record {
  outside = quiet;
  heap = fan ∷ door ∷ unlisted ∷ [];
  sensor_list = 0 ∷ 1 ∷ 2 ∷ [];
  sensor_name_list = [];
  sensor_id_list = [];
  sensor_name_map = [];
  sensor_id_map = [];
  msg_queue = [];
  error_log = [];
  sent = [];
  sessions = 0;
  tool_calls = 0;
  draws = 0;
  notified = [];
  command_history = [];
}

abbrev pub quiet-IsAnswering : IsAnswering quiet
quiet-IsAnswering = record { reply = λ n c. []; at = λ n c. refl }

pub quiet-IsFair : IsFair quiet
quiet-IsFair = record { at = λ n low high le. (ground arith, le) }

pub fan-IsOrdered : IsOrdered fan
fan-IsOrdered = record {
  lnr_lc = omega arith;
  lc_lnc = omega arith;
  unc_uc = omega arith;
  uc_unr = omega arith;
}
