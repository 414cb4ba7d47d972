-- ===== src/Tests/Readings.antt =====
-- From a dump to a reading.
use idic.Prelude.{
  ℕ, zero, suc, ◌≡◌, refl, Bool, true, some, List, [], ◌∷◌, ◌&&◌, leb, get_elem?, arith, inl,
}
use idic.Prelude.Int.{pos, negsuc, ◌≤ℤ◌}
use idic.Text.{codes}
use idic.Model.{Sensor, World, new_sensor, new_sel, number, Mode}
use idic.Sdr.{parse_sdrs}
use idic.Sdr.Bytes.{IsByteFile}
use idic.Ssh.{Input, line, session}
use idic.Ssh.Readings.{session-readings_bounds}
use idic.Tests.Fixture.{world, quiet, quiet-IsFair}

all_bytes : List ℕ → Bool
all_bytes [] = true
all_bytes (x ∷ rest) = leb x 255 && all_bytes rest

-- A full record of the sensor 0x43, named B, with six thresholds.
abbrev full_record : List ℕ
full_record =
    0 ∷ 0 ∷ 0x51 ∷ 1 ∷ 44 ∷ 0x20 ∷ 0 ∷ 0x43 ∷ 0 ∷ 0 ∷ 0 ∷ 0 ∷ 4 ∷ 1 ∷ 0 ∷ 0 ∷ 0 ∷ 0 ∷ 0x3F ∷ 0 ∷ 0
    ∷ 1 ∷ 0 ∷ 0 ∷ 1 ∷ 0 ∷ 0 ∷ 0 ∷ 0 ∷ 0 ∷ 0 ∷ 0 ∷ 0 ∷ 0 ∷ 0 ∷ 0 ∷ 200 ∷ 180 ∷ 160 ∷ 10 ∷ 20 ∷ 30 ∷ 0
    ∷ 0 ∷ 0 ∷ 0 ∷ 0 ∷ 0 ∷ 66 ∷ []

-- ipmitool answers with the byte 0x64.
abbrev blank : World
blank = record world {
  heap = [];
  sensor_list = [];
  outside = record quiet { ipmitool = λ calls cmds. (codes "64", []) };
}

abbrev mode_command : List Input
mode_command = line (codes "sensor mode set 0x43 auto") ∷ line (codes "quit") ∷ []

-- The sensor behind the session.
abbrev auto_sensor : Sensor
auto_sensor = record (new_sensor (codes "B") 0x43 (number (pos 0x64)) 4) {
  mode = Mode.auto;
  lnr = 10;
  lnc = 30;
  lc = 20;
  unc = 160;
  uc = 180;
  unr = 200;
  sel = record new_sel {
    mc = pos 0x20;
    gid_1 = pos 0x20;
    gid_2 = pos 0;
    sensor_type = pos 4;
    sensor_num = pos 0x43;
    event_type = pos 1;
  };
  mc = some 0x20;
  lun = some 0;
  event_type = some 1;
  cap = some 0;
  ltm_lb = some 0;
  ltm_ub = some 0;
  utm_lb = some 0;
  utm_ub = some 0;
  su1 = some 0;
  su2 = some 1;
  m_lb = some 1;
  m_ub = some 0;
  b_lb = some 0;
  b_ub = some 0;
  accuracy = some 0;
  exp = some 0;
  stm = some 0;
  rtm = some 0x3F;
}

bytes_of : (file : List ℕ) → all_bytes file ≡ true → IsByteFile file
unfolding all_bytes
bytes_of [] h i x e = absurd (cc)
bytes_of (y ∷ rest) h zero x e = ground arith
bytes_of (y ∷ rest) h (suc i) x e = bytes_of rest (ground arith) i x e

auto_sensor-after :
    get_elem? (session mode_command (parse_sdrs (some full_record) blank).1).1.heap 0
    ≡ some auto_sensor
unfolding parse_sdrs session idic.Common.send_ipmitool_command idic.Command.Handle.handle_command
    idic.Text.words codes idic.Text.upper idic.Command.SensorCommands.handle_sensor_command
    idic.Text.int_of_text idic.Sdr.find_id idic.Command.SensorCommands.parse_mode
auto_sensor-after = refl

session-readings_bounds_example : (negsuc 126 ≤ℤ pos 31) × (pos 31 ≤ℤ pos 255)
unfolding all_bytes idic.Sensor.Drawing.get_random_value idic.Sensor.Drawing.low_value
    idic.Sensor.Drawing.high_value idic.Sensor.Drawing.randint
session-readings_bounds_example =
    session-readings_bounds full_record mode_command blank world 0 auto_sensor (pos 31)
      (bytes_of full_record refl) (λ a s e. absurd (cc)) auto_sensor-after quiet-IsFair (inl refl)
