-- ===== src/Model/Sensors.antt =====
-- The attributes of `class Sensor` (sensor.py). `none` is an attribute that `__init__` does not
-- set; reading it before a setter has run raises AttributeError.
use idic.Prelude.{ℕ, Bool, false, Option, none}
use idic.Prelude.Int.{ℤ}
use idic.Text.{Text}
use idic.Model.Sels.{Sel, new_sel}

-- The three strings that `mode` holds, and the six that `fault_level` holds.
pub data Mode : Type 0 where
  user auto fault : Mode

pub data FaultLevel : Type 0 where
  lnr lc lnc unc uc unr : FaultLevel

-- `value` is None, an int (threshold) or a str of four hex digits behind 0x (discrete).
pub data Value : Type 0 where
  absent : Value
  number : ℤ → Value
  text : Text → Value

pub record Sensor : Type 0 where
  pub name : Text
  pub id : ℕ
  pub tp : ℕ
  pub mode : Mode
  pub value : Value
  pub quit : Bool
  pub lnr : ℕ
  pub lnc : ℕ
  pub lc : ℕ
  pub unc : ℕ
  pub uc : ℕ
  pub unr : ℕ
  pub sel : Sel
  pub fault_level : Option FaultLevel
  pub mc : Option ℕ
  pub lun : Option ℕ
  pub event_type : Option ℕ
  pub cap : Option ℕ
  pub ltm_lb : Option ℕ
  pub ltm_ub : Option ℕ
  pub utm_lb : Option ℕ
  pub utm_ub : Option ℕ
  pub su1 : Option ℕ
  pub su2 : Option ℕ
  pub m_lb : Option ℕ
  pub m_ub : Option ℕ
  pub b_lb : Option ℕ
  pub b_ub : Option ℕ
  pub accuracy : Option ℕ
  pub exp : Option ℕ
  pub stm : Option ℕ
  pub rtm : Option ℕ

-- `Sensor.__init__`. The locks and conditions are in idic.Threads.
abbrev pub new_sensor : Text → ℕ → Value → ℕ → Sensor
new_sensor name ID value tp = record {
  name = name;
  id = ID;
  tp = tp;
  mode = Mode.user;
  value = value;
  quit = false;
  lnr = 0;
  lnc = 0;
  lc = 0;
  unc = 0;
  uc = 0;
  unr = 0;
  sel = new_sel;
  fault_level = none;
  mc = none;
  lun = none;
  event_type = none;
  cap = none;
  ltm_lb = none;
  ltm_ub = none;
  utm_lb = none;
  utm_ub = none;
  su1 = none;
  su2 = none;
  m_lb = none;
  m_ub = none;
  b_lb = none;
  b_ub = none;
  accuracy = none;
  exp = none;
  stm = none;
  rtm = none;
}
