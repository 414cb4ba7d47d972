-- ===== src/Model/Sels.antt =====
-- The attributes of `class SEL` (sel.py). Python's integers are unbounded and signed, and the
-- command `sel set oem` stores whatever it has read.
use idic.Prelude.{ℕ}
use idic.Prelude.Int.{ℤ, pos}

pub record Sel : Type 0 where
  pub mc : ℤ
  pub record_id : ℤ
  pub record_type : ℤ
  pub ts_1 : ℤ
  pub ts_2 : ℤ
  pub ts_3 : ℤ
  pub ts_4 : ℤ
  pub gid_1 : ℤ
  pub gid_2 : ℤ
  pub evm_rev : ℤ
  pub sensor_type : ℤ
  pub sensor_num : ℤ
  pub event_dir : ℕ
  pub event_type : ℤ
  pub event_data_1 : ℤ
  pub event_data_2 : ℤ
  pub event_data_3 : ℤ
  pub min_event_id : ℤ
  pub max_event_id : ℤ

-- `SEL.__init__`.
abbrev pub new_sel : Sel
new_sel = record {
  mc = pos 0x20;
  record_id = pos 0;
  record_type = pos 0x02;
  ts_1 = pos 0;
  ts_2 = pos 0;
  ts_3 = pos 0;
  ts_4 = pos 0;
  gid_1 = pos 0;
  gid_2 = pos 0;
  evm_rev = pos 0x04;
  sensor_type = pos 0;
  sensor_num = pos 0;
  event_dir = 0;
  event_type = pos 0;
  event_data_1 = pos 0;
  event_data_2 = pos 0;
  event_data_3 = pos 0;
  min_event_id = pos 0;
  max_event_id = pos 0;
}
