-- ===== src/Sel/Entry.antt =====
-- An entry of `sensor_specific_event_map`: the three event data bytes and the description.
use idic.Prelude.{ℕ, String, List}

pub record SpecificEvent : Type 0 where
  pub data_1 : ℕ
  pub data_2 : ℕ
  pub data_3 : ℕ
  pub description : String

abbrev pub event : ℕ → ℕ → ℕ → String → SpecificEvent
event a b c d = record { data_1 = a; data_2 = b; data_3 = c; description = d }

abbrev pub SpecificEvents : Type 0
SpecificEvents = List (ℕ × SpecificEvent)
