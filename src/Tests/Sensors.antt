-- ===== src/Tests/Sensors.antt =====
-- The theorems on sensors.
use idic.Prelude.{
  ℕ, ◌≡◌, refl, some, List, [], ◌∷◌, map, set, arith, if◌then◌else◌, ltb, none, inl, ◌+◌, ◌==◌,
  length, ◌&&◌, not,
}
use idic.Prelude.Int.{◌-ℤ◌, pos, negsuc, ℤ}
use idic.Text.{Text, codes, int_of_text, slice, starts_with}
use idic.Model.{Sensor, ok, err, key_error, text, FaultLevel, value_error, number, Mode, World}
use idic.Sensor.Drawing.{get_random_value, get_fault_value, not_crossed}
use idic.Sensor.Drawing.Ranges.{
  IsNormal, InBand, get_random_value-IsNormal, get_fault_value-InBand, get_fault_value_missing,
}
use idic.Sensor.Reading.{get_reading_factor}
use idic.Sensor.Reading.Factors.{get_reading_factor_decodes}
use idic.Sensor.Execute.{round, waiting_5, testing}
use idic.Sensor.Execute.Auto.{round_auto}
use idic.Sensor.Execute.Fault.{round_fault_missing}
use idic.Command.UpperCase.{set_discrete_upper}
use idic.Command.SensorCommands.{set_discrete}
use idic.Sensor.Discrete.{value_line}
use idic.Sensor.Drawing.Normal.{get_random_value_lem}
use idic.Bits.Single.{bit}
use idic.Sensor.Discrete.Words.{lower_byte_first}
use idic.Sensor.Discrete.Differing.{writes_to, set_discrete_value_differing}
use idic.Sensor.Discrete.Written.{set_state_written}
use idic.Sensor.Discrete.State.{set_state_refuses}
use idic.Sensor.Discrete.{
  set_state, bit_line, bits_16, list_diff, set_discrete_value, is_discrete_text,
}
use idic.Sel.{set_event_dir, with_data, sel_add, sensor_specific_event_map}
use idic.Sel.Specific.{physical_security_events}
use idic.Sel.Entry.{event}
use idic.Sensor.Events.{set_sel, get_sel}
use idic.Sensor.Events.Outcomes.{Refused, set_sel-Refused}
use idic.Sensor.Events.Specific.{specific_events_raise}
use idic.Sensor.Events.Sent.{set_sel-sends, specific}
use idic.Tests.Fixture.{world, fan, door, unlisted, quiet-IsAnswering, quiet-IsFair, fan-IsOrdered}

get_random_value-IsNormal_example : IsNormal fan 0x3F (pos 31)
unfolding get_random_value idic.Sensor.Drawing.low_value idic.Sensor.Drawing.high_value
    idic.Sensor.Drawing.randint
get_random_value-IsNormal_example =
    get_random_value-IsNormal fan 0x3F (pos 31) world quiet-IsFair fan-IsOrdered refl refl

get_fault_value-InBand_example : InBand fan 0x3F FaultLevel.uc (pos 80)
unfolding get_fault_value idic.Sensor.Drawing.fault_range idic.Sensor.Drawing.draw_fault
    idic.Sensor.Drawing.randint
get_fault_value-InBand_example =
    get_fault_value-InBand fan 0x3F 0 FaultLevel.uc (pos 80) world quiet-IsFair refl refl refl refl

-- The fan without its threshold uc.
abbrev no_uc : Sensor
no_uc = record fan { rtm = some 0x0F }

get_fault_value_missing_example :
    get_fault_value no_uc world
    ≡ (ok none, record world { msg_queue = not_crossed no_uc FaultLevel.uc ∷ [] })
get_fault_value_missing_example =
    get_fault_value_missing no_uc 0x0F 0 FaultLevel.uc world refl refl refl refl

get_reading_factor_decodes_example :
    get_reading_factor fan world
    ≡ (ok (record { m = 259; b = negsuc 0; b_exponent = 1; r_exponent = negsuc 1 }), world)
get_reading_factor_decodes_example =
    get_reading_factor_decodes fan 0x40 3 0xC0 0xFF 0xE1 world refl refl refl refl refl
      (omega arith) (omega arith) (omega arith) (omega arith)

abbrev state_0 : Text
state_0 = b'0' ∷ b'x' ∷ b'0' ∷ b'1' ∷ b'8' ∷ b'0' ∷ []

-- Only the states 1 and 15.
abbrev state_1 : Text
state_1 = b'0' ∷ b'x' ∷ b'0' ∷ b'2' ∷ b'8' ∷ b'0' ∷ []

set_discrete_value_differing_example :
    (ds : List (ℕ × ℕ)) × (set_discrete_value 1 state_1 world ≡ (
      ok tt,
      record world {
        heap = set world.heap 1 (record door { value = text state_1 });
        sent = map (bit_line 0x20 0 0x43) ds;
        sessions = 0 + length ds;
      },
    ))
    × ((j : ℕ)
        → writes_to j ds
          ≡ (if ltb j 15 && not (bit j 0x8001 == bit j 0x8002) then bit j 0x8002 ∷ [] else []))
unfolding is_discrete_text int_of_text slice starts_with codes
set_discrete_value_differing_example =
    set_discrete_value_differing 1 state_1 state_0 door 0x20 0 0x6F 0x8001 0x8002 world
      quiet-IsAnswering refl refl refl refl refl refl refl refl refl (omega arith) (omega arith)

-- The two states.
abbrev diff : List (ℕ × ℕ)
diff = (0, 0) ∷ (1, 1) ∷ []

diff_sent : list_diff 15 0 (bits_16 (pos 0x8001)) (bits_16 (pos 0x8002)) ≡ diff
unfolding list_diff bits_16 idic.Text.zfill idic.Text.binary
diff_sent = refl

-- An intrusion into the drive bay: event id 1 of the sensor type 5.
set_sel-sends_example : set_sel 1 (pos 1) 1 world ≡ (
  ok none,
  record world {
    heap =
        set world.heap 1
          (record door { sel = set_event_dir 1 (with_data (pos 1) (pos 0) (pos 0) door.sel) });
    sent = sel_add (set_event_dir 1 (with_data (pos 1) (pos 0) (pos 0) door.sel)) ∷ [];
    sessions = 1;
  },
)
unfolding sensor_specific_event_map physical_security_events
set_sel-sends_example =
    set_sel-sends 1 door (pos 1) (pos 1) (pos 0) (pos 0) 1 world quiet-IsAnswering refl refl
      (specific physical_security_events (event 1 0 0 "Drive Bay intrusion") refl refl refl)

set_sel-Refused_example : Refused world (set_sel 1 (pos 9) 0 world).1
unfolding set_sel idic.Sel.check_event_type idic.Sel.check_sensor_type idic.Sel.set_event_data
    idic.Sel.sensor_specific_event_map
set_sel-Refused_example = set_sel-Refused 1 door (pos 9) 0 world refl refl

specific_events_raise_example :
    (get_sel 2 world ≡ (err key_error, world))
    × (set_sel 2 (pos 0) 1 world ≡ (err key_error, world))
specific_events_raise_example =
    specific_events_raise 2 unlisted 0x0A (pos 0) 1 world refl refl refl (omega arith) (omega arith)
      refl

get_random_value_lem_example :
    (v : ℤ) × (get_random_value fan world ≡ (ok v, record world { draws = 1 }))
unfolding ◌-ℤ◌
get_random_value_lem_example =
    get_random_value_lem fan 0x3F 0 (pos 50) world refl
      (record {
        above_lnr = λ h. omega arith;
        above_lc = λ h. omega arith;
        above_lnc = λ h. omega arith;
        below_unc = λ h. omega arith;
        below_uc = λ h. omega arith;
        below_unr = λ h. omega arith;
      })
      (omega arith, omega arith) refl

set_state_written_example :
    (m : ℕ) × ((j : ℕ) → bit j m ≡ (if 1 == j then 1 else bit j 0x8001))
    × (set_state 1 (pos 1) (pos 1) world ≡ (
      ok tt,
      record world {
        heap = set world.heap 1 (record door { value = text (lower_byte_first m) });
        sent = bit_line 0x20 0 0x43 (1, 1) ∷ [];
        sessions = 1;
      },
    ))
unfolding int_of_text slice
set_state_written_example =
    set_state_written 1 door state_0 0x20 0 0x6F 0x8001 1 1 world quiet-IsAnswering refl refl refl
      refl refl refl refl (omega arith) (omega arith) (omega arith)

set_state_refuses_example : set_state 1 (pos 15) (pos 1) world ≡ (err value_error, world)
set_state_refuses_example =
    set_state_refuses 1 door 0x6F world refl refl refl (pos 15) (pos 1) (inl refl)

round_auto_example :
    (v : ℤ) × IsNormal fan 0x3F v
    × (round 0 world ≡ (
      ok waiting_5,
      record world {
        heap = set world.heap 0 (record fan { value = number v });
        sent = value_line 0x20 0 0x42 v ∷ [];
        sessions = 1;
        draws = 1;
      },
    ))
unfolding ◌-ℤ◌
round_auto_example =
    round_auto 0 fan 0x20 0 0x3F 0 (pos 50) world quiet-IsAnswering quiet-IsFair refl refl refl refl
      refl refl fan-IsOrdered
      (record {
        above_lnr = λ h. omega arith;
        above_lc = λ h. omega arith;
        above_lnc = λ h. omega arith;
        below_unc = λ h. omega arith;
        below_uc = λ h. omega arith;
        below_unr = λ h. omega arith;
      })
      (omega arith, omega arith)

-- The fan without uc, in fault mode.
abbrev faulty : World
faulty = record world { heap = record no_uc { mode = Mode.fault } ∷ [] }

round_fault_missing_example : round 0 faulty ≡ (
  ok testing,
  record faulty {
    heap = record no_uc { mode = Mode.user } ∷ [];
    msg_queue = not_crossed no_uc FaultLevel.uc ∷ [];
  },
)
unfolding not_crossed
round_fault_missing_example =
    round_fault_missing 0 (record no_uc { mode = Mode.fault }) 0x0F 0 FaultLevel.uc faulty refl refl
      refl refl refl refl

set_discrete_upper_example :
    set_discrete 1 (b'0' ∷ b'X' ∷ b'0' ∷ b'2' ∷ b'8' ∷ b'0' ∷ []) world ≡ (err value_error, world)
unfolding int_of_text
set_discrete_upper_example =
    set_discrete_upper 1 (b'0' ∷ b'2' ∷ b'8' ∷ b'0' ∷ []) (pos 0x0280) door 0x6F world refl refl
      refl refl refl
