-- ===== src/Tests/Dumps.antt =====
-- The theorems on dumps and on the registry.
use mathlib.Core.Path.{subst}
use idic.Sdr.Values.{TwoDigits, PrintsBytes}
use idic.Sdr.Typed.{parse_sdrs-AllTyped}
use idic.Sensor.Typed.{AllTyped}
use idic.Prelude.{
  zero, suc, ℕ, ◌≡◌, ◌≢◌, false, refl, true, some, List, [], ◌∷◌, ◌++◌, arith, suc, length,
}
use idic.Prelude.Int.{pos}
use idic.Text.{Text, codes, hex, strip}
use idic.Model.{World, ok, absent}
use idic.Sdr.{find_id, parse_sdrs, build_sensors, same_key}
use idic.Sdr.Fuel.{parse_sdrs_ends}
use idic.Sdr.Registry.{IsRegistered}
use idic.Sdr.Preserved.{parse_sdrs-IsRegistered}
use idic.Command.Handle.{handle_command}
use idic.Command.Kept.{KeepsSensors, handle_command-KeepsSensors, history_after, words_of}
use idic.Command.Lookup.{get_sensor_instance}
use idic.Ssh.{Input, line, session}
use idic.Ssh.Found.{Build, build_all, session_finds_built}
use idic.Tests.Fixture.{quiet, world}

-- Before the dump is parsed.
abbrev blank : World
blank = record world { heap = []; sensor_list = [] }

no_key : (k : ℕ × ℕ) (a : ℕ) → find_id k [] ≢ some a
unfolding find_id
no_key k a = λ e. cc

blank-IsRegistered : IsRegistered blank
blank-IsRegistered = record {
  objects = refl;
  names = refl;
  ids = refl;
  listed = λ i a e. cc;
  mapped = λ k a e. absurd (no_key k a e);
}

-- A record of another type, and a compact one of the sensor 0x43, named A.
abbrev other_record : List ℕ
other_record = 0 ∷ 0 ∷ 0x51 ∷ 0xC0 ∷ 0 ∷ []

abbrev compact_record : List ℕ
compact_record =
    0 ∷ 0 ∷ 0x51 ∷ 2 ∷ 28 ∷ 0x20 ∷ 0 ∷ 0x43 ∷ 0 ∷ 0 ∷ 0 ∷ 0 ∷ 5 ∷ 0 ∷ 0 ∷ 0 ∷ 0 ∷ 0 ∷ 0 ∷ 0 ∷ 0 ∷ 0
    ∷ 0 ∷ 0 ∷ 0 ∷ 0 ∷ 0 ∷ 0 ∷ 0 ∷ 0 ∷ 0 ∷ 0 ∷ 65 ∷ []

abbrev dump : List ℕ
dump = other_record ++ compact_record

parse_sdrs_ends_example : (parse_sdrs (some dump) blank).0 ≢ ok false
parse_sdrs_ends_example = parse_sdrs_ends (some dump) blank

-- The dump is read to its end, and one sensor is built.
parse_dump : (parse_sdrs (some dump) blank).0 ≡ ok true
unfolding parse_sdrs idic.Common.send_ipmitool_command
parse_dump = refl

parse_sdrs-IsRegistered_example : IsRegistered (parse_sdrs (some dump) blank).1
parse_sdrs-IsRegistered_example = parse_sdrs-IsRegistered (some dump) blank blank-IsRegistered

handle_command-KeepsSensors_example :
    KeepsSensors blank (handle_command (codes "help") blank).1
    × ((handle_command (codes "help") blank).1.command_history
        ≡ history_after
            (strip (codes "help"))
            (words_of (strip (codes "help")))
            (handle_command (codes "help") blank).0
            [])
handle_command-KeepsSensors_example = handle_command-KeepsSensors (codes "help") blank

-- A sensor of the same number at another controller, and one of another number.
abbrev others : List Build
others =
    record { name = codes "B"; id = 0x43; mc = 0x22; value = absent; tp = 5 }
    ∷ record { name = codes "C"; id = 0x44; mc = 0x20; value = absent; tp = 5 }
    ∷ []

abbrev mode_line : List Input
mode_line = line (codes "sensor mode set 0x43 user") ∷ []

session_finds_built_example :
    get_sensor_instance
      (hex (pos 0x43))
      (session mode_line
        (build_all others (build_sensors (codes "A") 0x43 0x20 absent 5 blank).1)).1
    ≡ (
      ok (some 0),
      (session mode_line
          (build_all others (build_sensors (codes "A") 0x43 0x20 absent 5 blank).1)).1,
    )
unfolding same_key
session_finds_built_example =
    session_finds_built (codes "A") 0x43 absent 5 others mode_line blank (omega arith) refl

of_some : {x t : Text} → some x ≡ some t → length x ≡ 2 → length t ≡ 2
of_some {x} {t} e h = let same : x ≡ t = cc in subst (λ u. length u ≡ 2) same h

-- An ipmitool that answers every call with four bytes.
abbrev four_bytes : Text
four_bytes = b'0' ∷ b'0' ∷ b' ' ∷ b'c' ∷ b'0' ∷ b' ' ∷ b'0' ∷ b'1' ∷ b' ' ∷ b'8' ∷ b'0' ∷ []

four_bytes-TwoDigits : TwoDigits four_bytes
unfolding idic.Text.words
four_bytes-TwoDigits zero t e = of_some e refl
four_bytes-TwoDigits (suc zero) t e = of_some e refl
four_bytes-TwoDigits (suc (suc zero)) t e = of_some e refl
four_bytes-TwoDigits (suc (suc (suc zero))) t e = of_some e refl
four_bytes-TwoDigits (suc (suc (suc (suc i)))) t e = cc

abbrev ready : World
ready = record blank { outside = record quiet { ipmitool = λ calls cmds. (four_bytes, []) } }

ready-PrintsBytes : PrintsBytes ready.outside
ready-PrintsBytes = record { at = λ calls n. four_bytes-TwoDigits }

-- The compact record, for a discrete sensor.
abbrev discrete_record : List ℕ
discrete_record =
    0 ∷ 0 ∷ 0x51 ∷ 2 ∷ 28 ∷ 0x20 ∷ 0 ∷ 0x43 ∷ 0 ∷ 0 ∷ 0 ∷ 0 ∷ 5 ∷ 0x6F ∷ 0 ∷ 0 ∷ 0 ∷ 0 ∷ 0 ∷ 0 ∷ 0
    ∷ 0 ∷ 0 ∷ 0 ∷ 0 ∷ 0 ∷ 0 ∷ 0 ∷ 0 ∷ 0 ∷ 0 ∷ 0 ∷ 65 ∷ []

parse_sdrs-AllTyped_example : AllTyped (parse_sdrs (some discrete_record) ready).1
parse_sdrs-AllTyped_example =
    parse_sdrs-AllTyped (some discrete_record) ready ready-PrintsBytes (λ a s e. cc)
