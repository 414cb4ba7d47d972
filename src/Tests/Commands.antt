-- ===== src/Tests/Commands.antt =====
-- The theorems on commands and sessions.
use idic.Prelude.{◌≡◌, refl, List, [], ◌∷◌, ◌++◌, arith, none, some, ap, length}
use idic.Prelude.Int.{pos}
use idic.Text.{Text, codes}
use idic.Model.{ok, err, attribute_error, World, unbound_local}
use idic.Common.{str_hex_to_int}
use idic.Common.Entries.{str_hex_to_int_zero}
use idic.Command.Docs.{handle_help_doc}
use idic.Command.Handle.{handle_command}
use idic.Command.History.{remember_all, last_30, remember_all-last_30}
use idic.Command.SelCommands.{set_oem_sel, parse_hex_list}
use idic.Command.Refusals.{set_oem_sel_raises}
use idic.Ssh.Quit.{session-Quits}
use idic.Ssh.{is_quit, line, session, answer, response_lines, response_of}
use idic.Ssh.Responses.{Answered, answer-Answered, stale_messages}
use idic.Tests.Fixture.{world, door}

answer-Answered_example :
    Answered (handle_command (codes "help") world) (answer (codes "help") world)
answer-Answered_example = answer-Answered (codes "help") world

remember_all-last_30_example :
    remember_all [] (codes "sel" ∷ codes "help" ∷ []) ≡ last_30 (codes "sel" ∷ codes "help" ∷ [])
remember_all-last_30_example = remember_all-last_30 (codes "sel" ∷ codes "help" ∷ [])

-- The record type 0xC0 and six times 1.
abbrev c0 : Text
c0 = b'C' ∷ b'0' ∷ []

abbrev ones : List Text
ones = (b'1' ∷ []) ∷ (b'1' ∷ []) ∷ (b'1' ∷ []) ∷ (b'1' ∷ []) ∷ (b'1' ∷ []) ∷ (b'1' ∷ []) ∷ []

set_oem_sel_raises_example : set_oem_sel (c0 ∷ ones) world ≡ (err attribute_error, world)
unfolding parse_hex_list idic.Text.int_of_text
set_oem_sel_raises_example =
    set_oem_sel_raises c0 0xC0 ones (pos 1 ∷ pos 1 ∷ pos 1 ∷ pos 1 ∷ pos 1 ∷ pos 1 ∷ []) world refl
      (omega arith) (omega arith) refl refl

-- `sensor info` shows the door, and raises at a sensor of the event type 0.
abbrev half_listed : World
half_listed = record world {
  heap = door ∷ record door { event_type = some 0 } ∷ [];
  sensor_id_map = ((0x43, 0x20), 0) ∷ ((0x44, 0x20), 1) ∷ [];
}

info_raises :
    ((handle_command (codes "sensor info") half_listed).0 ≡ err unbound_local)
    × (length (handle_command (codes "sensor info") half_listed).1.msg_queue ≡ 1)
unfolding handle_command codes idic.Text.text_eq idic.Command.SensorCommands.handle_sensor_command
    idic.Sensor.Reading.output_info
info_raises = (refl, refl)

stale_messages_example :
    (answer (codes "help") (answer (codes "sensor info") half_listed).1).0
    ≡ response_lines (
        response_of (
          (handle_command (codes "sensor info") half_listed).1.msg_queue
          ++ (handle_help_doc ++ codes "\n") ∷ []))
stale_messages_example =
    stale_messages (codes "sensor info") half_listed
      (handle_command (codes "sensor info") half_listed).1 unbound_local
      (ap (λ e. (e, (handle_command (codes "sensor info") half_listed).1)) info_raises.0)

abbrev quit_line : Text
quit_line = b'q' ∷ b'u' ∷ b'i' ∷ b't' ∷ []

session-Quits_example :
    session (line (codes "help") ∷ line quit_line ∷ line (codes "history") ∷ []) world
    ≡ session (line (codes "help") ∷ line quit_line ∷ []) world
unfolding is_quit idic.Text.words idic.Text.text_eq idic.Text.upper codes
session-Quits_example =
    session-Quits (line (codes "help") ∷ []) quit_line (line (codes "history") ∷ []) world
      (record { cmd = quit_line; args = []; split = refl; ends = refl })

str_hex_to_int_zero_example : (str_hex_to_int (b'0' ∷ b'x' ∷ b'0' ∷ []) world).0 ≡ ok none
str_hex_to_int_zero_example = str_hex_to_int_zero 1 world
