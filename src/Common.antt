-- ===== src/Common.antt =====
-- vcompute/common/scripts/ipmi_sim/common.py: the logger, the telnet session with the simulator
-- and the calls of ipmitool. `init_logger` sets the level ERROR before anything else runs, so
-- `logger.info` writes nothing. The lock makes each of the two senders one step.
pub mod Sending
pub mod Entries
use idic.Prelude.{
  ℕ, ◌+◌, Bool, true, false, ◌||◌, Option, none, some, List, [], ◌∷◌, ◌++◌, ◌==◌, if◌then◌else◌,
}
use idic.Prelude.Int.{ℤ}
use idic.Text.{Text, codes, text_eq, starts_with, int_of_text}
use idic.Model.{
  World, Session, refused, dropped, answered, Exec, Done, pure, modify, gets, ◌>>=◌, ◌>>◌, Outside,
}

-- `logger.error(text)` and `logger.exception(text)`.
abbrev pub log_error : Text → Exec Done
log_error t = modify (λ w. record w { error_log = w.error_log ++ t ∷ [] })

-- `s.lstrip('0x')`: every leading 0 and x goes.
unfoldable pub lstrip_0x : Text → Text
lstrip_0x [] = []
lstrip_0x (c ∷ s) = let rest = lstrip_0x s in if c == b'0' || c == b'x' then rest else c ∷ s

unfoldable pub stripped_entry : Text → Text
unfolding lstrip_0x
stripped_entry str_num = if starts_with str_num (codes "0x") then lstrip_0x str_num else str_num

-- The result of `int`, or the log entry of its exception.
unfoldable pub checked_entry : Option ℤ → Exec (Option ℤ)
checked_entry none = do log_error (codes "Not a valid entry - need a hex value"); pure none
checked_entry (some n) = pure (some n)

unfoldable pub str_hex_to_int : Text → Exec (Option ℤ)
unfolding stripped_entry checked_entry
str_hex_to_int str_num = checked_entry (int_of_text 16 (stripped_entry str_num))

unfoldable pub unable_to_connect : Text
unable_to_connect = codes "Unable to connect lanserv at 9000"

-- What a session leaves behind: the command, if it was written, and the answer or an error entry.
unfoldable pub after_session : Text → Session → World → Text × World
after_session command refused w =
    ([], record w { error_log = w.error_log ++ unable_to_connect ∷ [] })
after_session command dropped w = (
  [],
  record w { sent = w.sent ++ command ∷ []; error_log = w.error_log ++ unable_to_connect ∷ [] },
)
after_session command (answered reply) w = (reply, record w { sent = w.sent ++ command ∷ [] })

unfoldable pub send_ipmi_sim_command : Text → Exec Text
unfolding after_session
send_ipmi_sim_command command w =
    let (reply, w') = after_session command (w.outside.telnet w.sessions command) w in
    pure reply (record w' { sessions = w.sessions + 1 })

-- The command line that precedes the arguments.
unfoldable pub ipmitool_prefix : List Text
ipmitool_prefix =
    codes "/bin/ipmitool"
    ∷ codes "-I"
    ∷ codes "lan"
    ∷ codes "-H"
    ∷ codes "localhost"
    ∷ codes "-U"
    ∷ codes "admin"
    ∷ codes "-P"
    ∷ codes "admin"
    ∷ []

-- `none` is the -1 of a call that wrote to stderr.
unfoldable pub send_ipmitool_command : List Text → Exec (Option Text)
unfolding text_eq
send_ipmitool_command cmds w =
    let (stdout, stderr) = w.outside.ipmitool w.tool_calls (ipmitool_prefix ++ cmds) in
    let w' = record w { tool_calls = w.tool_calls + 1 } in
    if text_eq stderr []
    then pure (some stdout) w'
    else pure none
        (record w' { error_log = w.error_log ++ codes "failed to send ipmitool command" ∷ [] })
