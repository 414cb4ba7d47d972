-- ===== src/Ssh.antt =====
-- vcompute/common/scripts/ipmi_sim/sshsrv.py: the session loop of `SSHHandler`, with the strings of
-- `TestSSHHandler` (ipmi_sim.py). sshim reads a line for each prompt and writes what it is given.
pub mod Lines
pub mod Responses
pub mod Quit
pub mod Kept
pub mod Readings
pub mod Found
use idic.Prelude.{ℕ, Bool, true, false, ◌||◌, List, [], ◌∷◌, ◌++◌, map, if◌then◌else◌}
use idic.Text.{Text, codes, text_eq, upper, words, split_char}
use idic.Model.{World, Result, ok, err, Done}
use idic.Command.Handle.{handle_command}

-- What `script.expect` returns: a line, or one that `encode('ascii', 'ignore')` refuses.
pub data Input : Type 0 where
  undecodable : Input
  line : Text → Input

-- `script.write(t)` and `script.writeline(t)`.
pub data Output : Type 0 where
  write writeline : Text → Output

unfoldable pub welcome : Text
welcome = codes "You have connected to the test server."

unfoldable pub prompt : Text
prompt = codes "IPMI_SIM> "

-- `writeresponse` of every message of the queue.
unfoldable pub response_of : List Text → Text
response_of [] = []
response_of (t ∷ ts) = t ++ response_of ts

-- The lines of a response; an empty response writes nothing.
unfoldable pub response_lines : Text → List Output
response_lines [] = []
response_lines (c ∷ t) = map writeline (split_char 10 (c ∷ t) [])

-- `usingHandler`: the queue is emptied only if the command does not raise.
unfoldable pub respond : Result Done × World → Result Text × World
respond (ok _, w) = (ok (response_of w.msg_queue), record w { msg_queue = [] })
respond (err e, w) = (err e, w)

unfoldable pub using_handler : Text → World → Result Text × World
unfolding respond
using_handler cmd w = respond (handle_command cmd w)

-- The bare `except: continue` drops the exception, and the response with it.
unfoldable pub shown : Result Text → List Output
unfolding response_lines
shown (ok response) = response_lines response
shown (err e) = []

unfoldable pub is_quit : Text → Bool
is_quit word = text_eq (upper word) (codes "EXIT") || text_eq (upper word) (codes "QUIT")

abbrev pub show_result : Result Text × World → List Output × World
unfolding shown
show_result (r, w) = (shown r, w)

-- The output of one line that is not the end of the session.
unfoldable pub answer : Text → World → List Output × World
unfolding using_handler shown
answer cmdline w = show_result (using_handler cmdline w)

-- One line, by its words, and what follows it.
unfoldable pub take_line :
    Text → List Text → (World → List Output × World) → World → List Output × World
unfolding answer is_quit
take_line cmdline [] rest w = let (out, w') = rest w in (write prompt ∷ out, w')
take_line cmdline (cmd ∷ args) rest w =
    let (shown_lines, w') = answer cmdline w in
    let after = rest w' in
    if is_quit cmd
    then (write prompt ∷ writeline (codes "Quit!") ∷ [], w)
    else (write prompt ∷ shown_lines ++ after.0, after.1)

-- `handle_command`, behind the welcome line. The list ends where the server is stopped.
unfoldable pub session : List Input → World → List Output × World
unfolding take_line
session [] w = ([], w)
session (undecodable ∷ rest) w = let (out, w') = session rest w in (write prompt ∷ out, w')
session (line cmdline ∷ rest) w = take_line cmdline (words cmdline) (session rest) w

unfoldable pub handle_session : List Input → World → List Output × World
unfolding session
handle_session inputs w = let (out, w') = session inputs w in (writeline welcome ∷ out, w')
