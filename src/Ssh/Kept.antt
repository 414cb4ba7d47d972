-- ===== src/Ssh/Kept.antt =====
-- What a whole session (sshsrv.py) keeps: what every command keeps and the queue does not touch.
use mathlib.Core.Path.{subst}
use idic.Prelude.{sym, refl, ◌≤◌, Bool, true, false, List, [], ◌∷◌, if◌then◌else◌, length}
use idic.Text.{Text, words, strip}
use idic.Model.{World, Result, ok, err, Done}
use idic.Sensor.Typed.{AllTyped}
use idic.Command.Handle.{handle_command, remember}
use idic.Command.History.{length-remember}
use idic.Command.Kept.{handle_command-KeepsSensors, history_after, words_of, is_command}
use idic.Command.Typed.{handle_command-AllTyped, AllKeep, handle_command-AllKeep}
use idic.Ssh.{
  Input, undecodable, line, Output, is_quit, take_line, session, answer, respond, using_handler,
  show_result, shown,
}

module _ (I : World → Type 0) (runs : (cmd : Text) (w : World) → I w → I (handle_command cmd w).1)
    (drains : (w : World) → I w → I (record w { msg_queue = [] })) where
  respond_keeps : (p : Result Done × World) → I p.1 → I (show_result (respond p)).1
  unfolding respond shown
  respond_keeps (ok d, w) h = drains w h
  respond_keeps (err e, w) h = h

  answer_keeps : (cmd : Text) (w : World) → I w → I (answer cmd w).1
  unfolding answer using_handler
  answer_keeps cmd w h = respond_keeps (handle_command cmd w) (runs cmd w h)

  if_keeps : (b : Bool) (p q : List Output × World) → I p.1 → I q.1 → I (if b then p else q).1
  if_keeps true p q h k = h
  if_keeps false p q h k = k

  take_line_keeps :
      (cmdline : Text) (ws : List Text) (rest : World → List Output × World) (w : World)
      → ((u : World) → I u → I (rest u).1)
      → I w
      → I (take_line cmdline ws rest w).1
  unfolding take_line
  take_line_keeps cmdline [] rest w k h = k w h
  take_line_keeps cmdline (cmd ∷ args) rest w k h =
      if_keeps (is_quit cmd) _ _ h (k (answer cmdline w).1 (answer_keeps cmdline w h))

  pub session_keeps : (inputs : List Input) (w : World) → I w → I (session inputs w).1
  unfolding session
  session_keeps [] w h = h
  session_keeps (undecodable ∷ rest) w h = session_keeps rest w h
  session_keeps (line cmdline ∷ rest) w h =
      take_line_keeps cmdline (words cmdline) (session rest) w (session_keeps rest) h

-- Whatever a user types, a session keeps the types of the values: a threshold sensor holds a number,
-- a discrete one 0x and four characters (or the 0 of a failed first reading), and one of no kind
-- holds nothing.
pub session-AllTyped :
    (inputs : List Input) (w : World) → AllTyped w → AllTyped (session inputs w).1
session-AllTyped = session_keeps AllTyped handle_command-AllTyped (λ w h. h)

-- Whatever a user types, every object behind a session is the one that stood at its address, with
-- no attribute changed but the mode, the value, the fault level and the event record.
pub session-KeepsAttributes : (inputs : List Input) (w : World) → AllKeep w (session inputs w).1
session-KeepsAttributes inputs w =
    session_keeps (AllKeep w) (handle_command-AllKeep w) (λ u h. h) inputs w (λ a s e. (s, e, refl))

abbrev FewCommands : World → Type 0
FewCommands w = length w.command_history ≤ 30

if_remembered :
    (b : Bool) (cmd : Text) (h : List Text)
    → length h ≤ 30
    → length (if b then remember cmd h else h) ≤ 30
if_remembered true cmd h k = length-remember cmd h k
if_remembered false cmd h k = k

history_after-few :
    (cmd : Text) (ws : List Text) (r : Result Done) (h : List Text)
    → length h ≤ 30
    → length (history_after cmd ws r h) ≤ 30
history_after-few cmd [] r h k = k
history_after-few cmd (verb ∷ args) (ok d) h k = if_remembered (is_command verb) cmd h k
history_after-few cmd (verb ∷ args) (err e) h k = k

-- However long a session is and whatever is typed, at most thirty commands are remembered.
pub session-history_bound :
    (inputs : List Input) (w : World)
    → length w.command_history ≤ 30
    → length (session inputs w).1.command_history ≤ 30
session-history_bound =
    session_keeps FewCommands
      (λ cmd w few.
        subst (λ h. length h ≤ 30) (sym (handle_command-KeepsSensors cmd w).1)
          (history_after-few (strip cmd) (words_of (strip cmd)) (handle_command cmd w).0
            w.command_history few))
      (λ w few. few)
