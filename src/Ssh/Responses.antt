-- ===== src/Ssh/Responses.antt =====
-- What reaches the user: responses, the messages of commands that raise, and the end of a session.
use idic.Prelude.{◌≡◌, refl, List, [], ◌∷◌, ◌++◌, ap, ◌∙◌, true}
use idic.Text.{text_eq, Text, codes}
use idic.Model.{World, Result, ok, err, Error, Done}
use idic.Command.Handle.{handle_command, handle_help, remember}
use idic.Command.Docs.{handle_help_doc}
use mathlib.Core.List.{foldr}
use idic.Ssh.Lines.{printed, all_lines, printed-response_lines, all_lines-response_lines}
use idic.Ssh.{
  Output, response_of, response_lines, respond, show_result, using_handler, shown, answer,
}

-- Messages one behind the other.
abbrev pub all_messages : List Text → Text
all_messages ts = foldr ◌++◌ [] ts

-- What one line shows and leaves, by the outcome of its command: of a command that returns, the
-- messages, line by line, and the queue is empty; of a command that raises, nothing, and the messages
-- stay in the queue.
abbrev pub Answered : Result Done × World → List Output × World → Type 0
Answered (ok _, w) (out, w') =
    (printed out ≡ all_messages w.msg_queue)
    × (all_lines out ≡ true)
    × (w' ≡ record w { msg_queue = [] })
Answered (err _, w) (out, w') = (out ≡ []) × (w' ≡ w)

response_of-all_messages : (ts : List Text) → response_of ts ≡ all_messages ts
unfolding response_of
response_of-all_messages [] = refl
response_of-all_messages (t ∷ ts) = ap (λ r. t ++ r) (response_of-all_messages ts)

show-Answered : (p : Result Done × World) → Answered p (show_result (respond p))
unfolding respond shown
show-Answered (ok d, w) = (
  printed-response_lines (response_of w.msg_queue) ∙ response_of-all_messages w.msg_queue,
  all_lines-response_lines (response_of w.msg_queue),
  refl,
)
show-Answered (err e, w) = (refl, refl)

-- A line whose command returns shows all the messages of the queue, one behind the other and line by
-- line, and empties it; one whose command raises shows nothing and keeps them.
pub answer-Answered : (cmd : Text) (w : World) → Answered (handle_command cmd w) (answer cmd w)
unfolding answer using_handler
answer-Answered cmd w = show-Answered (handle_command cmd w)

answer_err :
    (cmd : Text) (w w' : World) (e : Error)
    → handle_command cmd w ≡ (err e, w')
    → answer cmd w ≡ ([], w')
unfolding answer using_handler respond shown
answer_err cmd w w' e h = ap (λ (p : Result Done × World). show_result (respond p)) h

handle_command_help :
    (w : World)
    → handle_command (codes "help") w ≡ (
      ok tt,
      record w {
        msg_queue = w.msg_queue ++ (handle_help_doc ++ codes "\n") ∷ [];
        command_history = remember (codes "help") w.command_history;
      },
    )
unfolding handle_command codes handle_help text_eq
handle_command_help w = refl

-- The messages of a command that has raised are shown with the answer to the next line: after it,
-- `help` answers with them in front of the help text.
pub stale_messages :
    (cmd : Text) (w w' : World) (e : Error)
    → handle_command cmd w ≡ (err e, w')
    → (answer (codes "help") (answer cmd w).1).0
      ≡ response_lines (response_of (w'.msg_queue ++ (handle_help_doc ++ codes "\n") ∷ []))
unfolding answer using_handler respond shown
stale_messages cmd w w' e h =
    ap (λ (p : List Output × World). (answer (codes "help") p.1).0) (answer_err cmd w w' e h)
    ∙ ap (λ (p : Result Done × World). (show_result (respond p)).0) (handle_command_help w')
