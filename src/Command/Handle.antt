-- ===== src/Command/Handle.antt =====
-- `handle_help`, `handle_history` and `handle_command`
-- (vcompute/common/scripts/ipmi_sim/command.py).
use idic.Prelude.{
  ℕ, zero, suc, ◌+◌, Option, none, some, List, [], ◌∷◌, ◌++◌, leb, if◌then◌else◌, length, drop,
  get_elem?,
}
use idic.Prelude.Int.{pos}
use idic.Text.{Text, codes, text_eq, decimal, strip, split_args}
use idic.Model.{Exec, Done, pure, gets, modify, put_message, ◌>>=◌, ◌>>◌}
use idic.Command.Docs.{handle_help_doc}
use idic.Command.SensorCommands.{put_help, handle_sensor_command}
use idic.Command.SelCommands.{handle_sel_command}

abbrev pub history_size : ℕ
history_size = 30

unfoldable pub handle_help : Exec Done
handle_help = put_help handle_help_doc

-- `rounds` of the loop from `i` on; the IndexError behind the last command ends it.
unfoldable pub history_from : ℕ → ℕ → Exec Done
history_from zero i = pure tt
history_from (suc rounds) i = do
  h ← gets (λ w. w.command_history)
  elim (get_elem? h i) [
    | none ↦ pure tt
    | some c ↦ (do
      put_message (decimal (pos i) ++ codes "  " ++ c ++ codes "\n")
      history_from rounds (i + 1))
  ]

unfoldable pub handle_history : Exec Done
unfolding history_from
handle_history = history_from history_size 0

-- The last step of `handle_command`, on the list.
unfoldable pub remember : Text → List Text → List Text
remember cmd h = (if leb history_size (length h) then drop 1 h else h) ++ cmd ∷ []

-- The four commands; `none` is a word that is none of them.
unfoldable pub dispatch : Text → List Text → Option (Exec Done)
dispatch verb args =
    if text_eq verb (codes "sensor")
    then some (handle_sensor_command args)
    else if text_eq verb (codes "sel")
    then some (handle_sel_command args)
    else if text_eq verb (codes "help")
    then some handle_help
    else if text_eq verb (codes "history")
    then some handle_history
    else none

-- A command that raises leaves the history alone.
unfoldable pub run_args : Text → List Text → Exec Done
run_args cmd [] = pure tt
run_args cmd (verb ∷ args) = elim (dispatch verb args) [
  | none ↦ put_message (codes "illegal command\n")
  | some run ↦ (do run; modify (λ w. record w { command_history = remember cmd w.command_history }))
]

abbrev pub run_stripped : Text → Exec Done
run_stripped [] = pure tt
run_stripped (c ∷ cmd) = run_args (c ∷ cmd) (split_args (c ∷ cmd))

unfoldable pub handle_command : Text → Exec Done
unfolding strip split_args dispatch run_args remember
handle_command cmd = run_stripped (strip cmd)
