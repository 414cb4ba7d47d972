-- ===== src/Command/Kept.antt =====
-- What `handle_command` (command.py) does to the registry of the sensors and to the history, for
-- every command and every outcome.
use idic.Prelude.{
  ◌++◌, sym, ◌≡◌, refl, Bool, true, false, Option, none, some, List, [], ◌∷◌, if◌then◌else◌, length,
  ap, ◌∙◌, ◌||◌,
}
use idic.Text.{Text, codes, strip, split_args, text_eq}
use idic.Model.{World, Result, ok, err, Exec, Done, continue, ◌>>◌, modify, put_message}
use idic.Sensor.Law.{Law, Lawful, no_law, IsFramed}
use idic.Command.Dispatch.{AllFramed, dispatch-AllFramed}
use idic.Command.Handle.{handle_history, remember, dispatch, run_args, run_stripped, handle_command}

-- The four words that `handle_command` knows.
abbrev pub is_command : Text → Bool
is_command verb =
    text_eq verb (codes "sensor")
    || (text_eq verb (codes "sel")
        || (text_eq verb (codes "help") || text_eq verb (codes "history")))

-- The history behind a line, by its words and its outcome.
abbrev pub history_after : Text → List Text → Result Done → List Text → List Text
history_after cmd [] r h = h
history_after cmd (verb ∷ args) (ok d) h = if is_command verb then remember cmd h else h
history_after cmd (verb ∷ args) (err e) h = h

-- All but the history.
pub record KeepsSensors (v w : World) : Type 0 where
  pub objects : length w.heap ≡ length v.heap
  pub sensor_list : w.sensor_list ≡ v.sensor_list
  pub sensor_name_list : w.sensor_name_list ≡ v.sensor_name_list
  pub sensor_id_list : w.sensor_id_list ≡ v.sensor_id_list
  pub sensor_name_map : w.sensor_name_map ≡ v.sensor_name_map
  pub sensor_id_map : w.sensor_id_map ≡ v.sensor_id_map

-- What a line does, with the words that it has.
abbrev Outcome : Law → Text → List Text → World → Result Done × World → Type 0
Outcome p cmd words w (r, w') =
    KeepsSensors w w'
    × Lawful p w'
    × (w'.command_history ≡ history_after cmd words r w.command_history)

Agrees : Option (Exec Done) → Bool → Type 0
Agrees none b = b ≡ false
Agrees (some m) b = b ≡ true

Agrees-if :
    (c : Bool) (m : Exec Done) (o : Option (Exec Done)) (b : Bool)
    → Agrees o b
    → Agrees (if c then some m else o) (c || b)
unfolding Agrees
Agrees-if true m o b h = refl
Agrees-if false m o b h = h

dispatch-Agrees : (verb : Text) (args : List Text) → Agrees (dispatch verb args) (is_command verb)
unfolding dispatch Agrees
dispatch-Agrees verb args =
    Agrees-if (text_eq verb (codes "sensor")) _ _
      (text_eq verb (codes "sel")
        || (text_eq verb (codes "help") || text_eq verb (codes "history")))
      (Agrees-if (text_eq verb (codes "sel")) _ _
        (text_eq verb (codes "help") || text_eq verb (codes "history"))
        (Agrees-if (text_eq verb (codes "help")) _ _ (text_eq verb (codes "history"))
          (last (text_eq verb (codes "history")))))
  where
    last : (c : Bool) → Agrees (if c then some handle_history else none) c
    last true = refl
    last false = refl

remembering : Text → Exec Done
remembering cmd = modify (λ w. record w { command_history = remember cmd w.command_history })

abbrev carry_out : Text → Option (Exec Done) → Exec Done
carry_out cmd o = elim o [
  | none ↦ put_message (codes "illegal command\n")
  | some run ↦ run >> remembering cmd
]

module _ (p : Law) (w : World) where
  -- A line that does not change the objects.
  aside :
      (msgs : List Text) (h : List Text)
      → Lawful p w
      → h ≡ w.command_history
      → KeepsSensors w (record w { msg_queue = msgs })
        × Lawful p (record w { msg_queue = msgs })
        × (w.command_history ≡ h)
  aside msgs h lawful e = (
    record {
      objects = refl;
      sensor_list = refl;
      sensor_name_list = refl;
      sensor_id_list = refl;
      sensor_name_map = refl;
      sensor_id_map = refl;
    },
    lawful,
    sym e,
  )

  self-IsFramed : Lawful p w → IsFramed p w w
  self-IsFramed lawful = record {
    objects = refl;
    lawful = lawful;
    sensor_list = refl;
    sensor_name_list = refl;
    sensor_id_list = refl;
    sensor_name_map = refl;
    sensor_id_map = refl;
    command_history = refl;
  }

  keeps : {u : World} → IsFramed p w u → KeepsSensors w u
  keeps h = record {
    objects = h.objects;
    sensor_list = h.sensor_list;
    sensor_name_list = h.sensor_name_list;
    sensor_id_list = h.sensor_id_list;
    sensor_name_map = h.sensor_name_map;
    sensor_id_map = h.sensor_id_map;
  }

  behind_run :
      (cmd verb : Text) (args : List Text) (r : Result Done) (w' : World)
      → IsFramed p w w'
      → is_command verb ≡ true
      → Outcome p cmd (verb ∷ args) w (continue r (λ d. remembering cmd) w')
  unfolding remembering
  behind_run cmd verb args (ok d) w' h known = (
    record {
      objects = h.objects;
      sensor_list = h.sensor_list;
      sensor_name_list = h.sensor_name_list;
      sensor_id_list = h.sensor_id_list;
      sensor_name_map = h.sensor_name_map;
      sensor_id_map = h.sensor_id_map;
    },
    h.lawful,
    ap (remember cmd) h.command_history
        ∙ ap (λ b. if b then remember cmd w.command_history else w.command_history) (sym known),
  )
  behind_run cmd verb args (err e) w' h known = (keeps h, h.lawful, h.command_history)

  run-Outcome :
      (cmd verb : Text) (args : List Text) (o : Option (Exec Done))
      → AllFramed p w o
      → Agrees o (is_command verb)
      → Lawful p w
      → Outcome p cmd (verb ∷ args) w (carry_out cmd o w)
  unfolding AllFramed Agrees
  run-Outcome cmd verb args none f unknown lawful =
      aside (w.msg_queue ++ codes "illegal command\n" ∷ [])
        (if is_command verb then remember cmd w.command_history else w.command_history) lawful
        (ap (λ b. if b then remember cmd w.command_history else w.command_history) unknown)
  run-Outcome cmd verb args (some run) f known lawful =
      behind_run cmd verb args (run w).0 (run w).1 (f.at w (self-IsFramed lawful)) known

  run_args-Outcome :
      (cmd : Text) (words : List Text) → Lawful p w → Outcome p cmd words w (run_args cmd words w)
  unfolding run_args remembering
  run_args-Outcome cmd [] lawful = aside w.msg_queue w.command_history lawful refl
  run_args-Outcome cmd (verb ∷ args) lawful =
      run-Outcome cmd verb args (dispatch verb args) (dispatch-AllFramed p w verb args)
        (dispatch-Agrees verb args) lawful

-- The words of a line; an empty line has none.
abbrev pub words_of : Text → List Text
words_of [] = []
words_of (c ∷ cmd) = split_args (c ∷ cmd)

run_stripped-Outcome :
    (p : Law) (cmd : Text) (w : World)
    → Lawful p w
    → Outcome p cmd (words_of cmd) w (run_stripped cmd w)
run_stripped-Outcome p [] w lawful = aside p w w.msg_queue w.command_history lawful refl
run_stripped-Outcome p (c ∷ cmd) w lawful =
    run_args-Outcome p w (c ∷ cmd) (split_args (c ∷ cmd)) lawful

-- A line keeps every property of the objects that the setters keep.
pub handle_command-Lawful :
    (p : Law) (cmd : Text) (w : World) → Lawful p w → Lawful p (handle_command cmd w).1
unfolding handle_command
handle_command-Lawful p cmd w lawful = (run_stripped-Outcome p (strip cmd) w lawful).1

-- Whatever a line is, and however it ends: no object is added or removed, and the lists and maps that
-- name the sensors stay as they are; the stripped line is remembered in the history if its first word
-- is one of the four commands and the command returns, and otherwise the history stays too.
pub handle_command-KeepsSensors :
    (cmd : Text) (w : World)
    → KeepsSensors w (handle_command cmd w).1
      × ((handle_command cmd w).1.command_history
          ≡ history_after
              (strip cmd)
              (words_of (strip cmd))
              (handle_command cmd w).0
              w.command_history)
unfolding handle_command
handle_command-KeepsSensors cmd w =
    let (k, l, h) = run_stripped-Outcome no_law (strip cmd) w (λ a s e. tt) in (k, h)
