-- ===== src/Command/Dispatch.antt =====
-- What the `sel` commands, `help` and `history` (command.py) leave alone, and so every command that
-- `handle_command` knows.
use idic.Prelude.{
  ℕ, zero, suc, ◌+◌, Bool, true, false, not, ◌==◌, Option, none, some, List, [], ◌∷◌, ◌++◌,
  if◌then◌else◌, length, get_elem?,
}
use idic.Prelude.Int.{ℤ, pos}
use idic.Text.{Text, codes, decimal, int_of_text, text_eq}
use idic.Model.{World, Exec, Done, gets, attribute_error}
use idic.Model.Outcomes.{
  Preserves-pure, Preserves-bind, Preserves-if, Preserves-raise, Preserves-option, Preserves-gets,
}
use idic.Sel.{new_oem, oem_send_event, set_oem_defined_bytes, OemClass, oem_set_sensor_type}
use idic.Sensor.Law.{Law, IsFramed, Framed, Framed-put_message, Framed-log_error}
use idic.Sensor.Events.Framed.{
  Framed-get_sel, Framed-set_sel, Framed-send_event, Framed-oem_send_event,
}
use idic.Command.Framed.{Framed-handle_sensor_command, Framed-found}
use idic.Command.SelCommands.{
  parse_hex_list, send_standard, set_standard_sel, set_oem_bytes, set_oem_of_type, set_oem_sel,
  set_sensor_sel, set_sel, get_sel, handle_sel_command,
}
use idic.Command.Handle.{handle_help, history_from, handle_history, dispatch}

module _ (p : Law) (v : World) where
  Framed-send_standard : (ns : List ℤ) → Framed p v (send_standard ns)
  unfolding send_standard
  Framed-send_standard (a ∷ b ∷ c ∷ d ∷ e ∷ f ∷ g ∷ h ∷ rest) = search (Framed-send_event)
  Framed-send_standard [] = search (Preserves-raise)
  Framed-send_standard (a ∷ []) = search (Preserves-raise)
  Framed-send_standard (a ∷ b ∷ []) = search (Preserves-raise)
  Framed-send_standard (a ∷ b ∷ c ∷ []) = search (Preserves-raise)
  Framed-send_standard (a ∷ b ∷ c ∷ d ∷ []) = search (Preserves-raise)
  Framed-send_standard (a ∷ b ∷ c ∷ d ∷ e ∷ []) = search (Preserves-raise)
  Framed-send_standard (a ∷ b ∷ c ∷ d ∷ e ∷ f ∷ []) = search (Preserves-raise)
  Framed-send_standard (a ∷ b ∷ c ∷ d ∷ e ∷ f ∷ g ∷ []) = search (Preserves-raise)

  Framed-set_standard_sel : (ts : List Text) → Framed p v (set_standard_sel ts)
  unfolding set_standard_sel
  Framed-set_standard_sel ts =
      Preserves-if (IsFramed p v) (not (length ts == 8)) _ _ (Framed-put_message p v _) (
        Preserves-option (IsFramed p v) (parse_hex_list ts) _ _
          (Framed-log_error p v (codes "illegal data format\n")) Framed-send_standard)

  Framed-set_oem_bytes : (c : OemClass) (n : ℤ) (ts : List Text) → Framed p v (set_oem_bytes c n ts)
  unfolding set_oem_bytes oem_set_sensor_type
  Framed-set_oem_bytes c n ts =
      Preserves-option (IsFramed p v) (parse_hex_list ts) _ _
        (Framed-log_error p v (codes "illegal data format\n"))
        (λ ns.
          Preserves-bind (IsFramed p v) (oem_set_sensor_type new_oem n)
            (λ s. oem_send_event c (set_oem_defined_bytes ns s))
            (Preserves-raise (IsFramed p v) attribute_error)
            (λ s. Framed-oem_send_event p v c (set_oem_defined_bytes ns s)))

  Framed-set_oem_of_type : (n : ℤ) (ts : List Text) → Framed p v (set_oem_of_type n ts)
  unfolding set_oem_of_type
  Framed-set_oem_of_type n ts =
      search
        (
          Preserves-if, Framed-set_standard_sel, Framed-set_oem_bytes, Framed-put_message,
          Framed-log_error,
        )
        depth 8

  Framed-set_oem_sel : (ts : List Text) → Framed p v (set_oem_sel ts)
  unfolding set_oem_sel
  Framed-set_oem_sel [] = search (Preserves-raise)
  Framed-set_oem_sel (t ∷ ts) =
      Preserves-option (IsFramed p v) (int_of_text 16 t) _ _
        (Framed-log_error p v (codes "record type illegal\n")) (λ n. Framed-set_oem_of_type n ts)

  Framed-set_sensor_sel : (t e action : Text) → Framed p v (set_sensor_sel t e action)
  unfolding set_sensor_sel
  Framed-set_sensor_sel t e action = Framed-found p v t _ (λ a.
      Preserves-option (IsFramed p v) (int_of_text 10 e) _ _
        (Framed-log_error p v (codes "illegal event id"))
        (λ n.
          search (Preserves-if, Preserves-bind, Framed-set_sel, Preserves-pure, Framed-put_message)
            depth 8))

  Framed-set_sel_command : (ts : List Text) → Framed p v (set_sel ts)
  unfolding set_sel
  Framed-set_sel_command [] = search (Framed-put_message)
  Framed-set_sel_command (t ∷ []) = search (Framed-put_message)
  Framed-set_sel_command (t ∷ e ∷ []) = search (Framed-put_message)
  Framed-set_sel_command (t ∷ e ∷ a ∷ ts) =
      search (Preserves-if, Framed-set_oem_sel, Framed-set_sensor_sel)

  Framed-get_sel_command : (ts : List Text) → Framed p v (get_sel ts)
  unfolding get_sel
  Framed-get_sel_command [] = search (Framed-put_message)
  Framed-get_sel_command (t ∷ []) =
      Framed-found p v t _ (λ a. search (Preserves-bind, Framed-get_sel, Preserves-pure))
  Framed-get_sel_command (t ∷ e ∷ ts) = search (Framed-put_message)

  Framed-handle_sel_command : (ts : List Text) → Framed p v (handle_sel_command ts)
  unfolding handle_sel_command
  Framed-handle_sel_command [] = search (Framed-put_message)
  Framed-handle_sel_command (t ∷ ts) =
      search (Preserves-if, Framed-set_sel_command, Framed-get_sel_command, Preserves-pure)

  Framed-handle_help : Framed p v handle_help
  unfolding handle_help
  Framed-handle_help = search (Framed-put_message)

  Framed-history_from : (rounds i : ℕ) → Framed p v (history_from rounds i)
  unfolding history_from
  Framed-history_from zero i = search (Preserves-pure)
  Framed-history_from (suc rounds) i =
      Preserves-bind (IsFramed p v) (gets (λ w. w.command_history)) _
        (Preserves-gets (IsFramed p v) _)
        (λ h.
          Preserves-option (IsFramed p v) (get_elem? h i) _ _ (Preserves-pure (IsFramed p v) tt)
            (λ c.
              Preserves-bind (IsFramed p v) _ _
                (Framed-put_message p v (decimal (pos i) ++ codes "  " ++ c ++ codes "\n"))
                (λ d. Framed-history_from rounds (i + 1))))

  Framed-handle_history : Framed p v handle_history
  unfolding handle_history
  Framed-handle_history = Framed-history_from 30 0

  -- The run of a known command, if the word is one.
  unfoldable pub AllFramed : Option (Exec Done) → Type 0
  AllFramed none = Unit
  AllFramed (some m) = Framed p v m

  AllFramed-if :
      (b : Bool) (m : Exec Done) (o : Option (Exec Done))
      → Framed p v m
      → AllFramed o
      → AllFramed (if b then some m else o)
  unfolding AllFramed
  AllFramed-if true m o h k = h
  AllFramed-if false m o h k = k

  pub dispatch-AllFramed : (verb : Text) (args : List Text) → AllFramed (dispatch verb args)
  unfolding dispatch AllFramed
  dispatch-AllFramed verb args =
      AllFramed-if (text_eq verb (codes "sensor")) _ _ (Framed-handle_sensor_command p v args) (
        AllFramed-if (text_eq verb (codes "sel")) _ _ (Framed-handle_sel_command args) (
          AllFramed-if (text_eq verb (codes "help")) _ _ Framed-handle_help
            (AllFramed-if (text_eq verb (codes "history")) _ none Framed-handle_history tt)))
