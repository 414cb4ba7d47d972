-- ===== src/Command/Framed.antt =====
-- What a command (command.py) leaves alone, and what becomes of the history.
use idic.Prelude.{ℕ, not, Option, none, some, List, [], ◌∷◌, ◌++◌, length, inl, inr, ◌⊎◌, ◌==◌}
use idic.Prelude.Int.{ℤ}
use idic.Text.{Text, codes, int_of_text}
use idic.Model.{
  World, Sensor, Mode, user, auto, fault, Error, Exec, Done, ◌>>=◌, ◌>>◌, pure, raise, gets, object,
  store, notify,
}
use idic.Model.Outcomes.{
  Preserves-pure, Preserves-lift, Preserves-object, Preserves-bind, Preserves-if, Preserves-raise,
  Preserves-option, Preserves-gets,
}
use idic.Sensor.Discrete.{set_threshold_value}
use idic.Sensor.Attributes.{set_mode}
use idic.Sensor.Framed.{
  Framed-get_reading_factor, Framed-formula_1, Framed-formula_2, Framed-format_three_places,
  Framed-get_unit, Framed-output_info, Framed-set_threshold_value, Framed-set_discrete_value,
  Framed-set_state,
}
use idic.Sensor.Law.{
  Law, IsFramed, Framed, Framed-store, Framed-put_message, Framed-notify, Framed-log_error,
  Framed-kind, Framed-by_kind, Framed-object,
}
use idic.Command.Lookup.{
  found_or_told, look_up, get_sensor_instance, put_info, output_sensors, put_infos,
  dump_all_sensor_info, dump_sensor_info,
}
use idic.Command.SensorCommands.{
  parse_fault_level, parse_mode, discrete_text, set_or_help, set_if_hex, change_mode,
  change_to_fault, set_sensor_mode, get_sensor_mode, handle_sensor_mode, set_analog, set_discrete,
  leave_auto, set_by_kind, set_state_bit, assign_value, look_up_and_assign, set_sensor_value,
  show_value, get_sensor_value, handle_sensor_value, handle_sensor_command,
}

module _ (p : Law) (v : World) where
  Framed-found_or_told : (t : Text) (o : Option ℕ) → Framed p v (found_or_told t o)
  unfolding found_or_told
  Framed-found_or_told t none = search (Preserves-bind, Framed-put_message, Preserves-pure)
  Framed-found_or_told t (some a) = search (Preserves-pure)

  Framed-look_up : (t : Text) (o : Option ℤ) → Framed p v (look_up t o)
  unfolding look_up
  Framed-look_up t none = search (Preserves-bind, Framed-log_error, Preserves-pure)
  Framed-look_up t (some n) = search (Preserves-bind, Preserves-gets, Framed-found_or_told)

  Framed-get_sensor_instance : (t : Text) → Framed p v (get_sensor_instance t)
  unfolding get_sensor_instance
  Framed-get_sensor_instance t = Framed-look_up t (int_of_text 16 t)

  -- A sensor is looked up, and the command goes on if there is one.
  pub Framed-found :
      (t : Text) (f : ℕ → Exec Done)
      → ((a : ℕ) → Framed p v (f a))
      → Framed p v (get_sensor_instance t >>= λ found. elim found [ none ↦ pure tt | some a ↦ f a ])
  Framed-found t f h =
      Preserves-bind (IsFramed p v) (get_sensor_instance t) _ (Framed-get_sensor_instance t)
        (λ found. Preserves-option (IsFramed p v) found _ _ (Preserves-pure (IsFramed p v) tt) h)

  Framed-put_info : (a : ℕ) → Framed p v (put_info a)
  unfolding put_info
  Framed-put_info a =
      search (Preserves-bind, Preserves-object, Framed-output_info, Framed-put_message)

  Framed-output_sensors : (ts : List Text) → Framed p v (output_sensors ts)
  unfolding output_sensors
  Framed-output_sensors [] = search (Preserves-pure)
  Framed-output_sensors (t ∷ ts) = Framed-found t _ (λ a.
      Preserves-bind (IsFramed p v) (put_info a) (λ d. output_sensors ts) (Framed-put_info a)
        (λ d. Framed-output_sensors ts))

  Framed-put_infos : (items : List ((ℕ × ℕ) × ℕ)) → Framed p v (put_infos items)
  unfolding put_infos
  Framed-put_infos [] = search (Preserves-pure)
  Framed-put_infos ((k, a) ∷ items) =
      Preserves-bind (IsFramed p v) (put_info a) (λ d. put_infos items) (Framed-put_info a)
        (λ d. Framed-put_infos items)

  Framed-dump_sensor_info : (ts : List Text) → Framed p v (dump_sensor_info ts)
  unfolding dump_sensor_info dump_all_sensor_info
  Framed-dump_sensor_info [] =
      search (Preserves-bind, Preserves-gets, Framed-put_infos, Framed-output_sensors)
  Framed-dump_sensor_info (t ∷ ts) = Framed-output_sensors (t ∷ ts)

  Framed-change_mode : (a : ℕ) (m : Mode) → Framed p v (change_mode a m)
  unfolding change_mode
  Framed-change_mode a m = Framed-object p v a _ (λ s h.
      search
        (
          Preserves-bind, Framed-store, Preserves-if, Framed-notify, Framed-put_message,
          Preserves-pure, p.mode,
        )
        depth 10)

  Framed-change_to_fault : (a : ℕ) (ts : List Text) → Framed p v (change_to_fault a ts)
  unfolding change_to_fault
  Framed-change_to_fault a [] = search (Framed-put_message)
  Framed-change_to_fault a (t ∷ ts) =
      Preserves-option (IsFramed p v) (parse_fault_level t) _ _ (search (Framed-put_message))
        (λ level.
          Framed-object p v a _
            (λ s h. search (Preserves-bind, Framed-store, Framed-change_mode, p.level) depth 8))

  Framed-by_mode :
      (a : ℕ) (ts : List Text) (m : Mode)
      → Framed p v (elim m [ fault ↦ change_to_fault a ts | other ↦ change_mode a other ])
  Framed-by_mode a ts user = Framed-change_mode a user
  Framed-by_mode a ts auto = Framed-change_mode a auto
  Framed-by_mode a ts fault = Framed-change_to_fault a ts

  Framed-set_sensor_mode : (ts : List Text) → Framed p v (set_sensor_mode ts)
  unfolding set_sensor_mode
  Framed-set_sensor_mode [] = search (Framed-put_message)
  Framed-set_sensor_mode (t ∷ []) = search (Framed-put_message)
  Framed-set_sensor_mode (t ∷ m ∷ ts) = Framed-found t _ (λ a.
      Preserves-option (IsFramed p v) (parse_mode m) _ _ (search (Framed-put_message))
        (Framed-by_mode a ts))

  Framed-get_sensor_mode : (ts : List Text) → Framed p v (get_sensor_mode ts)
  unfolding get_sensor_mode
  Framed-get_sensor_mode [] = search (Framed-put_message)
  Framed-get_sensor_mode (t ∷ []) =
      Framed-found t _ (λ a. search (Preserves-bind, Preserves-object, Framed-put_message))
  Framed-get_sensor_mode (t ∷ m ∷ ts) = search (Framed-put_message)

  Framed-handle_sensor_mode : (ts : List Text) → Framed p v (handle_sensor_mode ts)
  unfolding handle_sensor_mode
  Framed-handle_sensor_mode [] = search (Framed-put_message)
  Framed-handle_sensor_mode (t ∷ ts) =
      search (Preserves-if, Framed-set_sensor_mode, Framed-get_sensor_mode, Preserves-pure)

  Framed-leave_auto : (a : ℕ) → Framed p v (leave_auto a)
  unfolding leave_auto
  Framed-leave_auto a = Framed-object p v a _ (λ s h. by_mode s h s.mode)
    where
      by_mode :
          (s : Sensor)
          → p.Holds a s
          → (m : Mode)
          → Framed p v (elim m [ auto ↦ (do store a (set_mode user s); notify a) | _ ↦ pure tt ])
      by_mode s h user = search (Preserves-pure)
      by_mode s h auto = search (Preserves-bind, Framed-store, Framed-notify, p.mode)
      by_mode s h fault = search (Preserves-pure)

  Framed-set_analog : (a : ℕ) (t : Text) → Framed p v (set_analog a t)
  unfolding set_analog
  Framed-set_analog a t =
      Preserves-bind (IsFramed p v) _ _ (Preserves-gets (IsFramed p v) _) (λ analog.
        Preserves-option (IsFramed p v) analog _ _
          (Framed-put_message p v (codes "illegal sensor value: " ++ t ++ codes "\n"))
          (λ x. Preserves-bind (IsFramed p v) _ _ (Preserves-object (IsFramed p v) a) (λ s.
            Preserves-bind (IsFramed p v) _ _ (Framed-get_reading_factor p v s) (λ f.
              Preserves-bind (IsFramed p v) _ _ (Framed-formula_2 p v f x) (λ y.
                Preserves-bind (IsFramed p v) (gets (λ w. w.outside.truncate y)) _
                  (Preserves-gets (IsFramed p v) _) truncated)))))
    where
      truncated :
          (r : ℤ ⊎ Error)
          → Framed p v
              (elim r [ inl raw_value ↦ set_threshold_value a raw_value | inr e ↦ raise e ])
      truncated (inl n) = Framed-set_threshold_value p v a n
      truncated (inr e) = Preserves-raise (IsFramed p v) e

  Framed-set_or_help : (a : ℕ) (o : Option Text) → Framed p v (set_or_help a o)
  unfolding set_or_help
  Framed-set_or_help a none = search (Framed-put_message)
  Framed-set_or_help a (some t) = Framed-set_discrete_value p v a t

  Framed-set_if_hex : (a : ℕ) (t : Text) (o : Option ℤ) → Framed p v (set_if_hex a t o)
  unfolding set_if_hex
  Framed-set_if_hex a t none = search (Framed-put_message)
  Framed-set_if_hex a t (some n) = Framed-set_or_help a (discrete_text t)

  Framed-set_discrete : (a : ℕ) (t : Text) → Framed p v (set_discrete a t)
  unfolding set_discrete
  Framed-set_discrete a t = Framed-set_if_hex a t (int_of_text 16 t)

  Framed-set_by_kind : (a : ℕ) (t : Text) → Framed p v (set_by_kind a t)
  unfolding set_by_kind
  Framed-set_by_kind a t =
      Preserves-bind (IsFramed p v) (object a) _ (Preserves-object (IsFramed p v) a) (λ s.
        Framed-by_kind p v s _ (λ k.
          Framed-kind p v k _ _ _ (Preserves-pure (IsFramed p v) tt) (Framed-set_analog a t)
            (Framed-set_discrete a t)))

  Framed-set_state_bit :
      (a : ℕ) (str_num word state_id bit : Text)
      → Framed p v (set_state_bit a str_num word state_id bit)
  unfolding set_state_bit
  Framed-set_state_bit a str_num word state_id bit =
      Preserves-bind (IsFramed p v) (object a) _ (Preserves-object (IsFramed p v) a) (λ s.
        Framed-by_kind p v s _ (λ k.
          Framed-kind p v k _ _ _ (search (Framed-put_message)) (search (Framed-put_message)) (
            search
              (Preserves-if, Preserves-bind, Preserves-lift, Framed-put_message, Framed-set_state)
              depth 10)))

  Framed-assign_value : (a : ℕ) (t : Text) (ts : List Text) → Framed p v (assign_value a t ts)
  unfolding assign_value
  Framed-assign_value a t [] = search (Preserves-bind, Framed-leave_auto, Framed-put_message)
  Framed-assign_value a t (x ∷ []) = search (Preserves-bind, Framed-leave_auto, Framed-set_by_kind)
  Framed-assign_value a t (x ∷ y ∷ []) =
      search (Preserves-bind, Framed-leave_auto, Framed-put_message)
  Framed-assign_value a t (x ∷ y ∷ z ∷ []) =
      search (Preserves-bind, Framed-leave_auto, Framed-set_state_bit)
  Framed-assign_value a t (x ∷ y ∷ z ∷ u ∷ ts) =
      search (Preserves-bind, Framed-leave_auto, Framed-put_message)

  Framed-look_up_and_assign : (ts : List Text) → Framed p v (look_up_and_assign ts)
  unfolding look_up_and_assign
  Framed-look_up_and_assign [] = search (Framed-put_message)
  Framed-look_up_and_assign (t ∷ ts) = Framed-found t _ (λ a. Framed-assign_value a t ts)

  Framed-set_sensor_value : (ts : List Text) → Framed p v (set_sensor_value ts)
  unfolding set_sensor_value
  Framed-set_sensor_value ts =
      Preserves-if (IsFramed p v) (not (length ts == 2)) _ _ (Framed-put_message p v _)
        (Framed-look_up_and_assign ts)

  Framed-show_value : (a : ℕ) → Framed p v (show_value a)
  unfolding show_value
  Framed-show_value a =
      Preserves-bind (IsFramed p v) (object a) _ (Preserves-object (IsFramed p v) a) (λ s.
        Framed-by_kind p v s _ (λ k.
          Framed-kind p v k _ _ _ (search (Preserves-pure))
            (search
              (
                Preserves-bind, Framed-get_reading_factor, Framed-formula_1,
                Framed-format_three_places, Framed-get_unit, Framed-put_message,
              )
              depth 8)
            (search (Framed-put_message))))

  Framed-get_sensor_value : (ts : List Text) → Framed p v (get_sensor_value ts)
  unfolding get_sensor_value
  Framed-get_sensor_value [] = search (Framed-put_message)
  Framed-get_sensor_value (t ∷ []) = Framed-found t show_value Framed-show_value
  Framed-get_sensor_value (t ∷ m ∷ ts) = search (Framed-put_message)

  Framed-handle_sensor_value : (ts : List Text) → Framed p v (handle_sensor_value ts)
  unfolding handle_sensor_value
  Framed-handle_sensor_value [] = search (Framed-put_message)
  Framed-handle_sensor_value (t ∷ ts) =
      search (Preserves-if, Framed-set_sensor_value, Framed-get_sensor_value, Preserves-pure)

  pub Framed-handle_sensor_command : (ts : List Text) → Framed p v (handle_sensor_command ts)
  unfolding handle_sensor_command
  Framed-handle_sensor_command [] = search (Framed-put_message)
  Framed-handle_sensor_command (t ∷ ts) = search (
    Preserves-if, Framed-dump_sensor_info, Framed-handle_sensor_mode, Framed-handle_sensor_value,
    Preserves-pure,
  )
