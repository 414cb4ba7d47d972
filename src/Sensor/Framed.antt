-- ===== src/Sensor/Framed.antt =====
-- What the operations of a sensor (sensor.py) leave alone.
use idic.Prelude.{true, false, Bool, ℕ, ◌≡◌, refl, List, [], ◌∷◌, arith, if◌then◌else◌}
use idic.Prelude.Int.{ℤ}
use idic.Text.{Text}
use idic.Model.{World, Sensor, Value, absent, number, text, raise, value_error}
use idic.Model.Outcomes.{
  Preserves-pure, Preserves-lift, Preserves-attribute, Preserves-bind, Preserves-if,
  Preserves-raise, Preserves-gets,
}
use idic.Common.{send_ipmi_sim_command}
use idic.Sensor.Attributes.{threshold, discrete}
use idic.Sensor.Reading.{
  Factor, Num, int, float, get_reading_factor, formula_1, formula_2, format_three_places, get_unit,
  threshold_text, value_text, output_info,
}
use idic.Sensor.Discrete.{
  is_discrete_text, value_command, bit_command, set_threshold_value, register_of, register_of_value,
  send_bits, write_discrete, set_discrete_value, write_state, checked_state, set_state,
}
use idic.Sensor.Law.{
  Law, HasKind, IsFramed, framed, Framed, Framed-store, Framed-send, Framed-kind, Framed-by_kind,
  Framed-object, Framed-with_type,
}
use idic.Sensor.Discrete.Texts.{value_text_of-is_discrete_text}

module _ (p : Law) (v : World) where
  pub Framed-get_reading_factor : (s : Sensor) → Framed p v (get_reading_factor s)
  unfolding get_reading_factor
  Framed-get_reading_factor s =
      search (Preserves-bind, Preserves-attribute, Preserves-pure) depth 10

  pub Framed-formula_1 : (f : Factor) (x : Value) → Framed p v (formula_1 f x)
  unfolding formula_1
  Framed-formula_1 f absent = search (Preserves-raise)
  Framed-formula_1 f (number x) = search (Preserves-gets)
  Framed-formula_1 f (text x) = search (Preserves-raise)

  pub Framed-formula_2 : (f : Factor) (x : ℕ) → Framed p v (formula_2 f x)
  unfolding formula_2
  Framed-formula_2 f x = record {
    at = λ w.
        framed p v (ground arith) (ground arith) (ground arith) (ground arith) (ground arith)
          (ground arith) (ground arith);
  }

  pub Framed-format_three_places : (n : Num) → Framed p v (format_three_places n)
  unfolding format_three_places
  Framed-format_three_places (int n) = search (Preserves-gets)
  Framed-format_three_places (float x) = search (Preserves-gets)

  pub Framed-get_unit : (s : Sensor) → Framed p v (get_unit s)
  unfolding get_unit
  Framed-get_unit s = Framed-by_kind p v s _ (λ k.
      Framed-kind p v k _ _ _ (search (Preserves-pure))
        (search (Preserves-bind, Preserves-attribute, Preserves-pure)) (search (Preserves-pure)))

  Framed-threshold_text : (s : Sensor) (mask raw : ℕ) → Framed p v (threshold_text s mask raw)
  unfolding threshold_text
  Framed-threshold_text s mask raw = Framed-by_kind p v s _ (λ k.
      Framed-kind p v k _ _ _ (search (Preserves-pure))
        (search
          (
            Preserves-bind, Preserves-if, Preserves-attribute, Preserves-pure,
            Framed-get_reading_factor, Framed-formula_1, Framed-format_three_places,
          )
          depth 10)
        (search (Preserves-pure)))

  Framed-value_text : (s : Sensor) → Framed p v (value_text s)
  unfolding value_text
  Framed-value_text s = Framed-by_kind p v s _ (λ k.
      Framed-kind p v k _ _ _ (search (Preserves-raise))
        (search
          (Preserves-bind, Framed-get_reading_factor, Framed-formula_1, Framed-format_three_places))
        (search (Preserves-pure)))

  pub Framed-output_info : (s : Sensor) → Framed p v (output_info s)
  unfolding output_info
  Framed-output_info s =
      search
        (Preserves-bind, Framed-value_text, Framed-get_unit, Framed-threshold_text, Preserves-pure)
        depth 12

  Framed-value_command : (x : ℤ) (s : Sensor) → Framed p v (value_command x s)
  unfolding value_command
  Framed-value_command x s = search (Preserves-bind, Preserves-attribute, Preserves-pure)

  Framed-bit_command : (i b : ℕ) (s : Sensor) → Framed p v (bit_command i b s)
  unfolding bit_command
  Framed-bit_command i b s = search (Preserves-bind, Preserves-attribute, Preserves-pure)

  pub Framed-set_threshold_value : (a : ℕ) (x : ℤ) → Framed p v (set_threshold_value a x)
  unfolding set_threshold_value
  Framed-set_threshold_value a x = Framed-object p v a _ (λ s h.
      Framed-with_type p v threshold s _ (λ kind.
        search
          (
            Preserves-bind, Framed-store, Framed-value_command, Framed-send, Preserves-pure,
            p.reading,
          )
          depth 10))

  Framed-register_of_value : (x : Value) → Framed p v (register_of_value x)
  unfolding register_of_value register_of
  Framed-register_of_value absent = search (Preserves-raise)
  Framed-register_of_value (number x) = search (Preserves-raise)
  Framed-register_of_value (text t) = search (Preserves-lift)

  Framed-register_of : (t : Text) → Framed p v (register_of t)
  unfolding register_of
  Framed-register_of t = search (Preserves-lift)

  Framed-send_bits : (ds : List (ℕ × ℕ)) (s : Sensor) → Framed p v (send_bits ds s)
  unfolding send_bits
  Framed-send_bits [] s = search (Preserves-pure)
  Framed-send_bits ((i, b) ∷ ds) s =
      Preserves-bind (IsFramed p v) (bit_command i b s) _ (Framed-bit_command i b s) (λ c.
        Preserves-bind (IsFramed p v) (send_ipmi_sim_command c) (λ r. send_bits ds s)
          (Framed-send p v c) (λ r. Framed-send_bits ds s))

  Framed-write_discrete :
      (a : ℕ) (t : Text) (s : Sensor)
      → HasKind s discrete
      → is_discrete_text t ≡ true
      → p.Holds a s
      → Framed p v (write_discrete a t s)
  unfolding write_discrete
  Framed-write_discrete a t s kind six h =
      search
        (
          Preserves-bind, Framed-register_of_value, Framed-register_of, Framed-store,
          Framed-send_bits, p.register,
        )
        depth 10

  Framed-checked_text :
      (a : ℕ) (t : Text) (s : Sensor) (b : Bool)
      → HasKind s discrete
      → is_discrete_text t ≡ b
      → p.Holds a s
      → Framed p v (if b then write_discrete a t s else raise value_error)
  Framed-checked_text a t s true kind six h = Framed-write_discrete a t s kind six h
  Framed-checked_text a t s false kind six h = Preserves-raise (IsFramed p v) value_error

  pub Framed-set_discrete_value : (a : ℕ) (t : Text) → Framed p v (set_discrete_value a t)
  unfolding set_discrete_value
  Framed-set_discrete_value a t = Framed-object p v a _ (λ s h.
      Framed-with_type p v discrete s _
        (λ kind. Framed-checked_text a t s (is_discrete_text t) kind refl h))

  Framed-write_state :
      (a i b : ℕ) (s : Sensor) → HasKind s discrete → p.Holds a s → Framed p v (write_state a i b s)
  unfolding write_state
  Framed-write_state a i b s kind h =
      search
        (
          Preserves-bind, Framed-register_of_value, Framed-store, Framed-bit_command, Framed-send,
          Preserves-pure, p.register, value_text_of-is_discrete_text,
        )
        depth 10

  pub Framed-set_state : (a : ℕ) (i b : ℤ) → Framed p v (set_state a i b)
  unfolding set_state checked_state
  Framed-set_state a i b = Framed-object p v a _ (λ s h.
      Framed-with_type p v discrete s _
        (λ kind. search (Preserves-if, Framed-write_state, Preserves-raise) depth 8))
