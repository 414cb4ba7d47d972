-- ===== src/Command/UpperCase.antt =====
-- `sensor value set` (command.py) of a value behind 0X, which it accepts and sensor.py does not.
use idic.Prelude.{ℕ, ◌≡◌, ap, ◌∙◌, arith, false, Option, some, ◌∷◌, get_elem?, length}
use idic.Prelude.Int.{ℤ}
use idic.Text.{Text, codes, lower, starts_with, int_of_text}
use idic.Model.{Sensor, World, err, value_error}
use idic.Sensor.Attributes.{discrete, kind_of}
use idic.Sensor.Discrete.{is_discrete_text}
use idic.Sensor.Discrete.Refused.{set_discrete_value_refuses}
use idic.Command.SensorCommands.{discrete_text, set_discrete, set_if_hex, set_or_help}

discrete_text_upper :
    (rest : Text) → length rest ≡ 4 → discrete_text (b'0' ∷ b'X' ∷ rest) ≡ some (b'0' ∷ b'X' ∷ rest)
unfolding discrete_text lower starts_with codes
discrete_text_upper rest h = ground arith

is_discrete_text_upper : (rest : Text) → is_discrete_text (b'0' ∷ b'X' ∷ rest) ≡ false
unfolding is_discrete_text starts_with codes
is_discrete_text_upper rest = ground arith

-- A value of four hexadecimal digits behind 0X passes the test of the command, which looks at it in
-- lower case; the sensor then raises ValueError, and nothing is stored, sent or told.
pub set_discrete_upper :
    (a : ℕ) (rest : Text) (n : ℤ) (s : Sensor) (kind : ℕ) (w : World)
    → length rest ≡ 4
    → int_of_text 16 (b'0' ∷ b'X' ∷ rest) ≡ some n
    → get_elem? w.heap a ≡ some s
    → s.event_type ≡ some kind
    → kind_of kind ≡ discrete
    → set_discrete a (b'0' ∷ b'X' ∷ rest) w ≡ (err value_error, w)
unfolding set_discrete set_if_hex set_or_help
set_discrete_upper a rest n s kind w size reads found has_kind is_discrete =
    ap (λ (o : Option ℤ). set_if_hex a (b'0' ∷ b'X' ∷ rest) o w) reads
    ∙ ap (λ (o : Option Text). set_or_help a o w) (discrete_text_upper rest size)
    ∙ set_discrete_value_refuses a (b'0' ∷ b'X' ∷ rest) s kind w found has_kind is_discrete
        (is_discrete_text_upper rest)
