-- ===== src/Sensor/Discrete/Refused.antt =====
-- The values that `set_discrete_value` (sensor.py) does not take.
use idic.Prelude.{ℕ, ◌≡◌, ◌∙◌, false, some, [], ◌∷◌, get_elem?, if◌then◌else◌}
use idic.Text.{Text}
use idic.Model.{Sensor, World, err, value_error, raise, object-bind}
use idic.Sensor.Attributes.{discrete, with_type, kind_of, with_type_accepts}
use idic.Sensor.Discrete.{is_discrete_text, write_discrete, set_discrete_value}

-- For a discrete sensor, a text that is not 0x, in lower case, and four characters is a ValueError,
-- and nothing is stored or sent.
pub set_discrete_value_refuses :
    (a : ℕ) (value : Text) (s : Sensor) (kind : ℕ) (w : World)
    → get_elem? w.heap a ≡ some s
    → s.event_type ≡ some kind
    → kind_of kind ≡ discrete
    → is_discrete_text value ≡ false
    → set_discrete_value a value w ≡ (err value_error, w)
unfolding set_discrete_value
set_discrete_value_refuses a value s kind w found has_kind is_discrete refused =
    object-bind a
      (λ o.
        with_type (discrete ∷ []) o
          (if is_discrete_text value then write_discrete a value o else raise value_error))
      w found
    ∙ with_type_accepts (discrete ∷ []) s
        (if is_discrete_text value then write_discrete a value s else raise value_error) kind w
        has_kind (rw is_discrete)
    ∙ rw refused
