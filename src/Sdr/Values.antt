-- ===== src/Sdr/Values.antt =====
-- The values that sdr.py reads through ipmitool have the types of their sensors.
use mathlib.Core.Path.{subst}
use idic.Prelude.{
  ℕ, ◌+◌, ◌≡◌, refl, sym, ap, ◌∙◌, arith, Bool, true, false, Option, none, some, List, [], ◌∷◌,
  ◌++◌, length, length-append, get_elem?, inl, inr, if◌then◌else◌,
}
use idic.Prelude.Int.{pos}
use idic.Text.{Text, codes, hex, words, text_eq, int_of_text}
use idic.Model.{
  World, Outside, Sensor, Value, absent, number, text, Exec, pure, lift, or_raise, ◌>>=◌,
  index_error, value_error,
}
use idic.Model.Outcomes.{Preserves-lift}
use idic.Model.Leads.{Leads, Ending, Leads-bind, Leads-past, Leads-pure, Leads-given}
use idic.Common.{ipmitool_prefix, send_ipmitool_command}
use idic.Sensor.Attributes.{EventKind, na, threshold, discrete, kind_of}
use idic.Sensor.Typed.{Fits, AllTyped}
use idic.Sensor.Discrete.Texts.{six_characters}
use idic.Sdr.{part, read_value, read_sensor_raw_value, initial_value, byte_at, Fields, read_fields}

-- Every word of a text is two characters.
abbrev pub TwoDigits : Text → Type 0
TwoDigits out = (i : ℕ) (t : Text) → get_elem? (words out) i ≡ some t → length t ≡ 2

-- `raw 0x04 0x2d` with the number of a sensor.
abbrev pub reading_call : ℕ → List Text
reading_call n = codes "raw" ∷ codes "0x04" ∷ codes "0x2d" ∷ hex (pos n) ∷ []

-- ipmitool shows the answer to a raw request as bytes of two hexadecimal digits each.
pub record PrintsBytes (o : Outside) : Type 0 where
  pub at : (calls n : ℕ) → TwoDigits (o.ipmitool calls (ipmitool_prefix ++ reading_call n)).0

pub record IsSound (w : World) : Type 0 where
  pub typed : AllTyped w
  pub prints : PrintsBytes w.outside

abbrev Read : Option Text → Type 0
Read none = Unit
Read (some out) = TwoDigits out

pub same-IsSound : (v w : World) → v.heap ≡ w.heap → v.outside ≡ w.outside → IsSound w → IsSound v
same-IsSound v w h o s = record {
  typed = λ a x e. s.typed a x (ap (λ (l : List Sensor). get_elem? l a) (sym h) ∙ e);
  prints = record {
    at =
        subst
          (λ p. (calls n : ℕ) → TwoDigits (p.ipmitool calls (ipmitool_prefix ++ reading_call n)).0)
          (sym o) s.prints.at;
  };
}

call_ends :
    (n : ℕ) (b : Bool) (w u v : World) (out : Text)
    → IsSound u
    → IsSound v
    → TwoDigits out
    → Ending (λ r w. IsSound w × Read r) IsSound ((if b then pure (some out) u else pure none v))
call_ends n true w u v out h k d = (h, d)
call_ends n false w u v out h k d = (k, tt)

reads_bytes :
    (n : ℕ)
    → Leads IsSound (λ r w. IsSound w × Read r) IsSound (send_ipmitool_command (reading_call n))
unfolding send_ipmitool_command
reads_bytes n = record {
  at = λ w s.
      call_ends n
        (text_eq (w.outside.ipmitool w.tool_calls (ipmitool_prefix ++ reading_call n)).1 []) w
        (record w { tool_calls = w.tool_calls + 1 })
        (record w {
          tool_calls = w.tool_calls + 1;
          error_log = w.error_log ++ codes "failed to send ipmitool command" ∷ [];
        })
        (w.outside.ipmitool w.tool_calls (ipmitool_prefix ++ reading_call n)).0
        (record { typed = s.typed; prints = s.prints })
        (record { typed = s.typed; prints = s.prints }) (s.prints.at w.tool_calls n);
}

module _ (P : World → Type 0) (falls : (w : World) → P w → IsSound w) where
  part_ends :
      (o : Option Text) (w : World)
      → P w
      → ((t : Text) → o ≡ some t → length t ≡ 2)
      → Ending (λ t w. P w × (length t ≡ 2)) IsSound (or_raise index_error o, w)
  part_ends none w p d = falls w p
  part_ends (some t) w p d = (p, d t refl)

  part_is_two :
      (out : Text) (i : ℕ)
      → TwoDigits out
      → Leads P (λ t w. P w × (length t ≡ 2)) IsSound (part (words out) i)
  part_is_two out i d = record { at = λ w p. part_ends (get_elem? (words out) i) w p (d i) }

read_number :
    (out : Text)
    → Leads IsSound (λ v w. IsSound w × Fits threshold v) IsSound (read_value threshold out)
unfolding read_value
read_number out =
    Leads-past IsSound IsSound (λ w s. s) _ (part (words out) 0) _ (Preserves-lift IsSound _)
      (λ value.
        Leads-past IsSound IsSound (λ w s. s) _ (lift (or_raise value_error (int_of_text 16 value)))
          _ (Preserves-lift IsSound _)
          (λ n. Leads-pure IsSound IsSound _ (number n) (λ w s. (s, (n, refl)))))

read_word :
    (out : Text)
    → TwoDigits out
    → Leads IsSound (λ v w. IsSound w × Fits discrete v) IsSound (read_value discrete out)
unfolding read_value codes
read_word out d =
    Leads-bind IsSound IsSound _ _ (part (words out) 2) _ (part_is_two IsSound (λ w s. s) out 2 d)
      (λ low. Leads-given (length low ≡ 2) IsSound IsSound _ _ (λ h.
        Leads-bind IsSound IsSound _ _ (part (words out) 3) _
          (part_is_two IsSound (λ w s. s) out 3 d)
          (λ high. Leads-given (length high ≡ 2) IsSound IsSound _ _ (λ k.
            Leads-pure IsSound IsSound _ (text (codes "0x" ++ low ++ high)) (λ w s. (
              s,
              inl (_, refl, six_characters (low ++ high) (omega (arith, length-append low high))),
            ))))))

-- A call that fails reads as 0.
read_or_zero :
    (k : EventKind)
    → Fits k (number (pos 0))
    → ((out : Text)
        → TwoDigits out
        → Leads IsSound (λ v w. IsSound w × Fits k v) IsSound (read_value k out))
    → (n : ℕ) → Leads IsSound (λ v w. IsSound w × Fits k v) IsSound (read_sensor_raw_value n k)
unfolding read_sensor_raw_value
read_or_zero k zero_fits reads n =
    Leads-bind IsSound IsSound _ _ (send_ipmitool_command (reading_call n)) _ (reads_bytes n)
      answered
  where
    answered :
        (r : Option Text)
        → Leads
            (λ w. IsSound w × Read r)
            (λ v w. IsSound w × Fits k v)
            IsSound
            (elim r [ none ↦ pure (number (pos 0)) | some out ↦ read_value k out ])
    answered none =
        Leads-given Unit IsSound IsSound _ _
          (λ u. Leads-pure IsSound IsSound _ (number (pos 0)) (λ w s. (s, zero_fits)))
    answered (some out) = Leads-given (TwoDigits out) IsSound IsSound _ _ (reads out)

abbrev FittingValue : ℕ → Value → World → Type 0
FittingValue e v w = IsSound w × Fits (kind_of e) v

initial_value-Fits : (n e : ℕ) → Leads IsSound (FittingValue e) IsSound (initial_value n e)
unfolding initial_value
initial_value-Fits n e = by_kind (kind_of e)
  where
    by_kind :
        (k : EventKind)
        → Leads IsSound
            (λ v w. IsSound w × Fits k v)
            IsSound
            (elim k [
              | na ↦ pure absent
              | threshold ↦ read_sensor_raw_value n threshold
              | discrete ↦ read_sensor_raw_value n discrete
            ])
    by_kind na = Leads-pure IsSound IsSound _ absent (λ w s. (s, refl))
    by_kind threshold = read_or_zero threshold (pos 0, refl) (λ out d. read_number out) n
    by_kind discrete = read_or_zero discrete (inr refl) read_word n

module _ {A : Type 0} (P : World → Type 0) (falls : (w : World) → P w → IsSound w)
    (Q : A → World → Type 0) where
  past_byte :
      (file : List ℕ) (i : ℕ) (f : ℕ → Exec A)
      → ((x : ℕ) → Leads P Q IsSound (f x))
      → Leads P Q IsSound (byte_at file i >>= f)
  past_byte file i f k = Leads-past P IsSound falls Q (byte_at file i) f (Preserves-lift P _) k

abbrev pub FittingFields : Fields → World → Type 0
FittingFields f w = IsSound w × Fits (kind_of f.event_type) f.value

pub read_fields-Fits :
    (file : List ℕ) (offset : ℕ) → Leads IsSound FittingFields IsSound (read_fields file offset)
unfolding read_fields
read_fields-Fits file offset = past 5 _ λ mc. past 6 _ λ lun. past 7 _ λ num. past 11 _ λ cap.
    past 12 _ λ tp. past 13 _ λ e.
      Leads-bind IsSound IsSound (FittingValue e) FittingFields (initial_value num e) _
        (initial_value-Fits num e)
        (λ v. behind e v 14 _ λ b1. behind e v 15 _ λ b2. behind e v 16 _ λ b3.
          behind e v 17 _ λ b4. behind e v 18 _ λ b5. behind e v 19 _ λ b6. behind e v 20 _ λ b7.
            behind e v 21 _ λ b8. Leads-pure (FittingValue e v) IsSound FittingFields _ (λ w s. s))
  where
    past :
        (i : ℕ) (f : ℕ → Exec Fields)
        → ((x : ℕ) → Leads IsSound FittingFields IsSound (f x))
        → Leads IsSound FittingFields IsSound (byte_at file (offset + i) >>= f)
    past i f = past_byte IsSound (λ w s. s) FittingFields file (offset + i) f

    behind :
        (e : ℕ) (v : Value) (i : ℕ) (f : ℕ → Exec Fields)
        → ((x : ℕ) → Leads (FittingValue e v) FittingFields IsSound (f x))
        → Leads (FittingValue e v) FittingFields IsSound (byte_at file (offset + i) >>= f)
    behind e v i f = past_byte (FittingValue e v) (λ w s. s.0) FittingFields file (offset + i) f
