-- ===== src/Sdr/Reads.antt =====
-- The parts of sdr.py that build and change no sensor: they preserve what a call of ipmitool does.
use idic.Prelude.{ℕ, zero, suc, ◌+◌, Option, none, some, List, ◌∷◌}
use idic.Prelude.Int.{pos}
use idic.Text.{Text}
use idic.Model.{World, Sensor, number, absent, pure}
use idic.Model.Outcomes.{
  Preserves, Preserves-pure, Preserves-lift, Preserves-attribute, Preserves-bind,
}
use idic.Common.{send_ipmitool_command}
use idic.Sensor.Attributes.{EventKind, na, threshold, discrete, kind_of, initialize_sel}
use idic.Sensor.Reading.{get_reading_factor}
use idic.Sdr.{
  dump_all_sdrs, part, read_value, read_sensor_raw_value, initial_value, byte_at, read_name,
  read_fields,
}

module _ (I : World → Type 0) where
  pub kept_byte_at : (file : List ℕ) (i : ℕ) → Preserves I (byte_at file i)
  kept_byte_at file i = Preserves-lift I _

  pub kept_read_name : (file : List ℕ) (i n : ℕ) → Preserves I (read_name file i n)
  unfolding read_name
  kept_read_name file i zero = Preserves-pure I _
  kept_read_name file i (suc n) = Preserves-bind I (byte_at file i) _ (kept_byte_at file i) (λ c.
      Preserves-bind I (read_name file (i + 1) n) _ (kept_read_name file (i + 1) n)
        (λ rest. Preserves-pure I (c ∷ rest)))

  pub kept_reading_factor : (s : Sensor) → Preserves I (get_reading_factor s)
  unfolding get_reading_factor
  kept_reading_factor s = search (Preserves-bind, Preserves-attribute, Preserves-pure) depth 10

  pub kept_initialize_sel : (s : Sensor) → Preserves I (initialize_sel s)
  unfolding initialize_sel
  kept_initialize_sel s = search (Preserves-bind, Preserves-attribute, Preserves-pure)

module _ (I : World → Type 0)
    (calls : (cmds : List Text) → Preserves I (send_ipmitool_command cmds)) where
  pub kept_dump : (name : Text) → Preserves I (dump_all_sdrs name)
  unfolding dump_all_sdrs
  kept_dump name = search (Preserves-bind, calls, Preserves-pure)

  kept_part : (parts : List Text) (i : ℕ) → Preserves I (part parts i)
  kept_part parts i = Preserves-lift I _

  kept_read_value : (k : EventKind) (t : Text) → Preserves I (read_value k t)
  unfolding read_value
  kept_read_value threshold t = search (Preserves-bind, kept_part, Preserves-lift, Preserves-pure)
  kept_read_value discrete t = search (Preserves-bind, kept_part, Preserves-pure)
  kept_read_value na t = Preserves-pure I _

  kept_read_raw : (n : ℕ) (k : EventKind) → Preserves I (read_sensor_raw_value n k)
  unfolding read_sensor_raw_value
  kept_read_raw n k = Preserves-bind I _ _ (calls _) answered
    where
      answered :
          (r : Option Text)
          → Preserves I (elim r [ none ↦ pure (number (pos 0)) | some out ↦ read_value k out ])
      answered none = Preserves-pure I _
      answered (some out) = kept_read_value k out

  kept_initial_value : (n e : ℕ) → Preserves I (initial_value n e)
  unfolding initial_value
  kept_initial_value n e = by_kind (kind_of e)
    where
      by_kind :
          (k : EventKind)
          → Preserves I (elim k [
            | na ↦ pure absent
            | threshold ↦ read_sensor_raw_value n threshold
            | discrete ↦ read_sensor_raw_value n discrete
          ])
      by_kind na = Preserves-pure I _
      by_kind threshold = kept_read_raw n threshold
      by_kind discrete = kept_read_raw n discrete

  pub kept_read_fields : (file : List ℕ) (offset : ℕ) → Preserves I (read_fields file offset)
  unfolding read_fields
  kept_read_fields file offset =
      search (Preserves-bind, kept_byte_at, kept_initial_value, Preserves-pure) depth 20
