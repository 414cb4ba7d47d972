-- ===== src/Sensor/Discrete/Mirror.antt =====
-- The stored value of a discrete sensor (sensor.py) and the register that the simulator keeps for it.
use idic.Prelude.{
  ℕ, ◌≤◌, ◌<◌, ◌≡◌, refl, sym, ap, ◌∙◌, arith, true, some, List, [], ◌∷◌, ◌++◌, map, set, get_elem?,
  get_elem?-set_self, lt-length_of_get_elem?, ltb, if◌then◌else◌, ◌==◌,
}
use idic.Prelude.Int.{ℤ, pos}
use idic.Bits.Single.{bit}
use idic.Text.{Text}
use idic.Model.{World, Sensor, text, Result, Done}
use idic.Common.Sending.{IsAnswering}
use idic.Sensor.Attributes.{discrete, kind_of}
use idic.Sensor.Discrete.{
  bit_line, bits_16, list_diff, is_discrete_text, set_discrete_value, set_state, with_bit,
  value_text_of,
}
use idic.Sensor.Discrete.Diffs.{Register, set_bit, apply_bits, register_bits}
use idic.Sensor.Discrete.Words.{reads, reads-value_text_of, register_bits-bit, with_bit-bit}
use idic.Sensor.Discrete.Sent.{set_discrete_value_lem}
use idic.Sensor.Discrete.State.{set_state_lem}

below_15 : (j x y : ℕ) → j < 15 → (if ltb j 15 then x else y) ≡ x
below_15 j x y h = ground arith

-- The value reads as a number of sixteen bits, and the register has its bits on the states 0 to 14.
pub record Mirrors (r : Register) (s : Sensor) : Type 0 where
  pub old : Text
  pub number : ℕ
  pub has : s.value ≡ text old
  pub reads_as : reads old ≡ some (pos number)
  pub small : number < 65536
  pub agrees : (j : ℕ) → j < 15 → r j ≡ bit j number

module _ (a : ℕ) (s : Sensor) (mc lun kind : ℕ) (r : Register) (w : World)
    (answering : IsAnswering w.outside) (found : get_elem? w.heap a ≡ some s)
    (has_mc : s.mc ≡ some mc) (has_lun : s.lun ≡ some lun) (has_kind : s.event_type ≡ some kind)
    (is_discrete : kind_of kind ≡ discrete) (mirrored : Mirrors r s) where
  stored_there : (t : Sensor) → get_elem? (set w.heap a t) a ≡ some t
  stored_there t = get_elem?-set_self w.heap a t (lt-length_of_get_elem? w.heap a found)

  -- For a discrete sensor that the simulator's register mirrors, a state id of 0 to 14 and a bit of 0
  -- or 1: set_state sends one command, to write that bit, and the register with that bit written
  -- mirrors the sensor behind it.
  pub set_state-Mirrors :
      (i b : ℕ)
      → i ≤ 14
      → b ≤ 1
      → ((set_state a (pos i) (pos b) w).1.sent ≡ w.sent ++ bit_line mc lun s.id (i, b) ∷ [])
        × (t : Sensor) × (get_elem? (set_state a (pos i) (pos b) w).1.heap a ≡ some t)
        × Mirrors (set_bit i b r) t
  set_state-Mirrors i b hi hb =
      let done =
        set_state_lem a s kind w found has_kind is_discrete mirrored.old mc lun
          (pos mirrored.number) (record { reply = answering.reply; at = answering.at }) has_mc
          has_lun mirrored.has mirrored.reads_as (pos i) (pos b) (ground arith) (ground arith) in
      let (m, e, small, bits) =
        with_bit-bit mirrored.number i b mirrored.small (omega (arith, hi)) hb in
      let new : Text = value_text_of (with_bit (pos mirrored.number) i b) in
      let t : Sensor = record s { value = text new } in
      (
        ap (λ (p : Result Done × World). p.1.sent) done,
        t,
        ap (λ (p : Result Done × World). get_elem? p.1.heap a) done ∙ stored_there t,
        record {
          old = new;
          number = m;
          has = refl;
          reads_as = ap (λ (n : ℤ). reads (value_text_of n)) e ∙ reads-value_text_of m small;
          small = small;
          agrees =
              λ j h. ap (λ (x : ℕ). if i == j then b else x) (mirrored.agrees j h) ∙ sym (bits j);
        },
      )

  -- For a discrete sensor that the simulator's register mirrors, and a new value that reads as a
  -- number of sixteen bits: set_discrete_value sends a list of bits, one command for each, and the
  -- register with those written in order mirrors the sensor behind it.
  pub set_discrete_value-Mirrors :
      (value : Text) (m : ℕ)
      → is_discrete_text value ≡ true
      → reads value ≡ some (pos m)
      → m < 65536
      → (ds : List (ℕ × ℕ)) × ((set_discrete_value a value w).1.sent
          ≡ w.sent ++ map (bit_line mc lun s.id) ds)
        × (t : Sensor) × (get_elem? (set_discrete_value a value w).1.heap a ≡ some t)
        × Mirrors (apply_bits ds r) t
  set_discrete_value-Mirrors value m six new_reads small =
      let ds : List (ℕ × ℕ) = list_diff 15 0 (bits_16 (pos mirrored.number)) (bits_16 (pos m)) in
      let (done, ends) =
        set_discrete_value_lem a value mirrored.old s mc lun kind (pos mirrored.number) (pos m) w
          (record { reply = answering.reply; at = answering.at }) found has_mc has_lun has_kind
          is_discrete mirrored.has six mirrored.reads_as new_reads in
      let t : Sensor = record s { value = text value } in
      let old_bits : (j : ℕ) → j < 15 → r j ≡ register_bits (bits_16 (pos mirrored.number)) j =
        λ j h.
          mirrored.agrees j h
          ∙ sym (register_bits-bit mirrored.number j mirrored.small (omega (arith, h))) in
      (
        ds,
        ap (λ (p : Result Done × World). p.1.sent) done,
        t,
        ap (λ (p : Result Done × World). get_elem? p.1.heap a) done ∙ stored_there t,
        record {
          old = value;
          number = m;
          has = refl;
          reads_as = new_reads;
          small = small;
          agrees = λ j h.
              ends r old_bits j
              ∙ below_15 j (register_bits (bits_16 (pos m)) j) (r j) h
              ∙ register_bits-bit m j small (omega (arith, h));
        },
      )
