-- ===== src/Sdr/Typed.antt =====
-- Parsing the dump (sdr.py) gives every sensor a value of its kind.
use mathlib.Core.Path.{subst}
use idic.Prelude.{
  ℕ, zero, suc, ◌+◌, ◌-◌, ◌≡◌, refl, sym, ap, arith, Bool, true, false, Option, none, some, List,
  ◌==◌, ltb, length, inl, inr, get_elem?-snoc_cases, lt-length_of_get_elem?,
}
use idic.Text.{Text, codes}
use idic.Model.{World, Sensor, new_sensor, raise, attribute, store, system_exit, ◌>>=◌, ◌>>◌}
use idic.Model.Outcomes.{
  Preserves, Preserves-pure, Preserves-lift, Preserves-attribute, Preserves-bind, Preserves-if,
}
use idic.Model.Leads.{
  Leads, Leads-bind, Leads-past, Leads-pure, Leads-given, Leads-kept, Leads-if, Leads-Preserves,
}
use idic.Common.{send_ipmitool_command}
use idic.Sensor.Attributes.{kind_of, initialize_sel}
use idic.Sensor.Typed.{Fits, IsTyped, AllTyped}
use idic.Sdr.{
  build_sensors, dump_all_sdrs, byte_at, read_name, Fields, read_fields, build_named, read_full,
  set_fields, finish_sensor, parse_sensor, parse_record, parse_from, parse_sdrs,
}
use idic.Sdr.Reads.{kept_read_name, kept_dump}
use idic.Sdr.Values.{PrintsBytes, same-IsSound, IsSound, FittingFields, read_fields-Fits}
use idic.Sdr.Fresh.{IsFresh, store-IsSound, untyped-IsTyped, object-IsFresh, kept_read_full}

Sound : {A : Type 0} → A → World → Type 0
Sound x w = IsSound w

Sound-attribute : {A : Type 0} (o : Option A) → Preserves IsSound (attribute o)
Sound-attribute o = Preserves-attribute IsSound o

Sound-store : (a : ℕ) (t : Sensor) → IsTyped t → Preserves IsSound (store a t)
Sound-store a t h = record { at = λ w s. store-IsSound a t w h s }

-- The new object has no kind, and stands behind the others.
build_sensors-IsFresh :
    (name : Text) (f : Fields)
    → Leads IsSound (IsFresh f) IsSound (build_sensors name f.num f.mc f.value f.tp)
unfolding build_sensors
build_sensors-IsFresh name f = record {
  at = λ w s. record {
    sound = record {
      typed = λ a x e. elim (get_elem?-snoc_cases w.heap a new e) [
        | inl old ↦ s.typed a x old
        | inr (at_end, same) ↦ subst IsTyped (sym same) (untyped-IsTyped new refl)
      ];
      prints = s.prints;
    };
    untyped = λ x e. elim (get_elem?-snoc_cases w.heap (length w.heap) new e) [
      | inl old ↦
          let inside = lt-length_of_get_elem? w.heap (length w.heap) old in absurd (omega arith)
      | inr (at_end, same) ↦
          (ap (λ (t : Sensor). t.event_type) same, ap (λ (t : Sensor). t.value) same)
    ];
  };
}
  where
    new : Sensor
    new = new_sensor name f.num f.value f.tp

build_named-IsFresh :
    (file : List ℕ) (offset record_length start : ℕ) (f : Fields)
    → Leads IsSound (IsFresh f) IsSound (build_named file offset record_length start f)
unfolding build_named
build_named-IsFresh file offset record_length start f =
    Leads-past IsSound IsSound (λ w s. s) (IsFresh f)
      (read_name file (offset + start) (5 + record_length - start)) _
      (kept_read_name IsSound file (offset + start) (5 + record_length - start))
      (λ name. build_sensors-IsFresh name f)

-- Another event record does not change the type of the value.
initialize_sel-IsTyped :
    (s : Sensor)
    → IsTyped s
    → Leads IsSound (λ t w. IsSound w × IsTyped t) IsSound (initialize_sel s)
unfolding initialize_sel
initialize_sel-IsTyped s h =
    Leads-past IsSound IsSound (λ w k. k) _ (attribute s.mc) _ (Sound-attribute s.mc)
      (λ mc.
        Leads-past IsSound IsSound (λ w k. k) _ (attribute s.lun) _ (Sound-attribute s.lun)
          (λ lun.
            Leads-past IsSound IsSound (λ w k. k) _ (attribute s.event_type) _
              (Sound-attribute s.event_type) (λ e. Leads-pure IsSound IsSound _ _ (λ w k. (k, h)))))

filled-IsTyped :
    (f : Fields) (s : Sensor)
    → Fits (kind_of f.event_type) f.value
    → s.value ≡ f.value
    → IsTyped (set_fields f s)
filled-IsTyped f s fit e n k =
    let same : f.event_type ≡ n = cc in
    subst (λ m. Fits (kind_of m) s.value) same (subst (Fits (kind_of f.event_type)) (sym e) fit)

module _ (f : Fields) (fit : Fits (kind_of f.event_type) f.value) (a : ℕ) where
  filled-IsSound :
      (s : Sensor)
      → s.value ≡ f.value
      → Preserves IsSound
          (store a (set_fields f s) >> (initialize_sel (set_fields f s) >>= λ ready. store a ready))
  filled-IsSound s e =
      Preserves-bind IsSound (store a (set_fields f s)) _
        (Sound-store a (set_fields f s) (filled-IsTyped f s fit e))
        (λ d. Leads-Preserves IsSound _ (
          Leads-bind IsSound IsSound (λ t w. IsSound w × IsTyped t) (λ x. IsSound)
            (initialize_sel (set_fields f s)) _
            (initialize_sel-IsTyped (set_fields f s) (filled-IsTyped f s fit e))
            (λ t.
              Leads-given (IsTyped t) IsSound IsSound _ (store a t)
                (λ h. Leads-kept IsSound IsSound (λ w k. k) (store a t) (Sound-store a t h)))))

  finish_sensor-IsSound : Leads (IsFresh f a) (λ x. IsSound) IsSound (finish_sensor f a)
  unfolding finish_sensor
  finish_sensor-IsSound =
      object-IsFresh f a IsSound (λ x. IsSound) _ (λ w h. h.sound)
        (λ s e v. record {
          at = λ w h. (Leads-kept IsSound IsSound (λ u k. k) _ (filled-IsSound s v)).at w h.sound;
        })

  full-IsSound :
      (file : List ℕ) (offset : ℕ)
      → Leads
          (IsFresh f a)
          (λ x. IsSound)
          IsSound
          (read_full file offset a >>= λ d. finish_sensor f a)
  full-IsSound file offset =
      Leads-past (IsFresh f a) IsSound (λ w h. h.sound) (λ x. IsSound) (read_full file offset a)
        (λ d. finish_sensor f a) (kept_read_full f a file offset) (λ d. finish_sensor-IsSound)

parse_sensor-IsSound :
    (file : List ℕ) (offset t l : ℕ) → Preserves IsSound (parse_sensor file offset t l)
unfolding parse_sensor
parse_sensor-IsSound file offset t l = Leads-Preserves IsSound _ (
    Leads-bind IsSound IsSound FittingFields (λ x. IsSound) (read_fields file offset) _
      (read_fields-Fits file offset)
      (λ f.
        Leads-given (Fits (kind_of f.event_type) f.value) IsSound IsSound (λ x. IsSound) _
          (λ fit.
            Leads-if IsSound IsSound (λ x. IsSound) (t == 0x1) _ _
              (Leads-bind IsSound IsSound (IsFresh f) (λ x. IsSound)
                (build_named file offset l 48 f) _ (build_named-IsFresh file offset l 48 f)
                (λ a. full-IsSound f fit a file offset))
              (Leads-bind IsSound IsSound (IsFresh f) (λ x. IsSound)
                (build_named file offset l 32 f) _ (build_named-IsFresh file offset l 32 f)
                (λ a. finish_sensor-IsSound f fit a)))))

Sound-byte_at : (file : List ℕ) (i : ℕ) → Preserves IsSound (byte_at file i)
Sound-byte_at file i = Preserves-lift IsSound _

parse_record-IsSound : (file : List ℕ) (offset : ℕ) → Preserves IsSound (parse_record file offset)
unfolding parse_record
parse_record-IsSound file offset =
    search (Preserves-bind, Preserves-if, Sound-byte_at, parse_sensor-IsSound, Preserves-pure)

parse_from-IsSound :
    (fuel : ℕ) (file : List ℕ) (offset : ℕ) → Preserves IsSound (parse_from fuel file offset)
unfolding parse_from
parse_from-IsSound zero file offset = Preserves-pure IsSound false
parse_from-IsSound (suc fuel) file offset =
    Preserves-if IsSound (ltb offset (length file)) _ _
      (Preserves-bind IsSound (parse_record file offset) (parse_from fuel file)
        (parse_record-IsSound file offset) (parse_from-IsSound fuel file))
      (Preserves-pure IsSound true)

Sound-call : (cmds : List Text) → Preserves IsSound (send_ipmitool_command cmds)
unfolding send_ipmitool_command
Sound-call cmds = record {
  at = λ w s. same-IsSound (send_ipmitool_command cmds w).1 w (ground arith) (ground arith) s;
}

-- Where ipmitool prints the bytes of a reading as two digits each, parsing a dump builds sensors
-- whose values have the type of their kind, also where it raises in the middle of a record: a
-- threshold sensor holds a number, a discrete one 0x and four characters, or 0 after a failed call,
-- and one of no kind holds nothing.
pub parse_sdrs-AllTyped :
    (dumped : Option (List ℕ)) (w : World)
    → PrintsBytes w.outside
    → AllTyped w
    → AllTyped (parse_sdrs dumped w).1
unfolding parse_sdrs
parse_sdrs-AllTyped dumped w prints typed =
    ((Preserves-bind IsSound (dump_all_sdrs (codes "sdr.bin")) _ (kept_dump IsSound Sound-call _)
        (λ d. rest dumped)).at
      w (record { typed = typed; prints = prints })).typed
  where
    rest :
        (dumped : Option (List ℕ))
        → Preserves IsSound (elim dumped [
          | none ↦ raise {A = Bool} system_exit
          | some file ↦ parse_from (length file + 1) file 0
        ])
    rest none = record { at = λ w r. r }
    rest (some file) = parse_from-IsSound (length file + 1) file 0
