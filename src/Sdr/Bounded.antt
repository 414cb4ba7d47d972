-- ===== src/Sdr/Bounded.antt =====
-- The thresholds that a dump of bytes gives the sensors (sdr.py).
use idic.Prelude.{ℕ, zero, suc, ◌+◌, ◌≤◌, true, false, some, List, ltb, length}
use idic.Text.{codes}
use idic.Model.{World, Sensor, Exec, store, ◌>>=◌}
use idic.Model.Outcomes.{
  Preserves, Preserves-pure, Preserves-attribute, Preserves-bind, Preserves-if,
}
use idic.Model.Leads.{
  Leads, Leads-bind, Leads-past, Leads-pure, Leads-given, Leads-kept, Leads-Preserves,
}
use idic.Sensor.Attributes.{initialize_sel, set_unr, set_uc, set_unc, set_lnr, set_lc, set_lnc}
use idic.Sensor.Drawing.Bounds.{HasBytes}
use idic.Sdr.Reads.{kept_byte_at, kept_read_name, kept_reading_factor, kept_dump, kept_read_fields}
use idic.Sdr.{
  dump_all_sdrs, set_byte, Fields, read_fields, build_named, read_full, set_fields, finish_sensor,
  parse_sensor, parse_record, parse_from, parse_sdrs,
}
use idic.Sdr.Bytes.{
  AllBytes, IsByteFile, from_six, bytes_store, bytes_build, bytes_object, bytes_set_byte,
  bytes_call, set_unr-HasBytes, set_uc-HasBytes, set_unc-HasBytes, set_lnr-HasBytes,
  set_lc-HasBytes, set_lnc-HasBytes,
}

module _ (file : List ℕ) (bytes : IsByteFile file) where
  bytes_threshold :
      (a : ℕ) (setter : ℕ → Sensor → Sensor) (i : ℕ)
      → ((x : ℕ) (s : Sensor) → x ≤ 255 → HasBytes s → HasBytes (setter x s))
      → Preserves AllBytes (set_byte a setter file i)
  bytes_threshold a setter i k = bytes_set_byte a setter file i bytes k

  -- The six stores of a full record.
  bytes_read_full : (offset a : ℕ) → Preserves AllBytes (read_full file offset a)
  unfolding read_full
  bytes_read_full offset a = past (kept_byte_at AllBytes file (offset + 24)) λ b1.
      past (kept_byte_at AllBytes file (offset + 25)) λ b2.
        past (kept_byte_at AllBytes file (offset + 26)) λ b3.
          past (kept_byte_at AllBytes file (offset + 27)) λ b4.
            past (kept_byte_at AllBytes file (offset + 28)) λ b5.
              past (kept_byte_at AllBytes file (offset + 29)) λ b6. bytes_object a _ λ s b.
                past (bytes_store a _ (from_six _ b.lnr b.lc b.lnc b.unc b.uc b.unr)) λ d0.
                  past (bytes_threshold a set_unr (offset + 36) set_unr-HasBytes) λ d1.
                    past (bytes_threshold a set_uc (offset + 37) set_uc-HasBytes) λ d2.
                      past (bytes_threshold a set_unc (offset + 38) set_unc-HasBytes) λ d3.
                        past (bytes_threshold a set_lnr (offset + 39) set_lnr-HasBytes) λ d4.
                          past (bytes_threshold a set_lc (offset + 40) set_lc-HasBytes) λ d5.
                            past (bytes_threshold a set_lnc (offset + 41) set_lnc-HasBytes) λ d6.
                              bytes_object a _ λ filled c.
                                past (kept_reading_factor AllBytes filled)
                                  λ factor. Preserves-pure AllBytes tt
    where
      past :
          {A B : Type 0} {m : Exec A} {g : A → Exec B}
          → Preserves AllBytes m
          → ((x : A) → Preserves AllBytes (g x))
          → Preserves AllBytes (m >>= g)
      past {m} {g} h k = Preserves-bind AllBytes m g h k

-- Another event record has nothing to do with the thresholds.
bytes_initialize_sel :
    (s : Sensor)
    → HasBytes s
    → Leads AllBytes (λ t w. AllBytes w × HasBytes t) AllBytes (initialize_sel s)
unfolding initialize_sel
bytes_initialize_sel s b = past (Preserves-attribute AllBytes s.mc) λ mc.
    past (Preserves-attribute AllBytes s.lun) λ lun.
      past (Preserves-attribute AllBytes s.event_type) λ e.
        Leads-pure AllBytes AllBytes _ _ (λ w k. (k, from_six _ b.lnr b.lc b.lnc b.unc b.uc b.unr))
  where
    past :
        {A : Type 0} {m : Exec A} {g : A → Exec Sensor}
        → Preserves AllBytes m
        → ((x : A) → Leads AllBytes (λ t w. AllBytes w × HasBytes t) AllBytes (g x))
        → Leads AllBytes (λ t w. AllBytes w × HasBytes t) AllBytes (m >>= g)
    past {m} {g} h k = Leads-past AllBytes AllBytes (λ w i. i) _ m g h k

bytes_finish : (f : Fields) (a : ℕ) → Preserves AllBytes (finish_sensor f a)
unfolding finish_sensor
bytes_finish f a = bytes_object a _ (λ s b. filled (set_fields f s) (same f s b))
  where
    same : (f : Fields) (s : Sensor) → HasBytes s → HasBytes (set_fields f s)
    same f s b = from_six (set_fields f s) b.lnr b.lc b.lnc b.unc b.uc b.unr

    filled :
        (t : Sensor)
        → HasBytes t
        → Preserves AllBytes (store a t >>= λ d. initialize_sel t >>= store a)
    filled t b = Preserves-bind AllBytes (store a t) _ (bytes_store a t b) (λ d.
        Leads-Preserves AllBytes _ (
          Leads-bind AllBytes AllBytes (λ t w. AllBytes w × HasBytes t) (λ x. AllBytes)
            (initialize_sel t) (store a) (bytes_initialize_sel t b)
            (λ ready.
              Leads-given (HasBytes ready) AllBytes AllBytes _ (store a ready)
                (λ h. Leads-kept AllBytes AllBytes (λ w k. k) _ (bytes_store a ready h)))))

bytes_build_named :
    (file : List ℕ) (offset record_length start : ℕ) (f : Fields)
    → Preserves AllBytes (build_named file offset record_length start f)
unfolding build_named
bytes_build_named file offset record_length start f =
    search (Preserves-bind, kept_read_name, bytes_build)

bytes_read_fields : (file : List ℕ) (offset : ℕ) → Preserves AllBytes (read_fields file offset)
bytes_read_fields = kept_read_fields AllBytes bytes_call

module _ (file : List ℕ) (bytes : IsByteFile file) where
  full : (offset a : ℕ) → Preserves AllBytes (read_full file offset a)
  full = bytes_read_full file bytes

  bytes_parse_sensor : (offset t l : ℕ) → Preserves AllBytes (parse_sensor file offset t l)
  unfolding parse_sensor
  bytes_parse_sensor offset t l =
      search
        (Preserves-bind, Preserves-if, bytes_read_fields, bytes_build_named, full, bytes_finish)

  bytes_parse_record : (offset : ℕ) → Preserves AllBytes (parse_record file offset)
  unfolding parse_record
  bytes_parse_record offset =
      search (Preserves-bind, Preserves-if, kept_byte_at, bytes_parse_sensor, Preserves-pure)

  bytes_parse_from : (fuel offset : ℕ) → Preserves AllBytes (parse_from fuel file offset)
  unfolding parse_from
  bytes_parse_from zero offset = Preserves-pure AllBytes false
  bytes_parse_from (suc fuel) offset =
      Preserves-if AllBytes (ltb offset (length file)) _ _
        (Preserves-bind AllBytes (parse_record file offset) (parse_from fuel file)
          (bytes_parse_record offset) (bytes_parse_from fuel))
        (Preserves-pure AllBytes true)

-- A dump of bytes gives every sensor thresholds that are bytes, also where parsing raises in the
-- middle of a record.
pub parse_sdrs-AllBytes :
    (file : List ℕ) (w : World)
    → IsByteFile file
    → AllBytes w
    → AllBytes (parse_sdrs (some file) w).1
unfolding parse_sdrs
parse_sdrs-AllBytes file w bytes =
    (Preserves-bind AllBytes (dump_all_sdrs (codes "sdr.bin")) _ (kept_dump AllBytes bytes_call _)
        (λ d. bytes_parse_from file bytes (length file + 1) 0)).at
      w
