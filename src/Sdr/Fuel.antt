-- ===== src/Sdr/Fuel.antt =====
-- The loop of `parse_sdrs` (sdr.py) ends: each record moves the offset on.
use idic.Prelude.{
  ℕ, zero, suc, ◌+◌, ◌≤◌, ◌<◌, ◌≡◌, ◌≢◌, refl, Bool, true, false, ◌&&◌, not, Option, none, some,
  List, arith, ltb, ◌==◌, length,
}
use idic.Text.{codes}
use idic.Model.{World, ok, ◌>>=◌, ◌>>◌, pure, raise, system_exit}
use idic.Model.Outcomes.{
  Returns, Returns-bind, Returns-bind_of, Returns-if, Returns-pure, Returns-raise,
}
use idic.Sdr.{byte_at, parse_sensor, parse_record, parse_from, parse_sdrs, dump_all_sdrs}

-- A record is at least as long as its header of five bytes.
parse_record-Returns :
    (file : List ℕ) (offset : ℕ) → Returns (λ after. offset + 5 ≤ after) (parse_record file offset)
unfolding parse_record
parse_record-Returns file offset = Returns-bind Q (byte_at file (offset + 3)) _ (λ t.
    Returns-bind Q (byte_at file (offset + 4)) _ (λ l.
      Returns-if Q (not (t == 0x1) && not (t == 0x2)) (pure (offset + (5 + l)))
        (parse_sensor file offset t l >> pure (offset + l + 5))
        (λ skip. Returns-pure Q (offset + (5 + l)) (omega arith))
        (λ known.
          Returns-bind Q (parse_sensor file offset t l) (λ d. pure (offset + l + 5))
            (λ d. Returns-pure Q (offset + l + 5) (omega arith)))))
  where
    Q : ℕ → Type 0
    Q after = offset + 5 ≤ after

parse_from-Returns :
    (fuel : ℕ) (file : List ℕ) (offset : ℕ)
    → 0 < fuel
    → length file < offset + fuel
    → Returns (λ b. b ≡ true) (parse_from fuel file offset)
unfolding parse_from
parse_from-Returns zero file offset some_fuel enough = absurd (omega arith)
parse_from-Returns (suc fuel) file offset some_fuel enough =
    Returns-if Q (ltb offset (length file)) (parse_record file offset >>= parse_from fuel file)
      (pure true)
      (λ inside.
        Returns-bind_of Q (λ after. offset + 5 ≤ after) (parse_record file offset)
          (parse_from fuel file) (parse_record-Returns file offset)
          (λ after moved. parse_from-Returns fuel file after (ground arith) (omega arith)))
      (λ outside. Returns-pure Q true refl)
  where
    Q : Bool → Type 0
    Q b = b ≡ true

-- The fuel that `parse_sdrs` gives its loop is always enough: whatever the dump and the answers of
-- ipmitool are, its run ends with the end of the file or with an exception, never with the end of the
-- fuel.
pub parse_sdrs_ends : (dumped : Option (List ℕ)) (w : World) → (parse_sdrs dumped w).0 ≢ ok false
unfolding parse_sdrs
parse_sdrs_ends dumped w = λ out_of_fuel.
    let no : false ≡ true =
      (Returns-bind Q (dump_all_sdrs (codes "sdr.bin")) _ (λ d. rest dumped)).at w false
        out_of_fuel in
    absurd (cc)
  where
    Q : Bool → Type 0
    Q b = b ≡ true

    rest :
        (dumped : Option (List ℕ))
        → Returns Q (elim dumped [
          | none ↦ raise system_exit
          | some file ↦ parse_from (length file + 1) file 0
        ])
    rest none = Returns-raise Q system_exit
    rest (some file) = parse_from-Returns (length file + 1) file 0 (omega arith) (omega arith)
