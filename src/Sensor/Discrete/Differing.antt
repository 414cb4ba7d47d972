-- ===== src/Sensor/Discrete/Differing.antt =====
-- Which bits `set_discrete_value` (sensor.py) sends: those that differ, each once.
use idic.Prelude.{
  ℕ, zero, suc, ◌+◌, ◌-◌, ◌≤◌, ◌<◌, ◌≡◌, refl, ap, ◌∙◌, Bool, true, false, not, ◌&&◌, some, List,
  [], ◌∷◌, ◌++◌, map, set, get_elem?, length, arith, ltb, ◌==◌, if◌then◌else◌, ◌⊎◌, inl, Bool-cases,
  ==_iff, inr, append-nil,
}
use idic.Prelude.Int.{pos}
use idic.Bits.Single.{bit, bit_le}
use idic.Text.{Text, digit_char}
use idic.Model.{Sensor, World, text, ok}
use idic.Common.Sending.{IsAnswering}
use idic.Sensor.Attributes.{discrete, kind_of}
use idic.Sensor.Discrete.{
  bit_line, bits_16, list_diff, char_at, is_discrete_text, set_discrete_value,
}
use idic.Sensor.Discrete.Words.{reads, char_at-bits_16}
use idic.Sensor.Discrete.Sent.{set_discrete_value_lem, count_sessions}

-- What is written to one state, in order.
abbrev pub writes_to : ℕ → List (ℕ × ℕ) → List ℕ
writes_to j [] = []
writes_to j ((i, b) ∷ rest) = if i == j then b ∷ writes_to j rest else writes_to j rest

-- Nothing to a state that the loop does not come to.
writes_to-outside :
    (rounds i j : ℕ) (orig targ : Text)
    → (j < i) ⊎ (i + rounds ≤ j)
    → writes_to j (list_diff rounds i orig targ) ≡ []
unfolding list_diff
writes_to-outside zero i j orig targ h = refl
writes_to-outside (suc rounds) i j orig targ (inl h) =
    ground (arith, writes_to-outside rounds (i + 1) j orig targ (inl (omega arith)))
writes_to-outside (suc rounds) i j orig targ (inr h) =
    ground (arith, writes_to-outside rounds (i + 1) j orig targ (inr (omega arith)))

-- The bit of the target, if the characters differ.
abbrev difference : ℕ → ℕ → List ℕ
difference c d = if c == d then [] else (d - b'0') ∷ []

writes_to-head :
    (i j c d : ℕ) (rest : List (ℕ × ℕ))
    → writes_to j (if c == d then rest else (i, d - b'0') ∷ rest)
      ≡ (if i == j then difference c d ++ writes_to j rest else writes_to j rest)
writes_to-head i j c d rest = by_bools (c == d) (i == j)
  where
    by_bools :
        (x y : Bool)
        → writes_to j (if x then rest else (i, d - b'0') ∷ rest) ≡ (
            if i == j
            then (if x then [] else (d - b'0') ∷ []) ++ writes_to j rest
            else writes_to j rest)
    by_bools true y = by_same (i == j)
      where
        by_same : (z : Bool) → writes_to j rest ≡ (if z then writes_to j rest else writes_to j rest)
        by_same true = refl
        by_same false = refl
    by_bools false y = refl

writes_to-list_diff :
    (rounds i j : ℕ) (orig targ : Text)
    → i ≤ j
    → j < i + rounds
    → writes_to j (list_diff rounds i orig targ)
      ≡ difference (char_at orig (15 - j)) (char_at targ (15 - j))
unfolding list_diff
writes_to-list_diff zero i j orig targ h k = absurd (omega arith)
writes_to-list_diff (suc rounds) i j orig targ h k =
    writes_to-head i j (char_at orig (15 - i)) (char_at targ (15 - i))
      (list_diff rounds (i + 1) orig targ)
    ∙ elim (Bool-cases (i == j)) [
      | inl here ↦
          let same : i ≡ j = (==_iff i j).0 here in
          rw here (
            ap (λ l. difference (char_at orig (15 - i)) (char_at targ (15 - i)) ++ l)
              (writes_to-outside rounds (i + 1) j orig targ (inl (omega arith)))
            ∙ append-nil _
            ∙ ap (λ n. difference (char_at orig (15 - n)) (char_at targ (15 - n))) same)
      | inr other ↦ rw other (
          writes_to-list_diff rounds (i + 1) j orig targ (omega (arith, differ i j h other))
            (omega arith))
    ]
  where
    differ : (i j : ℕ) → i ≤ j → (i == j) ≡ false → i < j
    differ i j h e = ground arith

-- In binary, the digits differ where the bits do.
difference-bit :
    (x y : ℕ)
    → x ≤ 1
    → y ≤ 1
    → difference (digit_char x) (digit_char y) ≡ (if x == y then [] else y ∷ [])
unfolding digit_char
difference-bit x y h k = ground arith

writes_to-bits :
    (n m j : ℕ)
    → n < 65536
    → m < 65536
    → writes_to j (list_diff 15 0 (bits_16 (pos n)) (bits_16 (pos m)))
      ≡ (if ltb j 15 && not (bit j n == bit j m) then bit j m ∷ [] else [])
writes_to-bits n m j hn hm = elim (Bool-cases (ltb j 15)) [
  | inl below ↦
      let lt : j < 15 = inside j below in
      writes_to-list_diff 15 0 j (bits_16 (pos n)) (bits_16 (pos m)) (omega arith)
        (omega (arith, lt))
      ∙ ap (λ c. difference c (char_at (bits_16 (pos m)) (15 - j)))
          (char_at-bits_16 n j hn (omega (arith, lt)))
      ∙ ap (difference (digit_char (bit j n))) (char_at-bits_16 m j hm (omega (arith, lt)))
      ∙ difference-bit (bit j n) (bit j m) (bit_le j n) (bit_le j m)
      ∙ rw below (by_bool (bit j n == bit j m))
  | inr above ↦
      writes_to-outside 15 0 j (bits_16 (pos n)) (bits_16 (pos m)) (inr (not_below j above))
      ∙ rw above
]
  where
    by_bool : (b : Bool) → (if b then [] else bit j m ∷ []) ≡ (if not b then bit j m ∷ [] else [])
    by_bool true = refl
    by_bool false = refl

    inside : (j : ℕ) → ltb j 15 ≡ true → j < 15
    inside j h = ground arith

    not_below : (j : ℕ) → ltb j 15 ≡ false → 15 ≤ j
    not_below j h = ground arith

count_sessions_lem : (n : ℕ) (ds : List (ℕ × ℕ)) → count_sessions n ds ≡ n + length ds
count_sessions_lem n [] = omega arith
count_sessions_lem n (d ∷ ds) = omega (arith, count_sessions_lem (n + 1) ds)

-- A discrete sensor with a value of sixteen bits takes another one: the new value is stored, and a
-- list of bits is sent, one command for each, and nothing else changes. To each of the states 0 to 14
-- whose bit differs, the list writes the new bit, once; to any other state, nothing.
pub set_discrete_value_differing :
    (a : ℕ) (value old : Text) (s : Sensor) (mc lun kind n m : ℕ) (w : World)
    → IsAnswering w.outside
    → get_elem? w.heap a ≡ some s
    → s.mc ≡ some mc
    → s.lun ≡ some lun
    → s.event_type ≡ some kind
    → kind_of kind ≡ discrete
    → s.value ≡ text old
    → is_discrete_text value ≡ true
    → reads old ≡ some (pos n)
    → reads value ≡ some (pos m)
    → n < 65536
    → m < 65536
    → (ds : List (ℕ × ℕ)) × (set_discrete_value a value w ≡ (
      ok tt,
      record w {
        heap = set w.heap a (record s { value = text value });
        sent = w.sent ++ map (bit_line mc lun s.id) ds;
        sessions = w.sessions + length ds;
      },
    ))
      × ((j : ℕ)
          → writes_to j ds ≡ (if ltb j 15 && not (bit j n == bit j m) then bit j m ∷ [] else []))
set_discrete_value_differing a value old s mc lun kind n m w ans e1 e2 e3 e4 e5 e6 e7 e8 e9 hn hm =
    let ds = list_diff 15 0 (bits_16 (pos n)) (bits_16 (pos m)) in
    (
      ds,
      (set_discrete_value_lem a value old s mc lun kind (pos n) (pos m) w ans e1 e2 e3 e4 e5 e6 e7
            e8 e9).0
          ∙ ap
              (λ k. (
                ok tt,
                record w {
                  heap = set w.heap a (record s { value = text value });
                  sent = w.sent ++ map (bit_line mc lun s.id) ds;
                  sessions = k;
                },
              ))
              (count_sessions_lem w.sessions ds),
      λ j. writes_to-bits n m j hn hm,
    )
