-- ===== src/Sensor/Discrete/Diffs.antt =====
-- What `set_discrete_value` sends: the bits that differ, so that the simulator's register becomes
-- the new value.
use idic.Prelude.{
  ℕ, zero, suc, ◌+◌, ◌-◌, ◌≤◌, ◌<◌, ◌≡◌, refl, List, [], ◌∷◌, arith, ltb, ◌==◌, if◌then◌else◌,
}
use idic.Text.{Text}
use idic.Sensor.Discrete.{char_at, list_diff}

-- The simulator's register as a function from state ids to bits, and `sensor_set_bit`.
abbrev pub Register : Type 0
Register = ℕ → ℕ

abbrev pub set_bit : ℕ → ℕ → Register → Register
set_bit i b r j = if i == j then b else r j

-- The commands in the order in which they are sent.
abbrev pub apply_bits : List (ℕ × ℕ) → Register → Register
apply_bits [] r = r
apply_bits ((i, b) ∷ rest) r = apply_bits rest (set_bit i b r)

-- The bits of a text of sixteen binary digits, the lowest last.
unfoldable pub register_bits : Text → Register
register_bits t i = char_at t (15 - i) - b'0'

-- A state id below the loop's counter is left alone.
apply_bits-list_diff_below :
    (rounds i j : ℕ) (orig targ : Text) (r : Register)
    → j < i
    → apply_bits (list_diff rounds i orig targ) r j ≡ r j
unfolding list_diff
apply_bits-list_diff_below zero i j orig targ r h = refl
apply_bits-list_diff_below (suc rounds) i j orig targ r h = ground (
  arith,
  apply_bits-list_diff_below rounds (i + 1) j orig targ r,
  apply_bits-list_diff_below rounds (i + 1) j orig targ
      (set_bit i (char_at targ (15 - i) - b'0') r),
)

-- A state id of the loop's range ends as in the target, if it began as in the original.
apply_bits-list_diff_range :
    (rounds i j : ℕ) (orig targ : Text) (r : Register)
    → i ≤ j
    → j < i + rounds
    → r j ≡ register_bits orig j
    → apply_bits (list_diff rounds i orig targ) r j ≡ register_bits targ j
unfolding list_diff register_bits
apply_bits-list_diff_range zero i j orig targ r h k e = absurd (omega arith)
apply_bits-list_diff_range (suc rounds) i j orig targ r h k e = ground (
  arith,
  apply_bits-list_diff_below rounds (i + 1) j orig targ r,
  apply_bits-list_diff_below rounds (i + 1) j orig targ
      (set_bit i (char_at targ (15 - i) - b'0') r),
  apply_bits-list_diff_range rounds (i + 1) j orig targ r,
  apply_bits-list_diff_range rounds (i + 1) j orig targ
      (set_bit i (char_at targ (15 - i) - b'0') r),
)

apply_bits-list_diff_above :
    (rounds i j : ℕ) (orig targ : Text) (r : Register)
    → i + rounds ≤ j
    → apply_bits (list_diff rounds i orig targ) r j ≡ r j
unfolding list_diff
apply_bits-list_diff_above zero i j orig targ r h = refl
apply_bits-list_diff_above (suc rounds) i j orig targ r h = ground (
  arith,
  apply_bits-list_diff_above rounds (i + 1) j orig targ r,
  apply_bits-list_diff_above rounds (i + 1) j orig targ
      (set_bit i (char_at targ (15 - i) - b'0') r),
)

-- The bits that `set_discrete_value` sends take a register that holds the original value to one
-- that agrees with the target on the states 0 to 14; every other bit stays.
pub apply_bits-list_diff :
    (orig targ : Text) (r : Register)
    → ((j : ℕ) → j < 15 → r j ≡ register_bits orig j)
    → (j : ℕ)
    → apply_bits (list_diff 15 0 orig targ) r j ≡ (if ltb j 15 then register_bits targ j else r j)
apply_bits-list_diff orig targ r same j = ground (
  arith,
  same j,
  apply_bits-list_diff_range 15 0 j orig targ r,
  apply_bits-list_diff_above 15 0 j orig targ r,
)
