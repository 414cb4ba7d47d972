-- ===== src/Tests/Registers.antt =====
-- The theorems on the register of the simulator, at the door.
use idic.Prelude.{ℕ, ◌≡◌, refl, some, List, [], ◌∷◌, map, get_elem?, arith}
use idic.Prelude.Int.{pos}
use idic.Text.{Text}
use idic.Model.{Sensor}
use idic.Bits.Single.{bit}
use idic.Sensor.Discrete.{bit_line, set_state, set_discrete_value, is_discrete_text}
use idic.Sensor.Discrete.Diffs.{set_bit, apply_bits}
use idic.Sensor.Discrete.Mirror.{Mirrors, set_state-Mirrors, set_discrete_value-Mirrors}
use idic.Tests.Fixture.{world, door, quiet-IsAnswering}

-- The value 0x0180 stands for the number 0x8001.
door-Mirrors : Mirrors (λ j. bit j 0x8001) door
unfolding idic.Text.int_of_text idic.Text.slice
door-Mirrors = record {
  old = b'0' ∷ b'x' ∷ b'0' ∷ b'1' ∷ b'8' ∷ b'0' ∷ [];
  number = 0x8001;
  has = refl;
  reads_as = refl;
  small = omega arith;
  agrees = λ j h. refl;
}

set_state-Mirrors_example :
    ((set_state 1 (pos 3) (pos 1) world).1.sent ≡ bit_line 0x20 0 0x43 (3, 1) ∷ [])
    × (t : Sensor) × (get_elem? (set_state 1 (pos 3) (pos 1) world).1.heap 1 ≡ some t)
    × Mirrors (set_bit 3 1 (λ j. bit j 0x8001)) t
set_state-Mirrors_example =
    set_state-Mirrors 1 door 0x20 0 0x6F (λ j. bit j 0x8001) world quiet-IsAnswering refl refl refl
      refl refl door-Mirrors 3 1 (omega arith) (omega arith)

abbrev closed : Text
closed = b'0' ∷ b'x' ∷ b'0' ∷ b'4' ∷ b'8' ∷ b'0' ∷ []

set_discrete_value-Mirrors_example :
    (ds : List (ℕ × ℕ)) × ((set_discrete_value 1 closed world).1.sent
      ≡ map (bit_line 0x20 0 0x43) ds)
    × (t : Sensor) × (get_elem? (set_discrete_value 1 closed world).1.heap 1 ≡ some t)
    × Mirrors (apply_bits ds (λ j. bit j 0x8001)) t
unfolding is_discrete_text idic.Text.starts_with idic.Text.codes idic.Text.int_of_text
    idic.Text.slice
set_discrete_value-Mirrors_example =
    set_discrete_value-Mirrors 1 door 0x20 0 0x6F (λ j. bit j 0x8001) world quiet-IsAnswering refl
      refl refl refl refl door-Mirrors closed 0x8004 refl refl (omega arith)
