-- ===== src/Sensor/Discrete.antt =====
-- Writing a sensor's value to the simulator: `set_threshold_value`, `set_discrete_value` and
-- `set_state` (vcompute/common/scripts/ipmi_sim/sensor.py). A discrete value is 0x and four hex
-- digits, the low byte first; bit i of the two bytes is state i, and bit 15 is not written.
pub mod Diffs
pub mod Sent
pub mod State
pub mod Refused
pub mod Texts
pub mod Words
pub mod Mirror
pub mod Differing
pub mod Written
use idic.Prelude.{
  ℕ, zero, suc, ◌+◌, ◌-◌, ◌*◌, ◌/◌, ◌^◌, Bool, true, false, ◌||◌, ◌&&◌, not, Option, none, some,
  List, [], ◌∷◌, ◌++◌, ◌==◌, if◌then◌else◌, length, drop, get_elem?,
}
use idic.Prelude.Int.{ℤ, pos, negsuc, or_ℤ, and_not_ℤ}
use idic.Text.{Text, codes, hex, decimal, slice, zfill, binary, int_of_text, starts_with}
use idic.Sel.{between, is_number}
use idic.Model.{
  Sensor, Value, absent, number, text, Exec, Done, pure, raise, lift, or_raise, attribute, object,
  store, type_error, value_error, ◌>>=◌, ◌>>◌, World, Result, ok, err, continue, modify,
}
use idic.Common.{send_ipmi_sim_command}
use idic.Sensor.Attributes.{threshold, discrete, with_type, set_raw_value}

-- A command: its name, and the numbers of the controller, the LUN and the sensor.
unfoldable pub address : Text → ℕ → ℕ → ℕ → Text
address name mc lun ID =
    name ++ hex (pos mc) ++ codes " " ++ hex (pos lun) ++ codes " " ++ hex (pos ID) ++ codes " "

unfoldable pub value_line : ℕ → ℕ → ℕ → ℤ → Text
unfolding address
value_line mc lun ID value =
    address (codes "sensor_set_value ") mc lun ID ++ hex value ++ codes " 0x01\n"

unfoldable pub bit_line : ℕ → ℕ → ℕ → ℕ × ℕ → Text
unfolding address
bit_line mc lun ID (state_id, bit) =
    address (codes "sensor_set_bit ") mc lun ID
    ++ decimal (pos state_id)
    ++ codes " "
    ++ decimal (pos bit)
    ++ codes " 0x01\n"

unfoldable pub value_command : ℤ → Sensor → Exec Text
value_command value s = do
  mc ← attribute s.mc
  lun ← attribute s.lun
  pure (value_line mc lun s.id value)

unfoldable pub bit_command : ℕ → ℕ → Sensor → Exec Text
bit_command state_id bit s = do
  mc ← attribute s.mc
  lun ← attribute s.lun
  pure (bit_line mc lun s.id (state_id, bit))

unfoldable pub set_threshold_value : ℕ → ℤ → Exec Done
unfolding with_type value_command
set_threshold_value a value = do
  s ← object a
  with_type (threshold ∷ []) s (do
    store a (set_raw_value (number value) s)
    command ← value_command value s
    send_ipmi_sim_command command
    pure tt)

-- `int(t[4:6]+t[2:4], 16)`
unfoldable pub register_of : Text → Exec ℤ
register_of t = lift (or_raise value_error (int_of_text 16 (slice t 4 6 ++ slice t 2 4)))

-- Only a str can be sliced.
unfoldable pub register_of_value : Value → Exec ℤ
unfolding register_of
register_of_value (text t) = register_of t
register_of_value _ = raise type_error

-- `"{0:b}".format(n).zfill(16)`
unfoldable pub bits_16 : ℤ → Text
bits_16 n = zfill 16 (binary n)

-- A character of such a text, which has at least sixteen.
unfoldable pub char_at : Text → ℕ → ℕ
char_at t i = elim (get_elem? t i) [ none ↦ b'0' | some c ↦ c ]

-- The loop over the state ids, `rounds` of them from `state_id` on.
unfoldable pub list_diff : ℕ → ℕ → Text → Text → List (ℕ × ℕ)
unfolding char_at
list_diff zero state_id orig targ = []
list_diff (suc rounds) state_id orig targ =
    let rest = list_diff rounds (state_id + 1) orig targ in
    let bit_orig = char_at orig (15 - state_id) in
    let bit_targ = char_at targ (15 - state_id) in
    if bit_orig == bit_targ then rest else (state_id, bit_targ - b'0') ∷ rest

unfoldable pub send_bits : List (ℕ × ℕ) → Sensor → Exec Done
unfolding bit_command
send_bits [] s = pure tt
send_bits ((state_id, bit) ∷ rest) s = do
  command ← bit_command state_id bit s
  send_ipmi_sim_command command
  send_bits rest s

-- Six characters, the first two 0x.
unfoldable pub is_discrete_text : Text → Bool
is_discrete_text value = length value == 6 && starts_with value (codes "0x")

-- The body behind that test.
unfoldable pub write_discrete : ℕ → Text → Sensor → Exec Done
write_discrete a value s = do
  orig ← register_of_value s.value
  targ ← register_of value
  store a (set_raw_value (text value) s)
  send_bits (list_diff 15 0 (bits_16 orig) (bits_16 targ)) s

unfoldable pub set_discrete_value : ℕ → Text → Exec Done
unfolding with_type write_discrete
set_discrete_value a value = do
  s ← object a
  with_type (discrete ∷ []) s
      (if is_discrete_text value then write_discrete a value s else raise value_error)

-- `value | (1 << i)` and `value & ~(1 << i)`.
unfoldable pub with_bit : ℤ → ℕ → ℕ → ℤ
with_bit value i zero = and_not_ℤ value (2 ^ i)
with_bit value i (suc b) = or_ℤ value (2 ^ i)

-- "0x" and the two bytes of `hex(value)[2:].zfill(4)`, exchanged.
unfoldable pub value_text_of : ℤ → Text
value_text_of value =
    let h = zfill 4 (drop 2 (hex value)) in codes "0x" ++ slice h 2 4 ++ slice h 0 2

abbrev pub number_of : ℤ → ℕ
number_of (pos n) = n
number_of (negsuc n) = 0

-- The body behind the tests.
unfoldable pub write_state : ℕ → ℕ → ℕ → Sensor → Exec Done
unfolding register_of_value with_bit value_text_of bit_command
write_state a state_id state_bit s = do
  value ← register_of_value s.value
  store a (set_raw_value (text (value_text_of (with_bit value state_id state_bit))) s)
  command ← bit_command state_id state_bit s
  send_ipmi_sim_command command
  pure tt

unfoldable pub checked_state : ℕ → ℤ → ℤ → Sensor → Exec Done
unfolding write_state
checked_state a state_id state_bit s =
    if not (between 0 14 state_id)
    then raise value_error
    else if not (between 0 1 state_bit)
    then raise value_error
    else write_state a (number_of state_id) (number_of state_bit) s

unfoldable pub set_state : ℕ → ℤ → ℤ → Exec Done
unfolding with_type checked_state
set_state a state_id state_bit = do
  s ← object a
  with_type (discrete ∷ []) s (checked_state a state_id state_bit s)
