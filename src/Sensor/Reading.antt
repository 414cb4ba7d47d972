-- ===== src/Sensor/Reading.antt =====
-- The conversion between raw and shown values, and the table line of a sensor
-- (vcompute/common/scripts/ipmi_sim/sensor.py, `get_reading_factor` to `output_info`).
pub mod Factors
use idic.Prelude.{
  ℕ, ◌+◌, ◌*◌, ◌/◌, ◌^◌, String, Bool, true, false, ◌&&◌, not, Option, none, some, List, [], ◌∷◌,
  ◌++◌, ◌==◌, if◌then◌else◌, bit_and, bit_xor, entry,
}
use idic.Prelude.Int.{ℤ, pos, negsuc, complement, ◌+ℤ◌, ◌*ℤ◌}
use idic.Text.{Text, codes, hex, decimal, ljust}
use idic.Model.{
  Sensor, Value, absent, number, text, Double, Exec, pure, raise, lift, attribute, type_error,
  zero_division, unbound_local, ◌>>=◌, gets, World, Result, ok, err, continue,
}
use idic.Sensor.Attributes.{EventKind, na, threshold, discrete, get_event_type}
use idic.Sensor.Units.{sensor_unit}

-- What the two lambdas of `get_reading_factor` close over.
pub record Factor : Type 0 where
  pub m : ℕ
  pub b : ℤ
  pub b_exponent : ℕ
  pub r_exponent : ℤ

unfoldable pub m_of : ℕ → ℕ → ℕ
m_of m_ub m_lb = bit_and m_ub 0xc0 * 4 + m_lb

unfoldable pub b_of : ℕ → ℕ → ℤ
b_of b_ub b_lb =
    if bit_and (b_ub / 128) 0x1 == 1
    then complement (pos (bit_xor (bit_and b_ub 0x40 * 4 + b_lb) 0x1ff))
    else pos (bit_and b_ub 0xc0 * 4 + b_lb)

unfoldable pub r_exponent_of : ℕ → ℤ
r_exponent_of exp =
    if bit_and (exp / 128) 0x1 == 1
    then complement (pos (bit_xor (bit_and exp 0x70 / 16) 0x07))
    else pos (bit_and exp 0xf0 / 16)

unfoldable pub get_reading_factor : Sensor → Exec Factor
unfolding m_of b_of r_exponent_of
get_reading_factor s = do
  m_ub ← attribute s.m_ub
  m_lb ← attribute s.m_lb
  b_ub ← attribute s.b_ub
  b_lb ← attribute s.b_lb
  exp ← attribute s.exp
  pure (record {
    m = m_of m_ub m_lb;
    b = b_of b_ub b_lb;
    b_exponent = bit_and exp 0x0f;
    r_exponent = r_exponent_of exp;
  })

-- A Python number: the scale `10**Rexpo` is an int, or a float where the exponent is negative.
pub data Num : Type 0 where
  int : ℤ → Num
  float : Double → Num

-- B * 10**Bexpo
abbrev pub offset : Factor → ℤ
offset f = f.b *ℤ pos (10 ^ f.b_exponent)

abbrev scaled : ℤ → ℤ → World → Num
scaled n (pos e) w = int (n *ℤ pos (10 ^ e))
scaled n (negsuc e) w =
    float (w.outside.mul_double (w.outside.double_of n) (w.outside.power_of_ten (negsuc e)))

-- (M*x + B*10**Bexpo) * 10**Rexpo
unfoldable pub formula_1 : Factor → Value → Exec Num
formula_1 f (number x) = gets (scaled (pos f.m *ℤ x +ℤ offset f) f.r_exponent)
formula_1 f _ = raise type_error

abbrev scale : ℤ → World → Double
scale (pos e) w = w.outside.double_of (pos (10 ^ e))
scale (negsuc e) w = w.outside.power_of_ten (negsuc e)

-- (x / (10**Rexpo) - B*10**Bexpo) / M
unfoldable pub formula_2 : Factor → Double → Exec Double
formula_2 f x w =
    let shifted =
      w.outside.sub_double (w.outside.div_double x (scale f.r_exponent w))
        (w.outside.double_of (offset f)) in
    if f.m == 0
    then raise zero_division w
    else pure (w.outside.div_double shifted (w.outside.double_of (pos f.m))) w

-- "%.3f" % x
unfoldable pub format_three_places : Num → Exec Text
format_three_places (int n) = gets (λ w. w.outside.three_places (w.outside.double_of n))
format_three_places (float x) = gets (λ w. w.outside.three_places x)

-- str(x) of a value
unfoldable pub str_value : Value → Text
str_value absent = codes "None"
str_value (number n) = decimal n
str_value (text t) = t

abbrev unit_name : Option String → Text
unit_name none = codes "unknown"
unit_name (some u) = codes u

unfoldable pub get_unit : Sensor → Exec Text
get_unit s = do
  k ← get_event_type s
  elim k [
    | threshold ↦ (do su2 ← attribute s.su2; pure (unit_name (entry su2 sensor_unit)))
    | _ ↦ pure (codes "discrete")
  ]

-- The reading of a threshold that the mask has, and NA for any other.
unfoldable pub threshold_text : Sensor → ℕ → ℕ → Exec Text
unfolding get_reading_factor formula_1 format_three_places
threshold_text s mask raw = do
  k ← get_event_type s
  elim k [
    | threshold ↦ (do
      rtm ← attribute s.rtm
      if bit_and rtm mask == 0 then pure (codes "NA") else do
        f ← get_reading_factor s
        n ← formula_1 f (number (pos raw))
        format_three_places n)
    | _ ↦ pure (codes "NA")
  ]

-- The value column; `value` is unbound for a sensor of kind NA.
unfoldable pub value_text : Sensor → Exec Text
unfolding get_reading_factor formula_1 format_three_places str_value
value_text s = do
  k ← get_event_type s
  elim k [
    | threshold ↦ (do f ← get_reading_factor s; n ← formula_1 f s.value; format_three_places n)
    | discrete ↦ pure (str_value s.value)
    | na ↦ raise unbound_local
  ]

unfoldable pub output_info : Sensor → Exec Text
unfolding value_text get_unit threshold_text
output_info s = do
  value ← value_text s
  su ← get_unit s
  lnr ← threshold_text s 0x04 s.lnr
  lc ← threshold_text s 0x02 s.lc
  lnc ← threshold_text s 0x01 s.lnc
  unc ← threshold_text s 0x08 s.unc
  uc ← threshold_text s 0x10 s.uc
  unr ← threshold_text s 0x20 s.unr
  pure (
      ljust 20 s.name
      ++ codes "| "
      ++ ljust 10 (hex (pos s.id))
      ++ codes "| "
      ++ ljust 10 value
      ++ codes "| "
      ++ ljust 20 su
      ++ codes "| "
      ++ ljust 10 lnr
      ++ codes "| "
      ++ ljust 10 lc
      ++ codes "| "
      ++ ljust 10 lnc
      ++ codes "| "
      ++ ljust 10 unc
      ++ codes "| "
      ++ ljust 10 uc
      ++ codes "| "
      ++ unr)
