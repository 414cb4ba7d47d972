-- ===== src/Sensor/Reading/Factors.antt =====
-- The constants of the conversion: the fields of an IPMI full sensor record.
use idic.Prelude.{ℕ, ◌+◌, ◌*◌, ◌/◌, ◌%◌, ◌^◌, ◌<◌, ◌≡◌, some, arith, ltb, if◌then◌else◌, bit_and}
use idic.Prelude.Int.{ℤ, pos, sub_ℕ}
use idic.Bits.{and_0xc0, and_0x40, and_0x70, and_0xf0, and_0x0f, and_0x01, xor_0x1ff, xor_0x07}
use idic.Model.{Sensor, World, ok}
use idic.Sensor.Reading.{m_of, b_of, r_exponent_of, get_reading_factor}

-- The two's complement reading of a number of k + 1 bits.
abbrev pub twos_complement : ℕ → ℕ → ℤ
twos_complement k v = if ltb v (2 ^ k) then pos v else sub_ℕ v (2 * 2 ^ k)

m_of_lem : (m_ub m_lb : ℕ) → m_ub < 256 → m_of m_ub m_lb ≡ m_ub / 64 * 256 + m_lb
unfolding m_of
m_of_lem m_ub m_lb h = omega (arith, and_0xc0 m_ub h)

b_of_lem :
    (b_ub b_lb : ℕ)
    → b_ub < 256
    → b_lb < 256
    → b_of b_ub b_lb ≡ twos_complement 9 (b_ub / 64 * 256 + b_lb)
unfolding b_of
b_of_lem b_ub b_lb h k = ground (
  arith,
  and_0xc0 b_ub h,
  and_0x40 b_ub h,
  and_0x01 b_ub h,
  xor_0x1ff (bit_and b_ub 0x40 * 4 + b_lb),
)

r_exponent_of_lem : (exp : ℕ) → exp < 256 → r_exponent_of exp ≡ twos_complement 3 (exp / 16)
unfolding r_exponent_of
r_exponent_of_lem exp h =
    ground (arith, and_0x70 exp h, and_0xf0 exp h, and_0x01 exp h, xor_0x07 (bit_and exp 0x70 / 16))

-- The bytes of a full sensor record.
abbrev pub IsByte : ℕ → Type 0
IsByte x = x < 256

-- For bytes, the conversion uses M as the unsigned number of ten bits, B as the two's complement
-- number of ten bits, the low half of the exponent byte unsigned as the exponent of B, and its high
-- half as a two's complement number of four bits; nothing is changed.
pub get_reading_factor_decodes :
    (s : Sensor) (m_ub m_lb b_ub b_lb exp : ℕ) (w : World)
    → s.m_ub ≡ some m_ub
    → s.m_lb ≡ some m_lb
    → s.b_ub ≡ some b_ub
    → s.b_lb ≡ some b_lb
    → s.exp ≡ some exp
    → IsByte m_ub
    → IsByte b_ub
    → IsByte b_lb
    → IsByte exp
    → get_reading_factor s w ≡ (
      ok (record {
        m = m_ub / 64 * 256 + m_lb;
        b = twos_complement 9 (b_ub / 64 * 256 + b_lb);
        b_exponent = exp % 16;
        r_exponent = twos_complement 3 (exp / 16);
      }),
      w,
    )
unfolding get_reading_factor
get_reading_factor_decodes s m_ub m_lb b_ub b_lb exp w e1 e2 e3 e4 e5 h1 h3 h4 h5 = rw (
  e1,
  e2,
  e3,
  e4,
  e5,
  m_of_lem m_ub m_lb h1,
  b_of_lem b_ub b_lb h3 h4,
  r_exponent_of_lem exp h5,
  and_0x0f exp h5,
)
