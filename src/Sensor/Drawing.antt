-- ===== src/Sensor/Drawing.antt =====
-- Random readings: `get_random_value` for the mode auto and `get_fault_value` for the mode fault
-- (vcompute/common/scripts/ipmi_sim/sensor.py).
pub mod Ranges
pub mod Normal
pub mod Heaps
pub mod Bounds
use idic.Prelude.{
  ℕ, zero, suc, ◌+◌, ◌-◌, ◌/◌, Bool, true, false, ◌||◌, Option, none, some, List, [], ◌∷◌, ◌++◌,
  ◌==◌, if◌then◌else◌, bit_and,
}
use idic.Prelude.Int.{ℤ, pos, negsuc, leb_ℤ, ◌-ℤ◌}
use idic.Text.{Text, codes}
use idic.Model.{
  Sensor, FaultLevel, lnr, lc, lnc, unc, uc, unr, Exec, pure, raise, attribute, value_error,
  put_message, ◌>>=◌, ◌>>◌, World, Result, ok, err, continue, modify, Done,
}

-- `random.randint(low, high)`: an empty range is a ValueError.
unfoldable pub randint : ℤ → ℤ → Exec ℤ
randint low high w =
    if leb_ℤ low high
    then pure (w.outside.draw w.draws low high) (record w { draws = w.draws + 1 })
    else raise value_error w

-- `self.rtm & bit != 0`
abbrev pub has : ℕ → ℕ → Bool
has rtm bit = if bit_and rtm bit == 0 then false else true

-- `(self.su1 >> 6) == 1 or (self.su1 >> 6) == 2`
abbrev pub is_signed : ℕ → Bool
is_signed su1 = su1 / 64 == 1 || su1 / 64 == 2

-- A threshold less one, as an integer.
abbrev below : ℕ → ℤ
below n = pos n -ℤ pos 1

unfoldable pub low_value : Sensor → ℕ → Exec ℤ
low_value s rtm =
    if has rtm 0x01
    then pure (pos (s.lnc + 1))
    else if has rtm 0x02
    then pure (pos (s.lc + 1))
    else if has rtm 0x04
    then pure (pos (s.lnr + 1))
    else (do su1 ← attribute s.su1; pure (if is_signed su1 then negsuc 126 else pos 0))

unfoldable pub high_value : Sensor → ℕ → Exec ℤ
unfolding ◌-ℤ◌
high_value s rtm =
    if has rtm 0x08
    then pure (below s.unc)
    else if has rtm 0x10
    then pure (below s.uc)
    else if has rtm 0x20
    then pure (below s.unr)
    else (do su1 ← attribute s.su1; pure (if is_signed su1 then pos 127 else pos 255))

-- The draw, once the mask of readable thresholds is known.
unfoldable pub draw_between : Sensor → ℕ → Exec ℤ
draw_between s rtm = do low ← low_value s rtm; high ← high_value s rtm; randint low high

unfoldable pub get_random_value : Sensor → Exec ℤ
unfolding draw_between
get_random_value s = do rtm ← attribute s.rtm; draw_between s rtm

unfoldable pub fault_level_name : FaultLevel → Text
fault_level_name lnr = codes "lnr"
fault_level_name lc = codes "lc"
fault_level_name lnc = codes "lnc"
fault_level_name unc = codes "unc"
fault_level_name uc = codes "uc"
fault_level_name unr = codes "unr"

unfoldable pub not_crossed : Sensor → FaultLevel → Text
unfolding fault_level_name
not_crossed s level =
    codes "WARN: Sensor "
    ++ s.name
    ++ codes " did not cross "
    ++ fault_level_name level
    ++ codes " threshold since it does not exist\n"

-- The range that a fault level draws from; `none` where its threshold does not exist.
abbrev pub Range : Type 0
Range = Option (ℤ × ℤ)

abbrev pub range_if : Bool → ℤ → ℤ → Range
range_if true low high = some (low, high)
range_if false low high = none

unfoldable pub fault_range : Sensor → ℕ → ℤ → FaultLevel → Range
unfolding ◌-ℤ◌
fault_range s rtm top lnc =
    range_if (has rtm 0x01) (if has rtm 0x02 then pos (s.lc + 1) else pos 0) (pos s.lnc)
fault_range s rtm top lc =
    range_if (has rtm 0x02) (if has rtm 0x04 then pos (s.lnr + 1) else pos 0) (pos s.lc)
fault_range s rtm top lnr = range_if (has rtm 0x04) (pos 0) (pos s.lnr)
fault_range s rtm top unc =
    range_if (has rtm 0x08) (pos s.unc) (if has rtm 0x10 then below s.uc else top)
fault_range s rtm top uc =
    range_if (has rtm 0x10) (pos s.uc) (if has rtm 0x20 then below s.unr else top)
fault_range s rtm top unr = range_if (has rtm 0x20) (pos s.unr) top

unfoldable pub draw_fault : Sensor → FaultLevel → Range → Exec (Option ℤ)
unfolding randint not_crossed
draw_fault s level none = do put_message (not_crossed s level); pure none
draw_fault s level (some (low, high)) = do v ← randint low high; pure (some v)

unfoldable pub get_fault_value : Sensor → Exec (Option ℤ)
unfolding fault_range draw_fault
get_fault_value s = do
  rtm ← attribute s.rtm
  su1 ← attribute s.su1
  level ← attribute s.fault_level
  draw_fault s level (fault_range s rtm (if is_signed su1 then pos 0x7F else pos 0xFF) level)
