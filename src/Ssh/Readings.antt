-- ===== src/Ssh/Readings.antt =====
-- From the dump to the readings: what sdr.py gives the sensors, a session (sshsrv.py) leaves alone.
use mathlib.Core.Path.{subst}
use idic.Prelude.{ℕ, ◌≡◌, sym, some, List, get_elem?, ◌⊎◌}
use idic.Prelude.Int.{ℤ, pos, negsuc, ◌≤ℤ◌}
use idic.Model.{World, Sensor, ok}
use idic.Sensor.Drawing.{get_random_value, get_fault_value}
use idic.Sensor.Drawing.Ranges.{IsFair}
use idic.Sensor.Drawing.Bounds.{HasBytes, readings_bounds}
use idic.Sensor.Typed.{with_changes}
use idic.Sdr.{parse_sdrs}
use idic.Sdr.Bytes.{AllBytes, IsByteFile, from_six}
use idic.Sdr.Bounded.{parse_sdrs-AllBytes}
use idic.Ssh.{Input, session}
use idic.Ssh.Kept.{session-KeepsAttributes}

with_changes-HasBytes : (old s : Sensor) → HasBytes old → HasBytes (with_changes old s)
with_changes-HasBytes old s b = from_six (with_changes old s) b.lnr b.lc b.lnc b.unc b.uc b.unr

-- No command changes a threshold.
session-AllBytes : (inputs : List Input) (w : World) → AllBytes w → AllBytes (session inputs w).1
session-AllBytes inputs w b a s e =
    let (old, stood, same) = session-KeepsAttributes inputs w a s e in
    subst HasBytes (sym same) (with_changes-HasBytes old s (b a old stood))

-- After a dump of bytes has been parsed, from a process whose sensors have bytes for thresholds, and
-- after any session, a raw value that the auto mode or the fault mode draws for a sensor lies between
-- -127 and 255.
pub session-readings_bounds :
    (file : List ℕ) (inputs : List Input) (w u : World) (a : ℕ) (s : Sensor) (v : ℤ)
    → IsByteFile file
    → AllBytes w
    → get_elem? (session inputs (parse_sdrs (some file) w).1).1.heap a ≡ some s
    → IsFair u.outside
    → ((get_random_value s u).0 ≡ ok v) ⊎ ((get_fault_value s u).0 ≡ ok (some v))
    → (negsuc 126 ≤ℤ v) × (v ≤ℤ pos 255)
session-readings_bounds file inputs w u a s v bytes b e fair = readings_bounds s v u fair (
    session-AllBytes inputs (parse_sdrs (some file) w).1 (parse_sdrs-AllBytes file w bytes b) a s e)
