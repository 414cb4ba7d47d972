-- ===== src/Command/Lookup/Found.antt =====
-- Looking up a sensor (command.py) that was built under its id (sdr.py).
use idic.Prelude.{ℕ, ◌<◌, ◌^◌, ◌≡◌, ap, ◌∙◌, arith, true, Option, some}
use idic.Prelude.Int.{ℤ, pos}
use idic.Text.{hex}
use idic.Text.RoundTrip.{int_of_text-hex}
use idic.Model.{World, ok}
use idic.Sdr.{find_id, same_key}
use idic.Command.Lookup.{get_sensor_instance, look_up, found_or_told}

-- A printed id finds what the map has under it and the address 0x20 of the controller.
pub get_sensor_instance-hex :
    (n a : ℕ) (w : World)
    → n < 2 ^ 63
    → find_id (n, 0x20) w.sensor_id_map ≡ some a
    → get_sensor_instance (hex (pos n)) w ≡ (ok (some a), w)
unfolding get_sensor_instance look_up found_or_told
get_sensor_instance-hex n a w h e =
    ap (λ (o : Option ℤ). look_up (hex (pos n)) o w) (int_of_text-hex n h)
    ∙ ap (λ (o : Option ℕ). found_or_told (hex (pos n)) o w) e

pub same_key_self : (k : ℕ × ℕ) → same_key k k ≡ true
unfolding same_key
same_key_self (i, m) = ground arith
