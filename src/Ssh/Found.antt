-- ===== src/Ssh/Found.antt =====
-- A sensor that sdr.py builds, and the lookup of command.py in a later session (sshsrv.py).
use idic.Prelude.{
  ℕ, ◌<◌, ◌^◌, ◌≡◌, refl, ap, ◌∙◌, Bool, true, false, not, ◌&&◌, some, List, [], ◌∷◌, length,
  if◌then◌else◌,
}
use idic.Prelude.Int.{pos}
use idic.Text.{Text, hex}
use idic.Model.{World, Value, ok}
use idic.Sdr.{find_id, same_key, build_sensors}
use idic.Sdr.Registry.{find_id-put_id}
use idic.Command.Lookup.{get_sensor_instance}
use idic.Command.Lookup.Found.{get_sensor_instance-hex, same_key_self}
use idic.Command.Kept.{handle_command-KeepsSensors}
use idic.Ssh.{Input, session}
use idic.Ssh.Kept.{session_keeps}

-- The arguments of a call of `build_sensors`.
pub record Build : Type 0 where
  pub name : Text
  pub id : ℕ
  pub mc : ℕ
  pub value : Value
  pub tp : ℕ

-- The calls in order.
abbrev pub build_all : List Build → World → World
build_all [] w = w
build_all (b ∷ rest) w = build_all rest (build_sensors b.name b.id b.mc b.value b.tp w).1

-- No call has the key.
abbrev pub has_no_key : ℕ × ℕ → List Build → Bool
has_no_key k [] = true
has_no_key k (b ∷ rest) = not (same_key (b.id, b.mc) k) && has_no_key k rest

find_id-build_sensors :
    (k : ℕ × ℕ) (b : Build) (w : World)
    → find_id k (build_sensors b.name b.id b.mc b.value b.tp w).1.sensor_id_map
      ≡ (if same_key (b.id, b.mc) k then some (length w.heap) else find_id k w.sensor_id_map)
unfolding build_sensors
find_id-build_sensors k b w = find_id-put_id k (b.id, b.mc) (length w.heap) w.sensor_id_map

find_id-build_all :
    (k : ℕ × ℕ) (others : List Build) (w : World)
    → has_no_key k others ≡ true
    → find_id k (build_all others w).sensor_id_map ≡ find_id k w.sensor_id_map
find_id-build_all k [] w h = refl
find_id-build_all k (b ∷ rest) w h =
    let (other, none_left) = both (same_key (b.id, b.mc) k) (has_no_key k rest) h in
    find_id-build_all k rest (build_sensors b.name b.id b.mc b.value b.tp w).1 none_left
    ∙ find_id-build_sensors k b w
    ∙ ap (λ x. if x then some (length w.heap) else find_id k w.sensor_id_map) other
  where
    both : (x y : Bool) → (not x && y) ≡ true → (x ≡ false) × (y ≡ true)
    both true y e = absurd (cc)
    both false y e = (refl, e)

-- A sensor that was built for the controller at 0x20 is found by its id, printed in hexadecimal,
-- after any number of other sensors were built, none of them under the same id and controller, and
-- after any session behind those; the lookup changes nothing.
pub session_finds_built :
    (name : Text) (ID : ℕ) (value : Value) (tp : ℕ) (others : List Build) (inputs : List Input)
    (w : World)
    → ID < 2 ^ 63
    → has_no_key (ID, 0x20) others ≡ true
    → get_sensor_instance
        (hex (pos ID))
        (session inputs (build_all others (build_sensors name ID 0x20 value tp w).1)).1
      ≡ (
        ok (some (length w.heap)),
        (session inputs (build_all others (build_sensors name ID 0x20 value tp w).1)).1,
      )
session_finds_built name ID value tp others inputs w h others_differ =
    let k : ℕ × ℕ = (ID, 0x20) in
    let built = (build_sensors name ID 0x20 value tp w).1 in
    let there : find_id k built.sensor_id_map ≡ some (length w.heap) =
      find_id-build_sensors k (record { name = name; id = ID; mc = 0x20; value = value; tp = tp }) w
      ∙ ap (λ b. if b then some (length w.heap) else find_id k w.sensor_id_map) (same_key_self k) in
    get_sensor_instance-hex ID (length w.heap) (session inputs (build_all others built)).1 h (
      session_keeps (λ u. find_id k u.sensor_id_map ≡ some (length w.heap))
        (λ cmd u e. ap (find_id k) (handle_command-KeepsSensors cmd u).0.sensor_id_map ∙ e)
        (λ u e. e) inputs (build_all others built)
        (find_id-build_all k others built others_differ ∙ there))
