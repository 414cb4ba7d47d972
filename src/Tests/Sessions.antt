-- ===== src/Tests/Sessions.antt =====
-- The theorems on whole sessions.
use mathlib.Core.Path.{subst}
use idic.Prelude.{zero, suc, ◌≡◌, ◌≤◌, refl, List, [], ◌∷◌, inl, length, arith}
use idic.Prelude.Int.{pos}
use idic.Text.{Text, codes}
use idic.Model.{World}
use idic.Sensor.Attributes.{kind_of}
use idic.Sensor.Discrete.{is_discrete_text}
use idic.Sensor.Typed.{Fits, IsTyped, AllTyped}
use idic.Command.Typed.{AllKeep}
use idic.Ssh.{Input, line, session}
use idic.Ssh.Kept.{session-AllTyped, session-KeepsAttributes, session-history_bound}
use idic.Sensor.Law.{HasKind}
use idic.Sensor.Attributes.{threshold, discrete}
use idic.Threads.{
  Order, change, to_value, to_text, System, start, obey, phase_after, orders_after, can_go,
  spawn_sensor_thread, Reach, here, next, session_step,
}
use idic.Threads.Typed.{OrdersFit}
use idic.Threads.Started.{Reach-AllTyped}
use idic.Tests.Fixture.{world, fan, door}

-- Two sensors that the commands find.
abbrev console : World
console = record world {
  heap = fan ∷ door ∷ [];
  sensor_id_map = ((0x42, 0x20), 0) ∷ ((0x43, 0x20), 1) ∷ [];
}

abbrev inputs : List Input
inputs =
    line (codes "sensor mode set 0x42 user")
    ∷ line (codes "sensor value set 0x43 0x0480")
    ∷ line (codes "quit")
    ∷ []

fan-IsTyped : IsTyped fan
fan-IsTyped n e =
    let same : 1 ≡ n = cc in subst (λ m. Fits (kind_of m) fan.value) same (pos 50, refl)

door-IsTyped : IsTyped door
unfolding is_discrete_text idic.Text.starts_with codes
door-IsTyped n e =
    let same : 0x6F ≡ n = cc in subst (λ m. Fits (kind_of m) door.value) same (inl (_, refl, refl))

console-AllTyped : AllTyped console
console-AllTyped zero s e = let same : fan ≡ s = cc in subst IsTyped same fan-IsTyped
console-AllTyped (suc zero) s e = let same : door ≡ s = cc in subst IsTyped same door-IsTyped
console-AllTyped (suc (suc a)) s e = absurd (cc)

session-AllTyped_example : AllTyped (session inputs console).1
session-AllTyped_example = session-AllTyped inputs console console-AllTyped

session-KeepsAttributes_example : AllKeep console (session inputs console).1
session-KeepsAttributes_example = session-KeepsAttributes inputs console

session-history_bound_example : length (session inputs console).1.command_history ≤ 30
session-history_bound_example = session-history_bound inputs console (omega arith)

abbrev boot : World
boot = record console { sensor_list = 0 ∷ 1 ∷ [] }

abbrev commands : List Order
commands = change 0 (to_value (pos 60)) ∷ change 1 (to_text (codes "0x0480")) ∷ []

boot-OrdersFit : OrdersFit boot commands
unfolding OrdersFit is_discrete_text idic.Text.starts_with codes
boot-OrdersFit = (
  λ x e.
      let same : fan ≡ x = cc in
      subst (λ s. HasKind s threshold) same (record { number = 1; has = refl; is = refl }),
  (
    (
      λ x e.
          let same : door ≡ x = cc in
          subst (λ s. HasKind s discrete) same (record { number = 0x6F; has = refl; is = refl }),
      refl,
    ),
    tt,
  ),
)

-- The value is assigned before the thread of the fan has begun.
abbrev assigned : System
assigned = record (start boot (0 ∷ []) commands) {
  world = obey (change 0 (to_value (pos 60))) boot;
  session = change 1 (to_text (codes "0x0480")) ∷ [];
}

assigned-reached : Reach (start boot (0 ∷ []) commands) assigned
unfolding start obey phase_after orders_after can_go
assigned-reached = next here (
    session_step (change 0 (to_value (pos 60))) (change 1 (to_text (codes "0x0480")) ∷ []) refl
      refl)

Reach-AllTyped_example : AllTyped assigned.world
unfolding spawn_sensor_thread
Reach-AllTyped_example =
    Reach-AllTyped boot (0 ∷ []) commands assigned refl console-AllTyped boot-OrdersFit
      assigned-reached
