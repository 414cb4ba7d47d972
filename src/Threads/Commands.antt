-- ===== src/Threads/Commands.antt =====
-- The statements of `sensor mode set` (command.py), in a row, against the whole command.
use mathlib.Core.Path.{subst}
use idic.Prelude.{
  ℕ, ◌≡◌, refl, ap, ◌∙◌, sym, false, Option, none, some, List, [], ◌∷◌, ◌++◌, get_elem?, set,
  append-nil, get_elem?-set_self, lt-length_of_get_elem?,
}
use idic.Text.{Text}
use idic.Model.{
  fault, ok, bind_step, object, store, ◌>>=◌, Sensor, Mode, World, object-bind, ◌>>◌, FaultLevel,
  Exec, Done, ok, bind_step,
}
use idic.Sensor.Attributes.{set_fault_level}
use idic.Command.SensorCommands.{
  change_mode, set_sensor_mode, put_help, parse_fault_level, change_to_fault, parse_mode,
}
use idic.Command.Docs.{handle_sensor_mode_doc}
use idic.Command.Lookup.{get_sensor_instance}
use idic.Threads.{
  Order, change, look, System, is_held, can_go, obey, phase_after, orders_after, mode_orders, Reach,
  here, fault_orders, to_level, Reach-trans,
}
use idic.Threads.Modes.{wake_all, Performs, session_goes, write_object-found, mode_orders-Reach}

-- `set_fault_level` and what follows it in `set_sensor_mode`.
abbrev set_to_fault : ℕ → FaultLevel → Exec Done
set_to_fault a l = do s ← object a; store a (set_fault_level l s); change_mode a Mode.fault

-- The statements of `sensor mode set` with a level.
fault_orders-Reach :
    (s : System) (a : ℕ) (l : FaultLevel) (x : Sensor) (rest : List Order)
    → get_elem? s.world.heap a ≡ some x
    → is_held (s.phase a) ≡ false
    → s.session ≡ fault_orders a l ++ rest
    → Performs s rest (set_to_fault a l s.world).1
unfolding fault_orders mode_orders can_go obey phase_after orders_after
fault_orders-Reach s a l x rest e free todo =
    let leveled = record s.world { heap = set s.world.heap a (set_fault_level l x) } in
    let first =
      subst (λ w. Reach s (record s { world = w; session = look a Mode.fault ∷ rest }))
        (write_object-found a (set_fault_level l) s.world x e)
        (session_goes s s (change a (to_level l)) (look a Mode.fault ∷ rest) here todo refl) in
    let (woke, told, run) =
      mode_orders-Reach (record s { world = leveled; session = look a Mode.fault ∷ rest }) a
        Mode.fault (set_fault_level l x) rest
        (get_elem?-set_self s.world.heap a (set_fault_level l x)
          (lt-length_of_get_elem? s.world.heap a e))
        free refl in
    let same : set_to_fault a l s.world ≡ change_mode a Mode.fault leveled =
      object-bind a _ s.world e in
    (
      woke,
      ap (λ p. p.1.notified) same ∙ told,
      subst
          (λ p. Reach s (record s {
            world = record s.world { heap = p.1.heap };
            phase = wake_all woke s.phase;
            session = rest;
          }))
          (sym same) (Reach-trans first run),
    )

-- The statements of `sensor mode set` behind the lookup of the sensor, by the rest of the line.
unfoldable pub level_orders : ℕ → List Text → List Order
level_orders a [] = []
level_orders a (level ∷ args) = elim (parse_fault_level level) [
  | none ↦ []
  | some l ↦ fault_orders a l
]

unfoldable pub set_mode_orders : ℕ → Option Mode → List Text → List Order
unfolding level_orders
set_mode_orders a none args = []
set_mode_orders a (some Mode.fault) args = level_orders a args
set_mode_orders a (some m) args = mode_orders a m

nothing_left :
    (s : System) (rest : List Order) (v : World)
    → v.heap ≡ s.world.heap
    → v.notified ≡ s.world.notified
    → s.session ≡ rest
    → Performs s rest v
unfolding wake_all
nothing_left s rest v h n todo = (
  [],
  n ∙ sym (append-nil s.world.notified),
  subst (λ l. Reach s (record s { world = record s.world { heap = l }; session = rest })) (sym h)
      (subst (λ t. Reach s (record s { session = t })) todo here),
)

module _ (s : System) (a : ℕ) (x : Sensor) (rest : List Order)
    (found : get_elem? s.world.heap a ≡ some x) (free : is_held (s.phase a) ≡ false) where
  abbrev helped : World
  helped = (put_help handle_sensor_mode_doc s.world).1

  level_orders-Reach :
      (args : List Text)
      → s.session ≡ level_orders a args ++ rest
      → Performs s rest (change_to_fault a args s.world).1
  unfolding level_orders change_to_fault
  level_orders-Reach [] todo = nothing_left s rest helped refl refl todo
  level_orders-Reach (level ∷ args) todo = by_level (parse_fault_level level) todo
    where
      by_level :
          (o : Option FaultLevel)
          → s.session ≡ elim o [ none ↦ [] | some l ↦ fault_orders a l ] ++ rest
          → Performs s rest
              (elim o as (λ x. Exec Done) [
                | none ↦ put_help handle_sensor_mode_doc
                | some l ↦ set_to_fault a l
              ]
                s.world).1
      by_level none e = nothing_left s rest helped refl refl e
      by_level (some l) e = fault_orders-Reach s a l x rest found free e

  set_mode_orders-Reach :
      (o : Option Mode) (args : List Text)
      → s.session ≡ set_mode_orders a o args ++ rest
      → Performs s rest
          (elim o as (λ x. Exec Done) [
            | none ↦ put_help handle_sensor_mode_doc
            | some m ↦ elim m [ fault ↦ change_to_fault a args | other ↦ change_mode a other ]
          ]
            s.world).1
  unfolding set_mode_orders
  set_mode_orders-Reach none args todo = nothing_left s rest helped refl refl todo
  set_mode_orders-Reach (some Mode.user) args todo =
      mode_orders-Reach s a Mode.user x rest found free todo
  set_mode_orders-Reach (some Mode.auto) args todo =
      mode_orders-Reach s a Mode.auto x rest found free todo
  set_mode_orders-Reach (some Mode.fault) args todo = level_orders-Reach args todo

-- A session that is about to run the statements of `sensor mode set`, on a sensor that the command
-- finds and whose condition no thread holds: if they run in a row, the process comes to the objects
-- that the command leaves, and the threads of those sensors are woken that the command notifies.
pub set_sensor_mode-Reach :
    (s : System) (str_num mode : Text) (args : List Text) (a : ℕ) (x : Sensor) (rest : List Order)
    → get_sensor_instance str_num s.world ≡ (ok (some a), s.world)
    → get_elem? s.world.heap a ≡ some x
    → is_held (s.phase a) ≡ false
    → s.session ≡ set_mode_orders a (parse_mode mode) args ++ rest
    → Performs s rest (set_sensor_mode (str_num ∷ mode ∷ args) s.world).1
unfolding set_sensor_mode
set_sensor_mode-Reach s str_num mode args a x rest known found free todo =
    subst (λ p. Performs s rest p.1) (sym (bind_step (get_sensor_instance str_num) _ s.world known))
      (set_mode_orders-Reach s a x rest found free (parse_mode mode) args todo)
