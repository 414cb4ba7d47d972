-- ===== src/Threads.antt =====
-- vcompute/common/scripts/ipmi_sim/ipmi_sim.py: the sensor threads, and the threads that write the
-- same objects without the condition: `free_resource` in the main thread, and the commands
-- (command.py) of a session.
pub mod Frame
pub mod LostWakeup
pub mod Stopping
pub mod Shutdown
pub mod Races
pub mod Writes
pub mod Typed
pub mod Started
pub mod Rounds
pub mod Stuck
pub mod Pending
pub mod Modes
pub mod Commands
use idic.Prelude.{
  ℕ, Bool, true, false, List, [], ◌∷◌, ◌++◌, map, ◌≡◌, ◌==◌, not, if◌then◌else◌, get_elem?, Option,
  none, some, ◌||◌,
}
use idic.Prelude.Int.{ℤ}
use idic.Text.{Text}
use idic.Model.{Sensor, Mode, FaultLevel, World, Exec, pure, object, ◌>>=◌, ◌>>◌, number, text}
use idic.Sensor.Attributes.{
  EventKind, na, threshold, discrete, kind_of, set_mode, set_quit, set_fault_level, set_raw_value,
  get_event_type,
}
use idic.Sensor.Execute.{
  Phase, testing, entering, waiting, waiting_5, resumed, returned, crashed, holding, Held,
  first_test, quit_test,
}
use idic.Sensor.Execute.Steps.{write_object, has_quit, advance}
use idic.Command.SensorCommands.{must_wake}

-- The list of threads: one for each threshold sensor.
unfoldable pub spawn_from : List ℕ → Exec (List ℕ)
spawn_from [] = pure []
spawn_from (a ∷ rest) = do
  s ← object a
  k ← get_event_type s
  threads ← spawn_from rest
  elim k [ threshold ↦ pure (a ∷ threads) | _ ↦ pure threads ]

unfoldable pub spawn_sensor_thread : Exec (List ℕ)
unfolding spawn_from
spawn_sensor_thread w = spawn_from w.sensor_list w

-- What the other threads write to an object.
pub data Change : Type 0 where
  to_mode : Mode → Change
  to_level : FaultLevel → Change
  to_value : ℤ → Change
  to_text : Text → Change
  to_quit : Change

abbrev pub apply_change : Change → Sensor → Sensor
apply_change (to_mode m) s = set_mode m s
apply_change (to_level l) s = set_fault_level l s
apply_change (to_value x) s = set_raw_value (number x) s
apply_change (to_text t) s = set_raw_value (text t) s
apply_change to_quit s = set_quit true s

-- The statements of the other threads: a write; `acquire`, `notify` and `release` of a condition;
-- `thread.join()`; the read of `pre_mode` in `set_sensor_mode`, and the test of the mode with which
-- `set_sensor_value` begins.
pub data Order : Type 0 where
  change : ℕ → Change → Order
  wake join : ℕ → Order
  look : ℕ → Mode → Order
  leave : ℕ → Order

-- The two loops of `free_resource`: over the sensors, and over the threads.
unfoldable pub stop_orders : List ℕ → List Order
stop_orders [] = []
stop_orders (a ∷ rest) = change a (to_mode Mode.user) ∷ change a to_quit ∷ wake a ∷ stop_orders rest

unfoldable pub free_orders : List ℕ → List ℕ → List Order
unfolding stop_orders
free_orders sensors threads = stop_orders sensors ++ map join threads

-- `sensor mode set` with a mode, the same with a fault level, and `sensor value set` of
-- a threshold and of a discrete sensor.
unfoldable pub mode_orders : ℕ → Mode → List Order
mode_orders a m = look a m ∷ []

unfoldable pub fault_orders : ℕ → FaultLevel → List Order
fault_orders a l = change a (to_level l) ∷ look a Mode.fault ∷ []

unfoldable pub value_orders : ℕ → ℤ → List Order
value_orders a x = leave a ∷ change a (to_value x) ∷ []

unfoldable pub text_orders : ℕ → Text → List Order
text_orders a t = leave a ∷ change a (to_text t) ∷ []

-- The process: the objects, where each sensor's thread stands, and what is left to do in the main
-- thread and in the thread of the session.
pub record System : Type 0 where
  pub world : World
  pub phase : ℕ → Phase
  pub main : List Order
  pub session : List Order

abbrev pub with_phase : (ℕ → Phase) → ℕ → Phase → ℕ → Phase
with_phase f a p b = if a == b then p else f b

-- `notify` moves a thread that waits, and no other.
unfoldable pub woken : Phase → Phase
woken waiting = resumed
woken waiting_5 = resumed
woken p = p

abbrev pub is_held : Phase → Bool
is_held (holding h) = true
is_held _ = false

abbrev pub has_ended : Phase → Bool
has_ended returned = true
has_ended (crashed e) = true
has_ended _ = false

-- The condition has to be free, and `join` waits for the end of the thread.
unfoldable pub can_go : Order → (ℕ → Phase) → Bool
can_go (wake a) f = not (is_held (f a))
can_go (join a) f = has_ended (f a)
can_go _ f = true

unfoldable pub obey : Order → World → World
unfolding write_object
obey (change a c) w = write_object a (apply_change c) w
obey _ w = w

unfoldable pub phase_after : Order → (ℕ → Phase) → ℕ → Phase
unfolding woken
phase_after (wake a) f = with_phase f a (woken (f a))
phase_after _ f = f

abbrev pub behind_look : ℕ → Mode → Option Sensor → List Order
behind_look a m none = []
behind_look a m (some s) = change a (to_mode m) ∷ (if must_wake m s.mode then wake a ∷ [] else [])

abbrev pub leave_orders : ℕ → Mode → List Order
leave_orders a Mode.auto = change a (to_mode Mode.user) ∷ wake a ∷ []
leave_orders a _ = []

abbrev pub behind_leave : ℕ → Option Sensor → List Order
behind_leave a none = []
behind_leave a (some s) = leave_orders a s.mode

-- What follows a statement: the two reads decide on the next ones.
unfoldable pub orders_after : Order → World → List Order → List Order
orders_after (look a m) w rest = behind_look a m (get_elem? w.heap a) ++ rest
orders_after (leave a) w rest = behind_leave a (get_elem? w.heap a) ++ rest
orders_after _ w rest = rest

-- The list of threads has the one of `a`.
abbrev pub has_thread : ℕ → List ℕ → Bool
has_thread a [] = false
has_thread a (b ∷ threads) = b == a || has_thread a threads

-- The process behind `spawn_sensor_thread`: the threads stand before their loops, the main thread
-- has `free_resource` before it, whenever it comes to that, and the session the statements of its
-- commands.
unfoldable pub start : World → List ℕ → List Order → System
unfolding free_orders
start w threads commands = record {
  world = w;
  phase = λ a. if has_thread a threads then testing else returned;
  main = free_orders w.sensor_list threads;
  session = commands;
}

-- One step of the process.
pub data Step (s : System) : System → Type 0 where
  test :
      (a : ℕ)
      → s.phase a ≡ testing
      → Step s (record s {
        phase = with_phase s.phase a (if has_quit s.world a then returned else entering);
      })
  acquire :
      (a : ℕ)
      → s.phase a ≡ entering
      → Step s (record s { phase = with_phase s.phase a (holding first_test) })
  work :
      (a : ℕ) (h : Held)
      → s.phase a ≡ holding h
      → Step s (record s {
        world = (advance a h s.world).1;
        phase = with_phase s.phase a (advance a h s.world).0;
      })
  time_out :
      (a : ℕ) → s.phase a ≡ waiting_5 → Step s (record s { phase = with_phase s.phase a resumed })
  resume :
      (a : ℕ)
      → s.phase a ≡ resumed
      → Step s (record s { phase = with_phase s.phase a (holding quit_test) })
  main_step :
      (o : Order) (rest : List Order)
      → s.main ≡ o ∷ rest
      → can_go o s.phase ≡ true
      → Step s (record s {
        world = obey o s.world;
        phase = phase_after o s.phase;
        main = orders_after o s.world rest;
      })
  session_step :
      (o : Order) (rest : List Order)
      → s.session ≡ o ∷ rest
      → can_go o s.phase ≡ true
      → Step s (record s {
        world = obey o s.world;
        phase = phase_after o s.phase;
        session = orders_after o s.world rest;
      })

pub data Reach (s : System) : System → Type 0 where
  here : Reach s s
  next : {t u : System} → Reach s t → Step t u → Reach s u

pub Reach-trans : {s t u : System} → Reach s t → Reach t u → Reach s u
Reach-trans r here = r
Reach-trans r (next q st) = next (Reach-trans r q) st
