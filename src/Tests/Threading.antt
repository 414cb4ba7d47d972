-- ===== src/Tests/Threading.antt =====
-- The theorems on threads.
use idic.Prelude.{◌≡◌, ◌≢◌, refl, some, [], ◌∷◌, true, get_elem?, none, ◌⊎◌, ◌<◌}
use idic.Model.{Mode, attribute_error, Sensor}
use idic.Sensor.Attributes.{set_mode}
use idic.Sensor.Execute.{
  entering, waiting, resumed, crashed, holding, first_test, resetting, round, after_round,
}
use idic.Sensor.Execute.Steps.{has_quit}
use idic.Threads.{
  System, change, wake, join, look, to_mode, to_quit, with_phase, woken, main_step, here, next,
  Reach, free_orders, obey, phase_after, orders_after, can_go,
}
use idic.Threads.LostWakeup.{lost_wakeup}
use idic.Threads.Shutdown.{CanEnd, shutdown_stops}
use idic.Threads.Rounds.{moved_to, round-Reach}
use idic.Text.{codes}
use idic.Command.SensorCommands.{set_sensor_mode}
use idic.Threads.Modes.{Performs}
use idic.Threads.Commands.{set_sensor_mode-Reach}
use idic.Threads.Pending.{pending}
use idic.Threads.Races.{mode_race, mode_lost}
use idic.Tests.Fixture.{world, fan}

-- The thread of the fan is between its test and the acquisition when the shutdown begins.
abbrev late : System
late = record {
  world = world;
  phase = λ a. entering;
  main = change 0 (to_mode Mode.user) ∷ change 0 to_quit ∷ wake 0 ∷ join 0 ∷ [];
  session = [];
}

free_orders_test : free_orders (0 ∷ []) (0 ∷ []) ≡ late.main
unfolding free_orders
free_orders_test = refl

lost_wakeup_example :
    (t : System) × Reach late t
    × (has_quit t.world 0 ≡ true)
    × ((u : System) → Reach t u → (u.phase 0 ≡ waiting) × (u.main ≢ []))
lost_wakeup_example = lost_wakeup 0 late fan (join 0 ∷ []) refl refl refl refl refl refl

-- The flag is set, the thread waits, and its notification is still to come.
abbrev stopping : System
stopping = record {
  world = record world { heap = record fan { quit = true; mode = Mode.user } ∷ [] };
  phase = λ a. waiting;
  main = wake 0 ∷ join 0 ∷ [];
  session = [];
}

abbrev stopped : System
stopped = record stopping { phase = with_phase (λ a. waiting) 0 resumed; main = join 0 ∷ [] }

shutdown_stops_example : CanEnd 0 stopped
unfolding has_quit woken obey phase_after orders_after can_go
shutdown_stops_example =
    shutdown_stops 0 stopping stopped refl (λ h. cc) refl
      (next here (main_step (wake 0) (join 0 ∷ []) refl refl)) refl

-- The thread of the fan has taken the condition.
abbrev held : System
held = record { world = world; phase = λ a. holding first_test; main = []; session = [] }

round-Reach_example :
    Reach held (moved_to 0 held (after_round (round 0 world).0, (round 0 world).1))
round-Reach_example = round-Reach 0 held refl

abbrev auto_fan : Sensor
auto_fan = record fan { mode = Mode.auto; fault_level = none }

-- A value is assigned while the thread is at the first test of the mode.
abbrev leaving : System
leaving = record {
  world = record world { heap = auto_fan ∷ [] };
  phase = λ a. holding first_test;
  main = [];
  session = change 0 (to_mode Mode.user) ∷ wake 0 ∷ [];
}

mode_race_example : (t : System) × Reach leaving t × (t.phase 0 ≡ crashed attribute_error)
mode_race_example = mode_race 0 leaving auto_fan (wake 0 ∷ []) refl refl refl refl refl

abbrev faulty_fan : Sensor
faulty_fan = record fan { mode = Mode.fault }

-- The mode auto is asked for while a round of the fault mode ends; the shutdown is still to come.
abbrev asking : System
asking = record {
  world = record world { heap = faulty_fan ∷ [] };
  phase = λ a. holding (resetting none);
  main = late.main;
  session = look 0 Mode.auto ∷ [];
}

mode_lost_example :
    (t : System) × Reach asking t
    × (get_elem? t.world.heap 0 ≡ some (set_mode Mode.auto faulty_fan))
    × ((u : System) → Reach t u → (u.phase 0 ≡ waiting) ⊎ (pending 0 u.main < pending 0 late.main))
mode_lost_example = mode_lost 0 asking faulty_fan [] refl refl refl refl refl refl

abbrev user_fan : Sensor
user_fan = record fan { mode = Mode.user }

-- The fan is in user mode, its thread waits, and a user types `sensor mode set 0x42 auto`.
abbrev commanding : System
commanding = record {
  world = record world { heap = user_fan ∷ []; sensor_id_map = ((0x42, 0x20), 0) ∷ [] };
  phase = λ a. waiting;
  main = [];
  session = look 0 Mode.auto ∷ [];
}

set_sensor_mode-Reach_example :
    Performs commanding [] (set_sensor_mode (codes "0x42" ∷ codes "auto" ∷ []) commanding.world).1
unfolding idic.Threads.Commands.set_mode_orders idic.Threads.mode_orders
    idic.Command.SensorCommands.parse_mode idic.Command.Lookup.get_sensor_instance
    idic.Text.int_of_text idic.Sdr.find_id codes idic.Text.text_eq
set_sensor_mode-Reach_example =
    set_sensor_mode-Reach commanding (codes "0x42") (codes "auto") [] 0 user_fan [] refl refl refl
      refl
