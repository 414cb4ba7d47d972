-- ===== src/Threads/Modes.antt =====
-- The statements with which a command of the session (command.py) changes a mode, in a row, against
-- `set_mode` and what follows it in the command.
use mathlib.Core.Path.{subst}
use idic.Prelude.{
  ℕ, ◌≡◌, refl, ap, ◌∙◌, sym, Bool, true, false, not, Option, none, some, List, [], ◌∷◌, ◌++◌,
  get_elem?, set, if◌then◌else◌, append-nil,
}
use idic.Text.{Text, codes}
use idic.Model.{Sensor, Mode, World, notify, pure, put_message, object-bind, ◌>>◌}
use idic.Sensor.Attributes.{set_mode}
use idic.Sensor.Execute.{Phase}
use idic.Sensor.Execute.Steps.{write_object}
use idic.Command.SensorCommands.{must_wake, mode_name, change_mode}
use idic.Threads.{
  Order, change, to_mode, wake, look, System, with_phase, woken, is_held, can_go, obey, phase_after,
  behind_look, orders_after, mode_orders, session_step, Reach, here, next,
}

-- What the notifications of a command do to the threads.
unfoldable pub wake_all : List ℕ → (ℕ → Phase) → ℕ → Phase
unfolding woken
wake_all [] f = f
wake_all (b ∷ rest) f = wake_all rest (with_phase f b (woken (f b)))

-- What a block of a command does to the process, if the statements that are left for the session run
-- in a row: the objects, and the threads that are woken.
abbrev pub Performs : System → List Order → World → Type 0
Performs s rest v =
    (woke : List ℕ) × (v.notified ≡ s.world.notified ++ woke)
    × Reach s (record s {
      world = record s.world { heap = v.heap };
      phase = wake_all woke s.phase;
      session = rest;
    })

pub session_goes :
    (s t : System) (o : Order) (rest : List Order)
    → Reach s t
    → t.session ≡ o ∷ rest
    → can_go o t.phase ≡ true
    → Reach s (record t {
      world = obey o t.world;
      phase = phase_after o t.phase;
      session = orders_after o t.world rest;
    })
session_goes s t o rest r e go = next r (session_step o rest e go)

pub write_object-found :
    (a : ℕ) (f : Sensor → Sensor) (w : World) (x : Sensor)
    → get_elem? w.heap a ≡ some x
    → write_object a f w ≡ record w { heap = set w.heap a (f x) }
unfolding write_object
write_object-found a f w x e =
    ap
      (λ (o : Option Sensor). record w {
        heap = elim o [ none ↦ w.heap | some s ↦ set w.heap a (f s) ];
      })
      e

abbrev wakes : ℕ → Bool → List ℕ
wakes a b = if b then a ∷ [] else []

notify_if :
    (b : Bool) (a : ℕ) (t : Text) (u : World)
    → (((if b then notify a else pure tt) >> put_message t) u).1
      ≡ record u { notified = u.notified ++ wakes a b; msg_queue = u.msg_queue ++ t ∷ [] }
notify_if true a t u = refl
notify_if false a t u =
    ap (λ l. record u { notified = l; msg_queue = u.msg_queue ++ t ∷ [] })
      (sym (append-nil u.notified))

changed : ℕ → Mode → Sensor → World → World
changed a m x w = record w {
  heap = set w.heap a (set_mode m x);
  notified = w.notified ++ wakes a (must_wake m x.mode);
  msg_queue =
      w.msg_queue
      ++ (codes "Sensor " ++ x.name ++ codes " changed to " ++ mode_name m ++ codes "\n") ∷ [];
}

change_mode_lem :
    (a : ℕ) (m : Mode) (w : World) (x : Sensor)
    → get_elem? w.heap a ≡ some x
    → (change_mode a m w).1 ≡ changed a m x w
unfolding change_mode changed
change_mode_lem a m w x e =
    ap (λ p. p.1) (object-bind a _ w e)
    ∙ notify_if (must_wake m x.mode) a _ (record w { heap = set w.heap a (set_mode m x) })

-- The statements of `sensor mode set` without a level, on a sensor whose condition is free.
pub mode_orders-Reach :
    (s : System) (a : ℕ) (m : Mode) (x : Sensor) (rest : List Order)
    → get_elem? s.world.heap a ≡ some x
    → is_held (s.phase a) ≡ false
    → s.session ≡ mode_orders a m ++ rest
    → Performs s rest (change_mode a m s.world).1
unfolding changed mode_orders can_go obey phase_after orders_after wake_all
mode_orders-Reach s a m x rest e free todo = (
  wakes a (must_wake m x.mode),
  ap (λ w. w.notified) (change_mode_lem a m s.world x e),
  subst
      (λ h. Reach s (record s {
        world = record s.world { heap = h };
        phase = wake_all (wakes a (must_wake m x.mode)) s.phase;
        session = rest;
      }))
      (sym (ap (λ w. w.heap) (change_mode_lem a m s.world x e)))
      (by_bool (must_wake m x.mode) written),
)
  where
    looked : Reach s (record s { session = behind_look a m (some x) ++ rest })
    looked =
        subst (λ o. Reach s (record s { session = behind_look a m o ++ rest })) e
          (session_goes s s (look a m) rest here todo refl)

    written : Reach s (record s {
      world = record s.world { heap = set s.world.heap a (set_mode m x) };
      session = (if must_wake m x.mode then wake a ∷ [] else []) ++ rest;
    })
    written =
        subst
          (λ w. Reach s (record s {
            world = w;
            session = (if must_wake m x.mode then wake a ∷ [] else []) ++ rest;
          }))
          (write_object-found a (set_mode m) s.world x e)
          (session_goes s _ (change a (to_mode m)) _ looked refl refl)

    by_bool :
        (b : Bool)
        → Reach s (record s {
          world = record s.world { heap = set s.world.heap a (set_mode m x) };
          session = (if b then wake a ∷ [] else []) ++ rest;
        })
        → Reach s (record s {
          world = record s.world { heap = set s.world.heap a (set_mode m x) };
          phase = wake_all (wakes a b) s.phase;
          session = rest;
        })
    by_bool true r = session_goes s _ (wake a) rest r refl (ap not free)
    by_bool false r = r
