-- ===== src/Threads/Typed.antt =====
-- The types of the values, over every order of the statements of all threads (sensor.py,
-- ipmi_sim.py, command.py).
use mathlib.Core.Path.{subst}
use idic.Prelude.{
  ℕ, ◌≡◌, ◌≢◌, refl, sym, ap, ◌∙◌, Bool, true, false, Option, none, some, List, [], ◌∷◌, ◌++◌,
  get_elem?, inl, inr, if◌then◌else◌,
}
use idic.Model.{World, Sensor, Mode}
use idic.Sensor.Typed.{AllTyped}
use idic.Sensor.Execute.{Phase, entering, resumed, returned, holding, first_test, quit_test}
use idic.Sensor.Execute.Steps.{has_quit, advance}
use idic.Command.SensorCommands.{must_wake}
use idic.Threads.{
  Order, change, wake, join, look, leave, to_mode, to_level, to_value, to_text, to_quit, System,
  with_phase, woken, phase_after, behind_look, leave_orders, behind_leave, obey, orders_after, Step,
  test, acquire, work, time_out, resume, main_step, session_step, Reach, here, next,
}
use idic.Threads.Rounds.{with_phase-cases}
use idic.Threads.Writes.{
  IsThreshold, IsFine, same_heap-IsFine, IsFine-IsOfKind, advance-IsFine, OrderFits, obey-IsFine,
}

unfoldable pub OrdersFit : World → List Order → Type 0
OrdersFit w [] = Unit
OrdersFit w (o ∷ os) = OrderFits w o × OrdersFit w os

-- Threads run for threshold sensors only, and the values that are assigned fit their sensors.
pub record IsProper (s : System) : Type 0 where
  pub typed : AllTyped s.world
  pub threads : (a : ℕ) → s.phase a ≢ returned → IsThreshold s.world a
  pub main_fits : OrdersFit s.world s.main
  pub session_fits : OrdersFit s.world s.session

OrderFits-IsFine : {v w : World} (o : Order) → IsFine v w → OrderFits v o → OrderFits w o
OrderFits-IsFine (change a (to_value x)) h k = IsFine-IsOfKind a h k
OrderFits-IsFine (change a (to_text t)) h (k, six) = (IsFine-IsOfKind a h k, six)
OrderFits-IsFine (change a (to_mode m)) h k = tt
OrderFits-IsFine (change a (to_level l)) h k = tt
OrderFits-IsFine (change a to_quit) h k = tt
OrderFits-IsFine (wake a) h k = tt
OrderFits-IsFine (join a) h k = tt
OrderFits-IsFine (look a m) h k = tt
OrderFits-IsFine (leave a) h k = tt

OrdersFit-IsFine : {v w : World} (os : List Order) → IsFine v w → OrdersFit v os → OrdersFit w os
unfolding OrdersFit
OrdersFit-IsFine [] h k = tt
OrdersFit-IsFine (o ∷ os) h (k, ks) = (OrderFits-IsFine o h k, OrdersFit-IsFine os h ks)

OrdersFit-behind_look :
    (w : World) (a : ℕ) (m : Mode) (o : Option Sensor) (rest : List Order)
    → OrdersFit w rest
    → OrdersFit w (behind_look a m o ++ rest)
unfolding OrdersFit
OrdersFit-behind_look w a m none rest h = h
OrdersFit-behind_look w a m (some s) rest h = (tt, by_bool (must_wake m s.mode))
  where
    by_bool : (c : Bool) → OrdersFit w ((if c then wake a ∷ [] else []) ++ rest)
    by_bool true = (tt, h)
    by_bool false = h

OrdersFit-leave_orders :
    (w : World) (a : ℕ) (m : Mode) (rest : List Order)
    → OrdersFit w rest
    → OrdersFit w (leave_orders a m ++ rest)
unfolding OrdersFit
OrdersFit-leave_orders w a Mode.user rest h = h
OrdersFit-leave_orders w a Mode.auto rest h = (tt, (tt, h))
OrdersFit-leave_orders w a Mode.fault rest h = h

OrdersFit-behind_leave :
    (w : World) (a : ℕ) (o : Option Sensor) (rest : List Order)
    → OrdersFit w rest
    → OrdersFit w (behind_leave a o ++ rest)
OrdersFit-behind_leave w a none rest h = h
OrdersFit-behind_leave w a (some s) rest h = OrdersFit-leave_orders w a s.mode rest h

OrdersFit-orders_after :
    (o : Order) (u w : World) (rest : List Order)
    → OrdersFit w rest
    → OrdersFit w (orders_after o u rest)
unfolding orders_after
OrdersFit-orders_after (change a c) u w rest h = h
OrdersFit-orders_after (wake a) u w rest h = h
OrdersFit-orders_after (join a) u w rest h = h
OrdersFit-orders_after (look a m) u w rest h =
    OrdersFit-behind_look w a m (get_elem? u.heap a) rest h
OrdersFit-orders_after (leave a) u w rest h = OrdersFit-behind_leave w a (get_elem? u.heap a) rest h

-- One thread moves that has not returned.
moved_threads :
    {s : System} {w : World} (b : ℕ) (q : Phase)
    → IsProper s
    → IsFine s.world w
    → s.phase b ≢ returned
    → (a : ℕ) → with_phase s.phase b q a ≢ returned
    → IsThreshold w a
moved_threads {s} b q h f going a runs = elim (with_phase-cases s.phase b a q) [
  | inl (same, e) ↦ IsFine-IsOfKind a f (h.threads a (λ k. going (ap s.phase same ∙ k)))
  | inr (other, e) ↦ IsFine-IsOfKind a f (h.threads a (λ k. runs (e ∙ k)))
]

moved-IsProper :
    {s : System} {w : World} (b : ℕ) (q : Phase)
    → IsProper s
    → IsFine s.world w
    → s.phase b ≢ returned
    → IsProper (record s { world = w; phase = with_phase s.phase b q })
moved-IsProper {s} b q h f going = record {
  typed = f.typed;
  threads = moved_threads b q h f going;
  main_fits = OrdersFit-IsFine s.main f h.main_fits;
  session_fits = OrdersFit-IsFine s.session f h.session_fits;
}

-- `notify` starts no thread that has returned.
phase_after-returned :
    (o : Order) (f : ℕ → Phase) (a : ℕ) → phase_after o f a ≢ returned → f a ≢ returned
unfolding phase_after woken
phase_after-returned (wake b) f a runs = elim (with_phase-cases f b a (woken (f b))) [
  | inl (same, e) ↦ λ k. runs (e ∙ ap woken (ap f same ∙ k))
  | inr (other, e) ↦ λ k. runs (e ∙ k)
]
phase_after-returned (change b c) f a runs = runs
phase_after-returned (join b) f a runs = runs
phase_after-returned (look b m) f a runs = runs
phase_after-returned (leave b) f a runs = runs

other_phase : {p q : Phase} → q ≡ p → p ≢ returned → q ≢ returned
other_phase e h k = h (sym e ∙ k)

Step-IsProper : {s t : System} → Step s t → IsProper s → IsProper t
unfolding OrdersFit
Step-IsProper {s} (test b e) h =
    moved-IsProper b (if has_quit s.world b then returned else entering) h
      (same_heap-IsFine s.world s.world refl h.typed) (other_phase e (cc))
Step-IsProper {s} (acquire b e) h =
    moved-IsProper b (holding first_test) h (same_heap-IsFine s.world s.world refl h.typed)
      (other_phase e (cc))
Step-IsProper {s} (work b p e) h =
    moved-IsProper b (advance b p s.world).0 h
      (advance-IsFine b p s.world (h.threads b (other_phase e (cc))) h.typed) (other_phase e (cc))
Step-IsProper {s} (time_out b e) h =
    moved-IsProper b resumed h (same_heap-IsFine s.world s.world refl h.typed) (other_phase e (cc))
Step-IsProper {s} (resume b e) h =
    moved-IsProper b (holding quit_test) h (same_heap-IsFine s.world s.world refl h.typed)
      (other_phase e (cc))
Step-IsProper {s} (main_step o rest e g) h =
    let (fit, fits) = subst (OrdersFit s.world) e h.main_fits in
    let f = obey-IsFine o s.world fit h.typed in
    record {
      typed = f.typed;
      threads = λ a runs. IsFine-IsOfKind a f (h.threads a (phase_after-returned o s.phase a runs));
      main_fits =
          OrdersFit-orders_after o s.world (obey o s.world) rest (OrdersFit-IsFine rest f fits);
      session_fits = OrdersFit-IsFine s.session f h.session_fits;
    }
Step-IsProper {s} (session_step o rest e g) h =
    let (fit, fits) = subst (OrdersFit s.world) e h.session_fits in
    let f = obey-IsFine o s.world fit h.typed in
    record {
      typed = f.typed;
      threads = λ a runs. IsFine-IsOfKind a f (h.threads a (phase_after-returned o s.phase a runs));
      main_fits = OrdersFit-IsFine s.main f h.main_fits;
      session_fits =
          OrdersFit-orders_after o s.world (obey o s.world) rest (OrdersFit-IsFine rest f fits);
    }

pub Reach-IsProper : {s t : System} → Reach s t → IsProper s → IsProper t
Reach-IsProper here h = h
Reach-IsProper (next r st) h = Step-IsProper st (Reach-IsProper r h)
