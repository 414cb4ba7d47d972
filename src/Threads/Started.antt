-- ===== src/Threads/Started.antt =====
-- The process that `spawn_sensor_thread` (ipmi_sim.py) starts.
use mathlib.Core.Path.{subst}
use idic.Prelude.{
  ℕ, ◌≡◌, ◌≢◌, refl, sym, ap, ◌∙◌, Bool, true, false, ◌||◌, Option, none, some, List, [], ◌∷◌, ◌++◌,
  map, get_elem?, inl, inr, if◌then◌else◌, ◌==◌, ==_iff, Bool-cases,
}
use idic.Model.{
  World, Sensor, ok, Exec, pure, attribute, continue, or_raise, attribute_error, ◌>>=◌, >>=-eq-ok,
}
use idic.Sensor.Attributes.{EventKind, na, threshold, discrete, kind_of}
use idic.Sensor.Law.{HasKind}
use idic.Sensor.Typed.{AllTyped}
use idic.Sensor.Execute.{testing, returned}
use idic.Threads.{
  Order, join, System, spawn_from, spawn_sensor_thread, stop_orders, free_orders, has_thread, start,
  Reach,
}
use idic.Threads.Writes.{IsThreshold}
use idic.Threads.Typed.{OrdersFit, IsProper, Reach-IsProper}

-- Each thread is of a threshold sensor.
unfoldable AllThreshold : World → List ℕ → Type 0
AllThreshold w threads = (a : ℕ) → has_thread a threads ≡ true → IsThreshold w a

one_more :
    (w : World) (a : ℕ) (threads : List ℕ)
    → IsThreshold w a
    → AllThreshold w threads
    → AllThreshold w (a ∷ threads)
unfolding AllThreshold
one_more w a threads h k b listed = elim (Bool-cases (a == b)) [
  | inl same ↦ subst (IsThreshold w) ((==_iff a b).0 same) h
  | inr other ↦ k b (ap (λ (c : Bool). c || has_thread b threads) (sym other) ∙ listed)
]

-- What is left of a round of the loop.
abbrev add_thread : ℕ → EventKind → List ℕ → Exec (List ℕ)
add_thread a k threads = elim k [ threshold ↦ pure (a ∷ threads) | _ ↦ pure threads ]

add_thread-AllThreshold :
    (w u : World) (a : ℕ) (k : EventKind) (threads all : List ℕ)
    → (k ≡ threshold → IsThreshold w a)
    → AllThreshold w threads
    → (add_thread a k threads u).0 ≡ ok all
    → AllThreshold w all
add_thread-AllThreshold w u a na threads all h k e =
    let same : threads ≡ all = cc in subst (AllThreshold w) same k
add_thread-AllThreshold w u a threshold threads all h k e =
    let same : a ∷ threads ≡ all = cc in
    subst (AllThreshold w) same (one_more w a threads (h refl) k)
add_thread-AllThreshold w u a discrete threads all h k e =
    let same : threads ≡ all = cc in subst (AllThreshold w) same k

found_threshold :
    (w : World) (a : ℕ) (s : Sensor) (n : ℕ)
    → get_elem? w.heap a ≡ some s
    → s.event_type ≡ some n
    → kind_of n ≡ threshold
    → IsThreshold w a
found_threshold w a s n found e k x again =
    let same : s ≡ x = cc in
    subst (λ t. HasKind t threshold) same (record { number = n; has = e; is = k })

spawn_from-AllThreshold :
    (w : World) (l threads : List ℕ) → (spawn_from l w).0 ≡ ok threads → AllThreshold w threads
unfolding spawn_from AllThreshold
spawn_from-AllThreshold w [] threads e =
    let same : [] ≡ threads = cc in subst (AllThreshold w) same (λ b no. absurd (cc))
spawn_from-AllThreshold w (a ∷ rest) threads e =
    by_object (spawn_from-AllThreshold w rest) (get_elem? w.heap a) refl e
  where
    by_type :
        ((others : List ℕ) → (spawn_from rest w).0 ≡ ok others → AllThreshold w others)
        → (s : Sensor) (o : Option ℕ) → get_elem? w.heap a ≡ some s
        → s.event_type ≡ o
        → ((attribute o >>= (λ n. pure (kind_of n)) >>= λ k. spawn_from rest >>= add_thread a k)
            w).0
          ≡ ok threads
        → AllThreshold w threads
    by_type rec s none found t e = cc
    by_type rec s (some n) found t e =
        let (others, first, last) = >>=-eq-ok (spawn_from rest) (add_thread a (kind_of n)) w e in
        add_thread-AllThreshold w (spawn_from rest w).1 a (kind_of n) others threads
          (found_threshold w a s n found t) (rec others first) last

    by_object :
        ((others : List ℕ) → (spawn_from rest w).0 ≡ ok others → AllThreshold w others)
        → (o : Option Sensor) → get_elem? w.heap a ≡ o
        → (continue
            (or_raise attribute_error o)
            (λ s. attribute s.event_type >>= (λ n. pure (kind_of n)) >>= λ k.
              spawn_from rest >>= add_thread a k)
            w).0
          ≡ ok threads
        → AllThreshold w threads
    by_object rec none found e = cc
    by_object rec (some s) found e = by_type rec s s.event_type found refl e

OrdersFit-stop_orders :
    (w : World) (l : List ℕ) (rest : List Order)
    → OrdersFit w rest
    → OrdersFit w (stop_orders l ++ rest)
unfolding stop_orders OrdersFit
OrdersFit-stop_orders w [] rest h = h
OrdersFit-stop_orders w (a ∷ l) rest h = (tt, (tt, (tt, OrdersFit-stop_orders w l rest h)))

OrdersFit-joins : (w : World) (l : List ℕ) → OrdersFit w (map join l)
unfolding OrdersFit
OrdersFit-joins w [] = tt
OrdersFit-joins w (a ∷ l) = (tt, OrdersFit-joins w l)

start-IsProper :
    (w : World) (threads : List ℕ) (commands : List Order)
    → (spawn_sensor_thread w).0 ≡ ok threads
    → AllTyped w
    → OrdersFit w commands
    → IsProper (start w threads commands)
unfolding start free_orders spawn_sensor_thread AllThreshold
start-IsProper w threads commands spawned typed fit = record {
  typed = typed;
  threads = λ a runs.
      at_thread a (spawn_from-AllThreshold w w.sensor_list threads spawned) (listed a runs);
  main_fits = OrdersFit-stop_orders w w.sensor_list (map join threads) (OrdersFit-joins w threads);
  session_fits = fit;
}
  where
    at_thread : (a : ℕ) → AllThreshold w threads → has_thread a threads ≡ true → IsThreshold w a
    at_thread a h = h a

    by_bool : (b : Bool) → (if b then testing else returned) ≢ returned → b ≡ true
    by_bool true h = refl
    by_bool false h = absurd (h refl)

    listed :
        (a : ℕ)
        → (if has_thread a threads then testing else returned) ≢ returned
        → has_thread a threads ≡ true
    listed a = by_bool (has_thread a threads)

-- Where `spawn_sensor_thread` has started its threads on sensors whose values have the type of
-- their kind, and the session assigns numbers to threshold sensors only, and to discrete ones only
-- 0x and four characters, the values keep their types in every state, in whatever order the
-- statements of the sensor threads, of `free_resource` and of the session run.
pub Reach-AllTyped :
    (w : World) (threads : List ℕ) (commands : List Order) (t : System)
    → (spawn_sensor_thread w).0 ≡ ok threads
    → AllTyped w
    → OrdersFit w commands
    → Reach (start w threads commands) t
    → AllTyped t.world
Reach-AllTyped w threads commands t spawned typed fit r =
    (Reach-IsProper r (start-IsProper w threads commands spawned typed fit)).typed
