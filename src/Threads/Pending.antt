-- ===== src/Threads/Pending.antt =====
-- A thread that waits without a limit until the main thread (free_resource of ipmi_sim.py) wakes it.
use mathlib.Core.Path.{subst}
use idic.Prelude.{
  ℕ, ◌+◌, ◌≤◌, ◌<◌, ◌≡◌, ◌≢◌, sym, ap, ◌∙◌, Bool, true, false, ◌⊎◌, inl, inr, Option, none, some,
  List, [], ◌∷◌, ◌++◌, arith, ◌==◌, if◌then◌else◌, get_elem?, Bool-cases,
}
use idic.Model.{Sensor, Mode, World}
use idic.Sensor.Execute.{Phase, testing, entering, waiting, waiting_5, resumed, holding}
use idic.Threads.{
  Order, change, wake, join, look, leave, System, with_phase, woken, phase_after, behind_look,
  leave_orders, behind_leave, orders_after, Step, test, acquire, work, time_out, resume, main_step,
  session_step, Reach, here, next, must_wake,
}
use idic.Threads.Stuck.{may_wake, other_thread, may_wake-orders_after, phase_after-waits}

-- How many notifications of `a` are left.
abbrev pub notifies : ℕ → Order → ℕ
notifies a (change b c) = 0
notifies a (wake b) = if b == a then 1 else 0
notifies a (join b) = 0
notifies a (look b m) = if b == a then 1 else 0
notifies a (leave b) = if b == a then 1 else 0

abbrev pub pending : ℕ → List Order → ℕ
pending a [] = 0
pending a (o ∷ rest) = notifies a o + pending a rest

pending-behind_look :
    (a b : ℕ) (m : Mode) (o : Option Sensor) (rest : List Order)
    → pending a (behind_look b m o ++ rest) ≤ notifies a (look b m) + pending a rest
pending-behind_look a b m none rest = omega arith
pending-behind_look a b m (some s) rest = omega (arith, by_bool (must_wake m s.mode))
  where
    by_bool :
        (c : Bool)
        → pending a ((if c then wake b ∷ [] else []) ++ rest)
          ≤ notifies a (look b m) + pending a rest
    by_bool true = omega arith
    by_bool false = omega arith

pending-behind_leave :
    (a b : ℕ) (o : Option Sensor) (rest : List Order)
    → pending a (behind_leave b o ++ rest) ≤ notifies a (leave b) + pending a rest
pending-behind_leave a b none rest = omega arith
pending-behind_leave a b (some s) rest = by_mode s.mode
  where
    by_mode :
        (m : Mode) → pending a (leave_orders b m ++ rest) ≤ notifies a (leave b) + pending a rest
    by_mode Mode.user = omega arith
    by_mode Mode.auto = omega arith
    by_mode Mode.fault = omega arith

-- No statement brings more of them.
pending-orders_after :
    (a : ℕ) (o : Order) (w : World) (rest : List Order)
    → pending a (orders_after o w rest) ≤ notifies a o + pending a rest
unfolding orders_after
pending-orders_after a (change b c) w rest = omega arith
pending-orders_after a (wake b) w rest = omega arith
pending-orders_after a (join b) w rest = omega arith
pending-orders_after a (look b m) w rest = pending-behind_look a b m (get_elem? w.heap b) rest
pending-orders_after a (leave b) w rest = pending-behind_leave a b (get_elem? w.heap b) rest

-- A thread that waits goes on waiting, or the statement was its notification.
phase_after-wakes :
    (a : ℕ) (o : Order) (w : World) (rest : List Order) (f : ℕ → Phase)
    → f a ≡ waiting
    → (phase_after o f a ≡ waiting)
      ⊎ (pending a (orders_after o w rest) < notifies a o + pending a rest)
unfolding phase_after orders_after
phase_after-wakes a (change b c) w rest f h = inl h
phase_after-wakes a (wake b) w rest f h = elim (Bool-cases (b == a)) [
  | inl its ↦ inr (rw its (omega arith))
  | inr other ↦ inl (ap (λ (c : Bool). if c then woken (f b) else f a) other ∙ h)
]
phase_after-wakes a (join b) w rest f h = inl h
phase_after-wakes a (look b m) w rest f h = inl h
phase_after-wakes a (leave b) w rest f h = inl h

-- The session has nothing left that would wake the thread of `a`, and the thread is in `wait()`, or
-- fewer than n notifications of it are left to the main thread.
pub record WaitsFor (a n : ℕ) (s : System) : Type 0 where
  pub session_quiet : may_wake a s.session ≡ false
  pub left : pending a s.main ≤ n
  pub waits : (s.phase a ≡ waiting) ⊎ (pending a s.main < n)

elsewhere :
    (f : ℕ → Phase) (a b n m : ℕ) (p q : Phase)
    → f b ≡ p
    → p ≢ waiting
    → (f a ≡ waiting) ⊎ (m < n)
    → (with_phase f b q a ≡ waiting) ⊎ (m < n)
elsewhere f a b n m p q e differ (inl h) = inl (other_thread f a b p q e h differ)
elsewhere f a b n m p q e differ (inr h) = inr h

by_main :
    (a n : ℕ) (o : Order) (w : World) (rest : List Order) (f : ℕ → Phase)
    → notifies a o + pending a rest ≤ n
    → (f a ≡ waiting) ⊎ (notifies a o + pending a rest < n)
    → (phase_after o f a ≡ waiting) ⊎ (pending a (orders_after o w rest) < n)
by_main a n o w rest f le (inl h) = elim (phase_after-wakes a o w rest f h) [
  | inl still ↦ inl still
  | inr less ↦ inr (omega (arith, less, le))
]
by_main a n o w rest f le (inr less) = inr (omega (arith, less, pending-orders_after a o w rest))

by_session :
    (a n m : ℕ) (o : Order) (rest : List Order) (f : ℕ → Phase)
    → may_wake a (o ∷ rest) ≡ false
    → (f a ≡ waiting) ⊎ (m < n)
    → (phase_after o f a ≡ waiting) ⊎ (m < n)
by_session a n m o rest f quiet (inl h) = inl (phase_after-waits a o rest f quiet h)
by_session a n m o rest f quiet (inr less) = inr less

moved :
    {a n : ℕ} {s : System} (b : ℕ) (p q : Phase) (w : World)
    → s.phase b ≡ p
    → p ≢ waiting
    → WaitsFor a n s
    → WaitsFor a n (record s { world = w; phase = with_phase s.phase b q })
moved {a} {n} {s} b p q w e differ h = record {
  session_quiet = h.session_quiet;
  left = h.left;
  waits = elsewhere s.phase a b n (pending a s.main) p q e differ h.waits;
}

Step-WaitsFor : {a n : ℕ} {s t : System} → Step s t → WaitsFor a n s → WaitsFor a n t
Step-WaitsFor {a} {n} {s} (test b e) h = moved b testing _ s.world e (cc) h
Step-WaitsFor {a} {n} {s} (acquire b e) h = moved b entering _ s.world e (cc) h
Step-WaitsFor {a} {n} {s} (work b p e) h = moved b (holding p) _ _ e (cc) h
Step-WaitsFor {a} {n} {s} (time_out b e) h = moved b waiting_5 _ s.world e (cc) h
Step-WaitsFor {a} {n} {s} (resume b e) h = moved b resumed _ s.world e (cc) h
Step-WaitsFor {a} {n} {s} (main_step o rest e g) h =
    let same : pending a s.main ≡ notifies a o + pending a rest = ap (pending a) e in
    record {
      session_quiet = h.session_quiet;
      left = omega (arith, same, h.left, pending-orders_after a o s.world rest);
      waits =
          by_main a n o s.world rest s.phase (omega (arith, same, h.left))
            (subst (λ k. (s.phase a ≡ waiting) ⊎ (k < n)) same h.waits);
    }
Step-WaitsFor {a} {n} {s} (session_step o rest e g) h =
    let quiet : may_wake a (o ∷ rest) ≡ false = sym (ap (may_wake a) e) ∙ h.session_quiet in
    record {
      session_quiet = may_wake-orders_after a o s.world rest quiet;
      left = h.left;
      waits = by_session a n (pending a s.main) o rest s.phase quiet h.waits;
    }

pub Reach-WaitsFor : {a n : ℕ} {s t : System} → WaitsFor a n s → Reach s t → WaitsFor a n t
Reach-WaitsFor h here = h
Reach-WaitsFor h (next r st) = Step-WaitsFor st (Reach-WaitsFor h r)
