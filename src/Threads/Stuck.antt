-- ===== src/Threads/Stuck.antt =====
-- A thread that waits without a limit, and that no statement of another thread is left to wake.
use idic.Prelude.{
  ℕ, ◌≡◌, ◌≢◌, refl, sym, Bool, true, false, ◌||◌, Option, none, some, List, [], ◌∷◌, arith, ap,
  ◌∙◌, ◌==◌, if◌then◌else◌, get_elem?, ◌++◌,
}
use idic.Model.{Sensor, Mode, World}
use idic.Sensor.Execute.{
  Phase, testing, entering, waiting, waiting_5, resumed, returned, holding, first_test, quit_test,
}
use idic.Sensor.Execute.Steps.{has_quit, advance}
use idic.Threads.{
  Order, change, wake, join, look, leave, System, with_phase, woken, phase_after, behind_look,
  leave_orders, behind_leave, orders_after, Step, test, acquire, work, time_out, resume, main_step,
  session_step, Reach, here, next, must_wake,
}

-- Whether something is left that may wake the thread of `a`.
abbrev pub may_wake : ℕ → List Order → Bool
may_wake a [] = false
may_wake a (change b c ∷ rest) = may_wake a rest
may_wake a (wake b ∷ rest) = b == a || may_wake a rest
may_wake a (join b ∷ rest) = may_wake a rest
may_wake a (look b m ∷ rest) = b == a || may_wake a rest
may_wake a (leave b ∷ rest) = b == a || may_wake a rest

-- The thread is in `wait()`, and nothing is left that would wake it.
pub record IsStuck (a : ℕ) (s : System) : Type 0 where
  pub waits : s.phase a ≡ waiting
  pub main_quiet : may_wake a s.main ≡ false
  pub session_quiet : may_wake a s.session ≡ false

-- The phase of `a` is another one than `p`, so a step of a thread in `p` is not one of `a`.
pub other_thread :
    (f : ℕ → Phase) (a b : ℕ) (p q : Phase)
    → f b ≡ p
    → f a ≡ waiting
    → p ≢ waiting
    → with_phase f b q a ≡ waiting
other_thread f a b p q e h differ = ground (arith, λ (same : b ≡ a). differ (sym e ∙ ap f same ∙ h))

may_wake_other : (b c : Bool) → (b || c) ≡ false → (b ≡ false) × (c ≡ false)
may_wake_other true c h = absurd (cc)
may_wake_other false c h = (refl, h)

may_wake-behind_look :
    (a b : ℕ) (m : Mode) (o : Option Sensor) (rest : List Order)
    → (b == a) ≡ false
    → may_wake a rest ≡ false
    → may_wake a (behind_look b m o ++ rest) ≡ false
may_wake-behind_look a b m none rest h k = k
may_wake-behind_look a b m (some s) rest h k = by_bool (must_wake m s.mode)
  where
    by_bool : (c : Bool) → may_wake a ((if c then wake b ∷ [] else []) ++ rest) ≡ false
    by_bool true = rw h k
    by_bool false = k

may_wake-leave_orders :
    (a b : ℕ) (m : Mode) (rest : List Order)
    → (b == a) ≡ false
    → may_wake a rest ≡ false
    → may_wake a (leave_orders b m ++ rest) ≡ false
may_wake-leave_orders a b Mode.user rest h k = k
may_wake-leave_orders a b Mode.auto rest h k = rw h k
may_wake-leave_orders a b Mode.fault rest h k = k

may_wake-behind_leave :
    (a b : ℕ) (o : Option Sensor) (rest : List Order)
    → (b == a) ≡ false
    → may_wake a rest ≡ false
    → may_wake a (behind_leave b o ++ rest) ≡ false
may_wake-behind_leave a b none rest h k = k
may_wake-behind_leave a b (some s) rest h k = may_wake-leave_orders a b s.mode rest h k

pub may_wake-orders_after :
    (a : ℕ) (o : Order) (w : World) (rest : List Order)
    → may_wake a (o ∷ rest) ≡ false
    → may_wake a (orders_after o w rest) ≡ false
unfolding orders_after
may_wake-orders_after a (change b c) w rest h = h
may_wake-orders_after a (wake b) w rest h = (may_wake_other (b == a) (may_wake a rest) h).1
may_wake-orders_after a (join b) w rest h = h
may_wake-orders_after a (look b m) w rest h =
    let (other, quiet) = may_wake_other (b == a) (may_wake a rest) h in
    may_wake-behind_look a b m (get_elem? w.heap b) rest other quiet
may_wake-orders_after a (leave b) w rest h =
    let (other, quiet) = may_wake_other (b == a) (may_wake a rest) h in
    may_wake-behind_leave a b (get_elem? w.heap b) rest other quiet

pub phase_after-waits :
    (a : ℕ) (o : Order) (rest : List Order) (f : ℕ → Phase)
    → may_wake a (o ∷ rest) ≡ false
    → f a ≡ waiting
    → phase_after o f a ≡ waiting
unfolding phase_after
phase_after-waits a (change b c) rest f h k = k
phase_after-waits a (wake b) rest f h k =
    let (other, quiet) = may_wake_other (b == a) (may_wake a rest) h in
    ap (λ (c : Bool). if c then woken (f b) else f a) other ∙ k
phase_after-waits a (join b) rest f h k = k
phase_after-waits a (look b m) rest f h k = k
phase_after-waits a (leave b) rest f h k = k

pub Step-IsStuck : {a : ℕ} {s t : System} → Step s t → IsStuck a s → IsStuck a t
Step-IsStuck {a} {s} (test b e) h = record {
  waits =
      other_thread s.phase a b testing (if has_quit s.world b then returned else entering) e h.waits
        (cc);
  main_quiet = h.main_quiet;
  session_quiet = h.session_quiet;
}
Step-IsStuck {a} {s} (acquire b e) h = record {
  waits = other_thread s.phase a b entering (holding first_test) e h.waits (cc);
  main_quiet = h.main_quiet;
  session_quiet = h.session_quiet;
}
Step-IsStuck {a} {s} (work b p e) h = record {
  waits = other_thread s.phase a b (holding p) (advance b p s.world).0 e h.waits (cc);
  main_quiet = h.main_quiet;
  session_quiet = h.session_quiet;
}
Step-IsStuck {a} {s} (time_out b e) h = record {
  waits = other_thread s.phase a b waiting_5 resumed e h.waits (cc);
  main_quiet = h.main_quiet;
  session_quiet = h.session_quiet;
}
Step-IsStuck {a} {s} (resume b e) h = record {
  waits = other_thread s.phase a b resumed (holding quit_test) e h.waits (cc);
  main_quiet = h.main_quiet;
  session_quiet = h.session_quiet;
}
Step-IsStuck {a} {s} (main_step o rest e g) h =
    let quiet : may_wake a (o ∷ rest) ≡ false = sym (ap (may_wake a) e) ∙ h.main_quiet in
    record {
      waits = phase_after-waits a o rest s.phase quiet h.waits;
      main_quiet = may_wake-orders_after a o s.world rest quiet;
      session_quiet = h.session_quiet;
    }
Step-IsStuck {a} {s} (session_step o rest e g) h =
    let quiet : may_wake a (o ∷ rest) ≡ false = sym (ap (may_wake a) e) ∙ h.session_quiet in
    record {
      waits = phase_after-waits a o rest s.phase quiet h.waits;
      main_quiet = h.main_quiet;
      session_quiet = may_wake-orders_after a o s.world rest quiet;
    }

-- A stuck thread stays in `wait()` for ever.
pub Reach-IsStuck : {a : ℕ} {s t : System} → IsStuck a s → Reach s t → IsStuck a t
Reach-IsStuck h here = h
Reach-IsStuck h (next r st) = Step-IsStuck st (Reach-IsStuck h r)
