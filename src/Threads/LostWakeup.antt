-- ===== src/Threads/LostWakeup.antt =====
-- A thread that `free_resource` (ipmi_sim.py) never wakes. `execute` tests `quit` before it acquires
-- the condition, so the flag and the notification can both fall between the two.
use idic.Prelude.{
  Bool-cases, inl, inr, ==_iff, not, ℕ, ◌≡◌, ◌≢◌, refl, sym, Bool, true, false, ◌||◌, Option, none,
  some, List, [], ◌∷◌, ap, ◌∙◌, ◌==◌, if◌then◌else◌, get_elem?, ◌++◌, Bool-cases, not,
}
use idic.Model.{Sensor, Mode, World}
use idic.Sensor.Attributes.{set_mode, set_quit}
use idic.Sensor.Execute.{Phase, entering, waiting}
use idic.Sensor.Execute.Steps.{write_object, has_quit, quit_of}
use idic.Sensor.Execute.Alone.{written}
use idic.Threads.{
  Order, change, wake, join, look, leave, to_mode, to_quit, System, with_phase, woken, can_go, obey,
  phase_after, behind_look, leave_orders, behind_leave, orders_after, Step, test, acquire, work,
  time_out, resume, main_step, session_step, Reach, here, next, has_ended, is_held, must_wake,
  Reach-trans,
}
use idic.Threads.Rounds.{with_phase_self, moved_to, user_waits}
use idic.Threads.Stuck.{may_wake, IsStuck, Step-IsStuck}

-- Whether the end of the thread of `a` is waited for.
abbrev pub joins : ℕ → List Order → Bool
joins a [] = false
joins a (join b ∷ rest) = b == a || joins a rest
joins a (o ∷ rest) = joins a rest

joins-behind_look :
    (a b : ℕ) (m : Mode) (o : Option Sensor) (rest : List Order)
    → joins a (behind_look b m o ++ rest) ≡ joins a rest
joins-behind_look a b m none rest = refl
joins-behind_look a b m (some s) rest = by_bool (must_wake m s.mode)
  where
    by_bool : (c : Bool) → joins a ((if c then wake b ∷ [] else []) ++ rest) ≡ joins a rest
    by_bool true = refl
    by_bool false = refl

joins-leave_orders :
    (a b : ℕ) (m : Mode) (rest : List Order) → joins a (leave_orders b m ++ rest) ≡ joins a rest
joins-leave_orders a b Mode.user rest = refl
joins-leave_orders a b Mode.auto rest = refl
joins-leave_orders a b Mode.fault rest = refl

joins-behind_leave :
    (a b : ℕ) (o : Option Sensor) (rest : List Order)
    → joins a (behind_leave b o ++ rest) ≡ joins a rest
joins-behind_leave a b none rest = refl
joins-behind_leave a b (some s) rest = joins-leave_orders a b s.mode rest

joins_later :
    (a b : ℕ) (f : ℕ → Phase) (rest : List Order)
    → f a ≡ waiting
    → has_ended (f b) ≡ true
    → (b == a || joins a rest) ≡ true
    → joins a rest ≡ true
joins_later a b f rest waits ended h = elim (Bool-cases (b == a)) [
  | inl same ↦
      let e : b ≡ a = (==_iff b a).0 same in
      let no : true ≡ false = sym ended ∙ ap (λ c. has_ended (f c)) e ∙ ap has_ended waits in
      absurd (cc)
  | inr other ↦ ap (λ (c : Bool). c || joins a rest) (sym other) ∙ h
]

-- `join` does not return while the thread waits, so it stays to be done.
joins-orders_after :
    (a : ℕ) (o : Order) (f : ℕ → Phase) (w : World) (rest : List Order)
    → f a ≡ waiting
    → can_go o f ≡ true
    → joins a (o ∷ rest) ≡ true
    → joins a (orders_after o w rest) ≡ true
unfolding orders_after can_go
joins-orders_after a (change b c) f w rest waits go h = h
joins-orders_after a (wake b) f w rest waits go h = h
joins-orders_after a (join b) f w rest waits go h = joins_later a b f rest waits go h
joins-orders_after a (look b m) f w rest waits go h =
    joins-behind_look a b m (get_elem? w.heap b) rest ∙ h
joins-orders_after a (leave b) f w rest waits go h =
    joins-behind_leave a b (get_elem? w.heap b) rest ∙ h

-- A stuck thread, and `free_resource` before the `join` of it.
record IsHung (a : ℕ) (s : System) : Type 0 where
  pub stuck : IsStuck a s
  pub joined : joins a s.main ≡ true

Step-IsHung : {a : ℕ} {s t : System} → Step s t → IsHung a s → IsHung a t
Step-IsHung {a} {s} (main_step o rest e g) h = record {
  stuck = Step-IsStuck (main_step o rest e g) h.stuck;
  joined =
      joins-orders_after a o s.phase s.world rest h.stuck.waits g (sym (ap (joins a) e) ∙ h.joined);
}
Step-IsHung (test b e) h = record { stuck = Step-IsStuck (test b e) h.stuck; joined = h.joined }
Step-IsHung (acquire b e) h = record {
  stuck = Step-IsStuck (acquire b e) h.stuck;
  joined = h.joined;
}
Step-IsHung (work b p e) h = record { stuck = Step-IsStuck (work b p e) h.stuck; joined = h.joined }
Step-IsHung (time_out b e) h = record {
  stuck = Step-IsStuck (time_out b e) h.stuck;
  joined = h.joined;
}
Step-IsHung (resume b e) h = record { stuck = Step-IsStuck (resume b e) h.stuck; joined = h.joined }
Step-IsHung (session_step o rest e g) h = record {
  stuck = Step-IsStuck (session_step o rest e g) h.stuck;
  joined = h.joined;
}

Reach-IsHung : {a : ℕ} {s t : System} → IsHung a s → Reach s t → IsHung a t
Reach-IsHung h here = h
Reach-IsHung h (next r st) = Step-IsHung st (Reach-IsHung h r)

joins-nonempty : (a : ℕ) (os : List Order) → joins a os ≡ true → os ≢ []
joins-nonempty a [] h = absurd (cc)
joins-nonempty a (o ∷ os) h = λ e. cc

module _ (a : ℕ) (s : System) (x : Sensor) (rest : List Order) (between : s.phase a ≡ entering)
    (found : get_elem? s.world.heap a ≡ some x)
    (stopping : s.main ≡ change a (to_mode Mode.user) ∷ change a to_quit ∷ wake a ∷ rest)
    (last : may_wake a rest ≡ false) (quiet : may_wake a s.session ≡ false)
    (joined : joins a rest ≡ true) where
  abbrev quit_world : World
  quit_world = write_object a (set_quit true) (write_object a (set_mode Mode.user) s.world)

  abbrev woken_system : System
  woken_system = record s {
    world = quit_world;
    phase = with_phase s.phase a (woken (s.phase a));
    main = rest;
  }

  woken_reached : Reach s woken_system
  unfolding obey phase_after orders_after can_go woken
  woken_reached =
      next
        (next (next here (main_step (change a (to_mode Mode.user)) _ stopping refl))
          (main_step (change a to_quit) _ refl refl))
        (main_step (wake a) rest refl (ap (λ p. not (is_held p)) between))

  quit_found : get_elem? quit_world.heap a ≡ some (set_quit true (set_mode Mode.user x))
  quit_found =
      written a (set_quit true) (write_object a (set_mode Mode.user) s.world)
        (written a (set_mode Mode.user) s.world found)

  entering_still : woken_system.phase a ≡ entering
  unfolding woken
  entering_still = with_phase_self s.phase a (woken (s.phase a)) ∙ ap woken between

  stuck_reached : (t : System) × Reach s t × (t.world ≡ quit_world) × IsHung a t
  stuck_reached = (
    moved_to a woken_system (waiting, quit_world),
    Reach-trans woken_reached (user_waits a woken_system _ entering_still quit_found refl),
    refl,
    record {
      stuck = record {
        waits = with_phase_self woken_system.phase a waiting;
        main_quiet = last;
        session_quiet = quiet;
      };
      joined = joined;
    },
  )

  -- If a sensor's thread has passed the test of its loop and not yet acquired the condition when
  -- `free_resource` stops that sensor, and the session is not about to wake it, there is a run in
  -- which the flag is set, the thread waits for ever, and `free_resource`, which still has to join
  -- it, never ends: both hold in every state that can follow.
  pub lost_wakeup :
      (t : System) × Reach s t
      × (has_quit t.world a ≡ true)
      × ((u : System) → Reach t u → (u.phase a ≡ waiting) × (u.main ≢ []))
  unfolding has_quit
  lost_wakeup =
      let (t, r, same, h) = stuck_reached in
      (
        t,
        r,
        ap (λ (w : World). quit_of (get_elem? w.heap a)) same ∙ ap quit_of quit_found,
        λ u later.
            let k = Reach-IsHung h later in (k.stuck.waits, joins-nonempty a u.main k.joined),
      )
