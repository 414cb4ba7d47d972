-- ===== src/Threads/Shutdown.antt =====
-- A thread that `free_resource` (ipmi_sim.py) does stop: one that is not between its test of `quit`
-- and its acquisition of the condition when the flag is set.
use mathlib.Core.Path.{subst}
use idic.Prelude.{
  ℕ, ◌≡◌, ◌≢◌, ◌⊎◌, inl, inr, refl, sym, Bool, true, false, Option, none, some, ap, ◌∙◌,
  if◌then◌else◌, get_elem?,
}
use idic.Model.{ok, err, Result, Mode, Error, Sensor, World, Mode, Result}
use idic.Sensor.Execute.{
  Phase, Held, testing, entering, waiting, waiting_5, resumed, returned, crashed, holding,
  first_test, before_wait, second_test, drawing, failing, resetting, storing, sending, third_test,
  before_wait_5, quit_test,
}
use idic.Sensor.Execute.Steps.{
  has_quit, advance, by_mode, first_branch, second_branch, third_branch, behind_call,
}
use idic.Threads.{
  System, with_phase, Step, test, acquire, work, time_out, resume, main_step, session_step, Reach,
  here, next, Reach-trans,
}
use idic.Threads.Rounds.{with_phase-cases, with_phase_self, with_phase_twice}
use idic.Threads.Frame.{advance-keeps}
use idic.Threads.Stopping.{
  will_wake, needs_wake, IsStopping, obey-quits, phase_after-outside, phase_after-needs_wake,
  will_wake-orders_after,
}

-- One thread moves.
moved :
    {a : ℕ} {s : System} (b : ℕ) (q : Phase) (w : World)
    → IsStopping a s
    → has_quit w a ≡ true
    → (b ≡ a → (q ≢ entering) × (needs_wake q ≡ true → will_wake a s.main ≡ true))
    → IsStopping a (record s { world = w; phase = with_phase s.phase b q })
moved {a} {s} b q w h quits free = elim (with_phase-cases s.phase b a q) [
  | inl (same, e) ↦ record {
    quits = quits;
    outside = λ k. (free same).0 (sym e ∙ k);
    woken_later = λ k. (free same).1 (sym (ap needs_wake e) ∙ k);
  }
  | inr (other, e) ↦ record {
    quits = quits;
    outside = λ k. h.outside (sym e ∙ k);
    woken_later = λ k. h.woken_later (ap needs_wake (sym e) ∙ k);
  }
]

-- After its test of the flag.
tested :
    (b : Bool) (p : Phase) {c : Bool}
    → b ≡ true
    → ((if b then returned else p) ≢ entering)
      × (needs_wake (if b then returned else p) ≡ true → c ≡ true)
tested true p h = (cc, λ k. absurd (cc))
tested false p h = absurd (cc)

first_branch-outside : (m : Mode) → first_branch m ≢ entering
first_branch-outside Mode.user = cc
first_branch-outside Mode.auto = cc
first_branch-outside Mode.fault = cc

second_branch-outside : (m : Mode) → second_branch m ≢ entering
second_branch-outside Mode.user = cc
second_branch-outside Mode.auto = cc
second_branch-outside Mode.fault = cc

third_branch-outside : (m : Mode) → third_branch m ≢ entering
third_branch-outside Mode.user = cc
third_branch-outside Mode.auto = cc
third_branch-outside Mode.fault = cc

by_mode-outside :
    (branch : Mode → Phase) (o : Option Sensor)
    → ((m : Mode) → branch m ≢ entering)
    → by_mode branch o ≢ entering
by_mode-outside branch none h = cc
by_mode-outside branch (some s) h = h s.mode

behind_call-outside :
    {A : Type 0} (p : A → Phase) (r : Result A)
    → ((x : A) → p x ≢ entering)
    → behind_call p r ≢ entering
behind_call-outside p (ok x) h = h x
behind_call-outside p (err e) h = cc

-- No statement under the condition leads to the place before its acquisition.
advance-outside : (a : ℕ) (h : Held) (w : World) → (advance a h w).0 ≢ entering
unfolding advance
advance-outside a first_test w =
    by_mode-outside first_branch (get_elem? w.heap a) first_branch-outside
advance-outside a before_wait w = cc
advance-outside a second_test w =
    by_mode-outside second_branch (get_elem? w.heap a) second_branch-outside
advance-outside a drawing w = behind_call-outside (λ v. holding (storing v)) _ (λ v. cc)
advance-outside a failing w = behind_call-outside (λ v. holding (resetting v)) _ (λ v. cc)
advance-outside a (resetting none) w = cc
advance-outside a (resetting (some v)) w = cc
advance-outside a (storing v) w = cc
advance-outside a (sending v) w = behind_call-outside (λ d. holding third_test) _ (λ d. cc)
advance-outside a third_test w =
    by_mode-outside third_branch (get_elem? w.heap a) third_branch-outside
advance-outside a before_wait_5 w = cc
advance-outside a quit_test w = by_bool (has_quit w a)
  where
    by_bool : (b : Bool) → (if b then returned else testing) ≢ entering
    by_bool true = cc
    by_bool false = cc

-- A thread under the condition either tests the flag or is still to be woken.
worked :
    {a : ℕ} {s : System} (h : Held)
    → IsStopping a s
    → s.phase a ≡ holding h
    → needs_wake (advance a h s.world).0 ≡ true
    → will_wake a s.main ≡ true
unfolding advance
worked {a} {s} quit_test i e k = (tested (has_quit s.world a) testing i.quits).1 k
worked first_test i e k = i.woken_later (ap needs_wake e)
worked before_wait i e k = i.woken_later (ap needs_wake e)
worked second_test i e k = i.woken_later (ap needs_wake e)
worked drawing i e k = i.woken_later (ap needs_wake e)
worked failing i e k = i.woken_later (ap needs_wake e)
worked (resetting v) i e k = i.woken_later (ap needs_wake e)
worked (storing v) i e k = i.woken_later (ap needs_wake e)
worked (sending v) i e k = i.woken_later (ap needs_wake e)
worked third_test i e k = i.woken_later (ap needs_wake e)
worked before_wait_5 i e k = i.woken_later (ap needs_wake e)

Step-IsStopping : {a : ℕ} {s t : System} → Step s t → IsStopping a s → IsStopping a t
Step-IsStopping {a} {s} (test b e) h =
    moved b (if has_quit s.world b then returned else entering) s.world h h.quits
      (λ same. tested (has_quit s.world b) entering (ap (has_quit s.world) same ∙ h.quits))
Step-IsStopping {a} {s} (acquire b e) h =
    moved b (holding first_test) s.world h h.quits
      (λ same. absurd (h.outside (ap s.phase (sym same) ∙ e)))
Step-IsStopping {a} {s} (work b p e) h =
    moved b (advance b p s.world).0 (advance b p s.world).1 h
      (advance-keeps a b p s.world ∙ h.quits)
      (λ same. (
        advance-outside b p s.world,
        λ k.
            worked p h (ap s.phase (sym same) ∙ e)
              (ap (λ c. needs_wake (advance c p s.world).0) (sym same) ∙ k),
      ))
Step-IsStopping {a} {s} (time_out b e) h =
    moved b resumed s.world h h.quits (λ same. (cc, λ k. absurd (cc)))
Step-IsStopping {a} {s} (resume b e) h =
    moved b (holding quit_test) s.world h h.quits (λ same. (cc, λ k. absurd (cc)))
Step-IsStopping {a} {s} (main_step o rest e go) h = record {
  quits = obey-quits a o s.world h.quits;
  outside = phase_after-outside a o s.phase go h.outside;
  woken_later = λ k. will_wake-orders_after a o rest s.phase s.world go h.outside k (
      sym (ap (will_wake a) e) ∙ h.woken_later (phase_after-needs_wake a o s.phase go h.outside k));
}
Step-IsStopping {a} {s} (session_step o rest e go) h = record {
  quits = obey-quits a o s.world h.quits;
  outside = phase_after-outside a o s.phase go h.outside;
  woken_later = λ k. h.woken_later (phase_after-needs_wake a o s.phase go h.outside k);
}

Reach-IsStopping : {a : ℕ} {s t : System} → Reach s t → IsStopping a s → IsStopping a t
Reach-IsStopping here h = h
Reach-IsStopping (next r st) h = Step-IsStopping st (Reach-IsStopping r h)

-- The thread has ended, or it can return by its own steps, with nothing else changed.
abbrev pub CanEnd : ℕ → System → Type 0
CanEnd a t =
    (t.phase a ≡ returned)
    ⊎ ((e : Error) × (t.phase a ≡ crashed e))
    ⊎ Reach t (record t { phase = with_phase t.phase a returned })

-- The test of the flag behind a wait.
quit_test_returns :
    (a : ℕ) (t : System)
    → has_quit t.world a ≡ true
    → t.phase a ≡ holding quit_test
    → Reach t (record t { phase = with_phase t.phase a returned })
unfolding advance
quit_test_returns a t q e =
    subst (λ p. Reach t (record t { phase = with_phase t.phase a p }))
      (ap (λ (b : Bool). if b then returned else testing) q) (next here (work a quit_test e))

IsStopping-CanEnd : (a : ℕ) (t : System) → IsStopping a t → will_wake a t.main ≡ false → CanEnd a t
IsStopping-CanEnd a t h over = by_phase (t.phase a) refl
  where
    late : {p : Phase} → t.phase a ≡ p → needs_wake p ≡ true → CanEnd a t
    late e n =
        let no : true ≡ false = sym (h.woken_later (ap needs_wake e ∙ n)) ∙ over in absurd (cc)

    held : (p : Held) → t.phase a ≡ holding p → CanEnd a t
    held quit_test e = inr (inr (quit_test_returns a t h.quits e))
    held first_test e = late e refl
    held before_wait e = late e refl
    held second_test e = late e refl
    held drawing e = late e refl
    held failing e = late e refl
    held (resetting v) e = late e refl
    held (storing v) e = late e refl
    held (sending v) e = late e refl
    held third_test e = late e refl
    held before_wait_5 e = late e refl

    by_phase : (p : Phase) → t.phase a ≡ p → CanEnd a t
    by_phase testing e = inr (
        inr (
          subst (λ p. Reach t (record t { phase = with_phase t.phase a p }))
            (ap (λ (b : Bool). if b then returned else entering) h.quits) (next here (test a e))))
    by_phase entering e = absurd (h.outside e)
    by_phase waiting e = late e refl
    by_phase waiting_5 e = late e refl
    by_phase resumed e = inr (
        inr (
          subst (λ f. Reach t (record t { phase = f }))
            (with_phase_twice t.phase a (holding quit_test) returned)
            (Reach-trans (next here (resume a e)) (
              quit_test_returns a (record t { phase = with_phase t.phase a (holding quit_test) })
                h.quits (with_phase_self t.phase a (holding quit_test))))))
    by_phase returned e = inl e
    by_phase (holding p) e = held p e
    by_phase (crashed x) e = inr (inl (x, e))

-- Once the flag of a sensor is set, with its notification still to come and its thread not between
-- the test of its loop and the acquisition of the condition, the shutdown cannot hang on that
-- thread: in every state that follows in which the notification has been given, whatever the other
-- threads and the session did, the thread has ended or can return by its own steps, with nothing
-- else changed.
pub shutdown_stops :
    (a : ℕ) (s t : System)
    → has_quit s.world a ≡ true
    → s.phase a ≢ entering
    → will_wake a s.main ≡ true
    → Reach s t
    → will_wake a t.main ≡ false
    → CanEnd a t
shutdown_stops a s t quits outside pending r over =
    IsStopping-CanEnd a t
      (Reach-IsStopping r (record { quits = quits; outside = outside; woken_later = λ k. pending }))
      over
