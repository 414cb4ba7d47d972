-- ===== src/Threads/Rounds.antt =====
-- A round of `execute` (sensor.py) that no other thread disturbs, as a run of the process.
use mathlib.Core.Path.{subst, fun_ext}
use idic.Prelude.{
  ℕ, zero, suc, ◌≡◌, refl, sym, ap, ◌∙◌, Bool, true, false, ◌==◌, if◌then◌else◌, arith, inl, inr,
  Bool-cases, ==_iff, ◌⊎◌, ◌≢◌, get_elem?, some,
}
use idic.Model.{World, Sensor, Mode}
use idic.Sensor.Execute.{
  Held, Phase, testing, entering, waiting, waiting_5, resumed, returned, crashed, holding,
  first_test, round, after_round,
}
use idic.Sensor.Execute.Steps.{advance, run_alone, by_mode, first_branch}
use idic.Sensor.Execute.Alone.{run_alone_lem}
use idic.Threads.{System, with_phase, work, Reach, here, next, acquire}

pub with_phase-cases :
    (f : ℕ → Phase) (b a : ℕ) (q : Phase)
    → ((b ≡ a) × (with_phase f b q a ≡ q)) ⊎ ((b ≢ a) × (with_phase f b q a ≡ f a))
with_phase-cases f b a q = elim (Bool-cases (b == a)) [
  | inl same ↦ inl ((==_iff b a).0 same, rw same)
  | inr other ↦ inr (λ e. ground arith, rw other)
]

pub with_phase_self : (f : ℕ → Phase) (a : ℕ) (q : Phase) → with_phase f a q a ≡ q
with_phase_self f a q = elim (with_phase-cases f a a q) [
  | inl (same, e) ↦ e
  | inr (other, e) ↦ absurd (other refl)
]

pub with_phase_twice :
    (f : ℕ → Phase) (a : ℕ) (p q : Phase) → with_phase (with_phase f a p) a q ≡ with_phase f a q
with_phase_twice f a p q = fun_ext λ b. by_bool (a == b) (f b)
  where
    by_bool : (c : Bool) (r : Phase) → (if c then q else if c then p else r) ≡ (if c then q else r)
    by_bool true r = refl
    by_bool false r = refl

with_phase_same : (f : ℕ → Phase) (a : ℕ) (p : Phase) → f a ≡ p → with_phase f a p ≡ f
with_phase_same f a p e = fun_ext λ b. elim (with_phase-cases f a b p) [
  | inl (same, k) ↦ k ∙ sym e ∙ ap f same
  | inr (other, k) ↦ k
]

first_test_user :
    (a : ℕ) (x : Sensor) (w : World)
    → get_elem? w.heap a ≡ some x
    → x.mode ≡ Mode.user
    → run_alone 2 a (holding first_test, w) ≡ (waiting, w)
unfolding run_alone advance
first_test_user a x w e k =
    ap (λ o. run_alone 1 a (by_mode first_branch o, w)) e
    ∙ ap (λ m. run_alone 1 a (first_branch m, w)) k

module _ (a : ℕ) (s : System) where
  -- The state with one thread moved.
  abbrev pub moved_to : Phase × World → System
  moved_to (p, w) = record s { world = w; phase = with_phase s.phase a p }

  run_alone-Reach :
      (n : ℕ) (p : Phase) (w : World)
      → Reach s (moved_to (p, w))
      → Reach s (moved_to (run_alone n a (p, w)))
  unfolding run_alone
  run_alone-Reach zero p w r = r
  run_alone-Reach (suc n) (holding h) w r = run_alone-Reach n (advance a h w).0 (advance a h w).1 (
      subst (λ f. Reach s (record s { world = (advance a h w).1; phase = f }))
        (with_phase_twice s.phase a (holding h) (advance a h w).0)
        (next r (work a h (with_phase_self s.phase a (holding h)))))
  run_alone-Reach (suc n) testing w r = r
  run_alone-Reach (suc n) entering w r = r
  run_alone-Reach (suc n) waiting w r = r
  run_alone-Reach (suc n) waiting_5 w r = r
  run_alone-Reach (suc n) resumed w r = r
  run_alone-Reach (suc n) returned w r = r
  run_alone-Reach (suc n) (crashed e) w r = r

  -- Statements of a thread with the condition, in a row.
  pub held-Reach :
      (n : ℕ) (h : Held)
      → s.phase a ≡ holding h
      → Reach s (moved_to (run_alone n a (holding h, s.world)))
  held-Reach n h e = run_alone-Reach n (holding h) s.world (
      subst (λ f. Reach s (record s { phase = f })) (sym (with_phase_same s.phase a (holding h) e))
        here)

  -- A thread that has taken the condition, and that nothing disturbs, runs as `round` says: the
  -- process reaches the state that differs from the present one by the world that the round leaves
  -- and by the phase of the thread.
  pub round-Reach :
      s.phase a ≡ holding first_test
      → Reach s (moved_to (after_round (round a s.world).0, (round a s.world).1))
  round-Reach e =
      subst (λ p. Reach s (moved_to p)) (run_alone_lem a s.world) (held-Reach 8 first_test e)

  -- A thread that is about to take the condition, of a sensor in user mode, comes to wait.
  pub user_waits :
      (x : Sensor)
      → s.phase a ≡ entering
      → get_elem? s.world.heap a ≡ some x
      → x.mode ≡ Mode.user
      → Reach s (moved_to (waiting, s.world))
  user_waits x e found m =
      subst (λ p. Reach s (moved_to p)) (first_test_user a x s.world found m)
        (run_alone-Reach 2 (holding first_test) s.world (next here (acquire a e)))
