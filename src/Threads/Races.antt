-- ===== src/Threads/Races.antt =====
-- Two races on `mode` between a sensor's thread (sensor.py) and a command (command.py), which writes
-- it without the condition.
use mathlib.Core.Path.{subst}
use idic.Prelude.{
  ℕ, ◌≡◌, refl, ap, ◌∙◌, Option, none, some, List, [], ◌∷◌, ◌++◌, false, if◌then◌else◌, Bool,
  get_elem?, ◌⊎◌, inl, ◌<◌, arith,
}
use idic.Prelude.Int.{pos}
use idic.Model.{
  World, Sensor, Mode, attribute_error, err, attribute, ◌>>=◌, FaultLevel, object-bind,
}
use idic.Sensor.Attributes.{set_mode}
use idic.Sensor.Drawing.{get_fault_value, draw_fault, fault_range, is_signed}
use idic.Sensor.Execute.{
  testing, entering, waiting, returned, crashed, holding, first_test, second_test, resetting,
}
use idic.Sensor.Execute.Steps.{
  write_object, has_quit, quit_of, advance, run_alone, by_mode, first_branch, second_branch,
  after_call,
}
use idic.Sensor.Execute.Alone.{written}
use idic.Threads.{
  Order, change, look, to_mode, System, with_phase, test, work, session_step, Reach, here, next,
  Reach-trans, obey, phase_after, orders_after, behind_look, can_go, must_wake, wake,
}
use idic.Threads.Rounds.{with_phase_self, moved_to, held-Reach, user_waits}
use idic.Threads.Stuck.{may_wake}
use idic.Threads.Pending.{pending, Reach-WaitsFor}

get_fault_value_unset :
    (s : Sensor) (w : World) → s.fault_level ≡ none → get_fault_value s w ≡ (err attribute_error, w)
unfolding get_fault_value
get_fault_value_unset s w e = by_attributes s.rtm s.su1 s.fault_level e
  where
    by_attributes :
        (r u : Option ℕ) (l : Option FaultLevel)
        → l ≡ none
        → (attribute r >>= λ rtm. attribute u >>= λ su1. attribute l >>= λ level.
              draw_fault s level
                (fault_range s rtm (if is_signed su1 then pos 0x7F else pos 0xFF) level))
            w
          ≡ (err attribute_error, w)
    by_attributes none u l e = refl
    by_attributes (some r) none l e = refl
    by_attributes (some r) (some u) none e = refl
    by_attributes (some r) (some u) (some l) e = absurd (cc)

second_test_user :
    (a : ℕ) (x : Sensor) (w : World)
    → get_elem? w.heap a ≡ some x
    → x.mode ≡ Mode.user
    → x.fault_level ≡ none
    → run_alone 2 a (holding second_test, w) ≡ (crashed attribute_error, w)
unfolding run_alone advance
second_test_user a x w e k n =
    ap (λ o. run_alone 1 a (by_mode second_branch o, w)) e
    ∙ ap (λ m. run_alone 1 a (second_branch m, w)) k
    ∙ ap (after_call (λ v. holding (resetting v)))
        (object-bind a get_fault_value w e ∙ get_fault_value_unset x w n)

first_test_auto :
    (a : ℕ) (x : Sensor) (w : World)
    → get_elem? w.heap a ≡ some x
    → x.mode ≡ Mode.auto
    → run_alone 1 a (holding first_test, w) ≡ (holding second_test, w)
unfolding run_alone advance
first_test_auto a x w e k =
    ap (λ o. (by_mode first_branch o, w)) e ∙ ap (λ m. (first_branch m, w)) k

module _ (a : ℕ) (s : System) (x : Sensor) (rest : List Order)
    (found : get_elem? s.world.heap a ≡ some x) where
  -- A sensor in auto mode, never put in fault mode, whose thread is at the first test of the mode
  -- while a command is about to leave the auto mode: there is a run in which the thread takes the
  -- branch of the fault mode, reads a fault level that is not set, and ends with AttributeError.
  pub mode_race :
      s.phase a ≡ holding first_test
      → x.mode ≡ Mode.auto
      → x.fault_level ≡ none
      → s.session ≡ change a (to_mode Mode.user) ∷ rest
      → (t : System) × Reach s t × (t.phase a ≡ crashed attribute_error)
  unfolding obey phase_after orders_after can_go
  mode_race at_test in_auto unset leaving =
      let s1 : System = moved_to a s (holding second_test, s.world) in
      let r1 : Reach s s1 =
        subst (λ p. Reach s (moved_to a s p)) (first_test_auto a x s.world found in_auto)
          (held-Reach a s 1 first_test at_test) in
      let s2 : System = record s1 {
        world = write_object a (set_mode Mode.user) s.world;
        session = rest;
      } in
      let r2 : Reach s s2 =
        next r1 (session_step (change a (to_mode Mode.user)) rest leaving refl) in
      let r3 : Reach s2 (moved_to a s2 (crashed attribute_error, s2.world)) =
        subst (λ p. Reach s2 (moved_to a s2 p))
          (second_test_user a (set_mode Mode.user x) s2.world
            (written a (set_mode Mode.user) s.world found) refl unset)
          (held-Reach a s2 2 second_test (with_phase_self s.phase a (holding second_test))) in
      (
        moved_to a s2 (crashed attribute_error, s2.world),
        Reach-trans r2 r3,
        with_phase_self s2.phase a (crashed attribute_error),
      )

  -- A command reads the mode fault of a sensor that is not to quit, a round of that mode that has drawn
  -- nothing ends and puts the sensor back to user, and its thread comes to wait before the command
  -- writes the mode auto: the command does not wake it. There is a run to a state in which the sensor
  -- is in auto mode, and from which its thread waits, if no later command is about to wake it, until
  -- the main thread has given one of the notifications that it had left for that sensor.
  pub mode_lost :
      s.phase a ≡ holding (resetting none)
      → x.mode ≡ Mode.fault
      → x.quit ≡ false
      → s.session ≡ look a Mode.auto ∷ rest
      → may_wake a rest ≡ false
      → (t : System) × Reach s t
        × (get_elem? t.world.heap a ≡ some (set_mode Mode.auto x))
        × ((u : System) → Reach t u → (u.phase a ≡ waiting) ⊎ (pending a u.main < pending a s.main))
  unfolding obey phase_after orders_after can_go advance has_quit
  mode_lost resets in_fault running asking quiet =
      let s1 : System = record s {
        session = behind_look a Mode.auto (get_elem? s.world.heap a) ++ rest;
      } in
      let r1 : Reach s s1 = next here (session_step (look a Mode.auto) rest asking refl) in
      let decided : s1.session ≡ change a (to_mode Mode.auto) ∷ rest =
        ap (λ o. behind_look a Mode.auto o ++ rest) found
        ∙ ap
            (λ (m : Mode).
              change a (to_mode Mode.auto) ∷ (if must_wake Mode.auto m then wake a ∷ [] else [])
              ++ rest)
            in_fault in
      let w2 : World = write_object a (set_mode Mode.user) s.world in
      let found2 : get_elem? w2.heap a ≡ some (set_mode Mode.user x) =
        written a (set_mode Mode.user) s.world found in
      let s2 : System = moved_to a s1 (testing, w2) in
      let r2 : Reach s s2 = next r1 (work a (resetting none) resets) in
      let s3 : System = record s2 {
        phase = with_phase s2.phase a (if has_quit w2 a then returned else entering);
      } in
      let r3 : Reach s s3 = next r2 (test a (with_phase_self s.phase a testing)) in
      let going : has_quit w2 a ≡ false = ap quit_of found2 ∙ running in
      let enters : s3.phase a ≡ entering =
        with_phase_self s2.phase a (if has_quit w2 a then returned else entering)
        ∙ ap (λ (b : Bool). if b then returned else entering) going in
      let s4 : System = moved_to a s3 (waiting, w2) in
      let r4 : Reach s s4 =
        Reach-trans r3 (user_waits a s3 (set_mode Mode.user x) enters found2 refl) in
      let s5 : System = record s4 {
        world = write_object a (set_mode Mode.auto) w2;
        session = rest;
      } in
      let r5 : Reach s s5 =
        next r4 (session_step (change a (to_mode Mode.auto)) rest decided refl) in
      (
        s5,
        r5,
        written a (set_mode Mode.auto) w2 found2,
        λ u later.
            (Reach-WaitsFor
              (record {
                session_quiet = quiet;
                left = omega arith;
                waits = inl (with_phase_self s3.phase a waiting);
              })
              later).waits,
      )
