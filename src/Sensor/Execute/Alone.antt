-- ===== src/Sensor/Execute/Alone.antt =====
-- The statements of `execute` (sensor.py) in a row, against a whole round.
use idic.Prelude.{
  ℕ, zero, suc, ◌≡◌, refl, sym, ap, ◌∙◌, Option, none, some, List, get_elem?, set,
  get_elem?-set_self, lt-length_of_get_elem?, true, Bool, false,
}
use idic.Prelude.Int.{ℤ}
use idic.Text.{Text}
use idic.Model.{
  Sensor, Mode, World, Result, ok, err, number, Exec, Done, store, ◌>>=◌, ◌>>◌, pure, continue,
  object-bind, or_raise, attribute_error, object,
}
use idic.Model.Outcomes.{Preserves, Preserves-bind, Preserves-attribute, Preserves-pure}
use idic.Common.{send_ipmi_sim_command}
use idic.Common.Sending.{send-Sends}
use idic.Sensor.Attributes.{set_mode, set_raw_value}
use idic.Sensor.Drawing.{get_random_value, get_fault_value}
use idic.Sensor.Discrete.{value_command}
use idic.Sensor.Execute.{
  first_test, resetting, storing, sending, third_test, Phase, testing, entering, waiting, waiting_5,
  resumed, returned, holding, crashed, publish, publish_some, draw_fault_once, round_in, round,
  after_round,
}
use idic.Sensor.Drawing.Heaps.{SameHeap, SameHeap-get_random_value, get_fault_value-heap}
use idic.Sensor.Execute.Steps.{
  write_object, third_branch, behind_call, send_value, advance, run_alone, by_mode, first_branch,
  second_branch, after_call,
}

-- What a round leaves, as the phase of its thread and the state.
abbrev outcome : Result Phase × World → Phase × World
outcome (r, w) = (after_round r, w)

SameHeap-value_command :
    (h : List Sensor) (v : ℤ) (s : Sensor) → Preserves (SameHeap h) (value_command v s)
unfolding value_command
SameHeap-value_command h v s = search (Preserves-bind, Preserves-attribute, Preserves-pure)

SameHeap-send : (h : List Sensor) (c : Text) → Preserves (SameHeap h) (send_ipmi_sim_command c)
SameHeap-send h c = record { at = λ w e. (send-Sends c w).heap ∙ e }

abbrev sending_it : ℤ → Sensor → Exec Done
sending_it v s = value_command v s >>= λ c. send_ipmi_sim_command c >> pure tt

SameHeap-sending_it :
    (h : List Sensor) (v : ℤ) (s : Sensor) → Preserves (SameHeap h) (sending_it v s)
SameHeap-sending_it h v s =
    search (Preserves-bind, SameHeap-value_command, SameHeap-send, Preserves-pure)

pub SameHeap-send_value :
    (h : List Sensor) (a : ℕ) (v : ℤ) → Preserves (SameHeap h) (send_value a v)
unfolding send_value
SameHeap-send_value h a v =
    Preserves-bind (SameHeap h) (object a) (sending_it v) (record { at = λ w e. e })
      (SameHeap-sending_it h v)

write_found :
    (a : ℕ) (f : Sensor → Sensor) (w : World) {s : Sensor}
    → get_elem? w.heap a ≡ some s
    → write_object a f w ≡ record w { heap = set w.heap a (f s) }
unfolding write_object
write_found a f w {s} e =
    ap
      (λ (o : Option Sensor). record w {
        heap = elim o [ none ↦ w.heap | some x ↦ set w.heap a (f x) ];
      })
      e

pub written :
    (a : ℕ) (f : Sensor → Sensor) (w : World) {s : Sensor}
    → get_elem? w.heap a ≡ some s
    → get_elem? (write_object a f w).heap a ≡ some (f s)
written a f w {s} e =
    ap (λ (u : World). get_elem? u.heap a) (write_found a f w e)
    ∙ get_elem?-set_self w.heap a (f s) (lt-length_of_get_elem? w.heap a e)

-- A phase without the condition.
abbrev pub is_free : Phase → Bool
is_free (holding h) = false
is_free _ = true

run_alone-free :
    (n a : ℕ) (p : Phase) (w : World) → is_free p ≡ true → run_alone n a (p, w) ≡ (p, w)
unfolding run_alone
run_alone-free zero a p w h = refl
run_alone-free (suc n) a testing w h = refl
run_alone-free (suc n) a entering w h = refl
run_alone-free (suc n) a waiting w h = refl
run_alone-free (suc n) a waiting_5 w h = refl
run_alone-free (suc n) a resumed w h = refl
run_alone-free (suc n) a returned w h = refl
run_alone-free (suc n) a (holding p) w h = absurd (cc)
run_alone-free (suc n) a (crashed e) w h = refl

-- What the third test of the mode leads to.
abbrev last_phase : Mode → Phase
last_phase Mode.auto = waiting_5
last_phase _ = testing

module _ (a n : ℕ) where
  from_third_test :
      (w : World) (s : Sensor) (m : Mode)
      → get_elem? w.heap a ≡ some s
      → s.mode ≡ m
      → run_alone (suc (suc n)) a (holding third_test, w) ≡ (last_phase m, w)
  unfolding run_alone advance
  from_third_test w s m e k =
      ap (λ o. run_alone (suc n) a (by_mode third_branch o, w)) e
      ∙ ap (λ j. run_alone (suc n) a (third_branch j, w)) k
      ∙ by_last m
    where
      by_last : (m : Mode) → run_alone (suc n) a (third_branch m, w) ≡ (last_phase m, w)
      by_last Mode.user = refl
      by_last Mode.auto = run_alone-free n a waiting_5 w refl
      by_last Mode.fault = refl

  behind_sending :
      (r : Result Done) (w : World) (s : Sensor) (m : Mode)
      → get_elem? w.heap a ≡ some s
      → s.mode ≡ m
      → run_alone (suc (suc n)) a (behind_call (λ d. holding third_test) r, w)
        ≡ outcome (continue r (λ d. pure (last_phase m)) w)
  unfolding after_round
  behind_sending (ok d) w s m e k = from_third_test w s m e k
  behind_sending (err x) w s m e k = run_alone-free (suc (suc n)) a (crashed x) w refl

  -- From the store of the value on, the statements are `publish` and the test of the mode.
  from_storing :
      (v : ℤ) (w : World) (s : Sensor) (m : Mode)
      → get_elem? w.heap a ≡ some s
      → s.mode ≡ m
      → run_alone (suc (suc (suc (suc n)))) a (holding (storing v), w)
        ≡ outcome ((publish a v >> pure (last_phase m)) w)
  unfolding run_alone advance publish send_value value_command after_round write_object
  from_storing v w s m e k =
      let stored : Sensor = set_raw_value (number v) s in
      let w1 : World = record w { heap = set w.heap a stored } in
      let found : get_elem? w1.heap a ≡ some stored =
        get_elem?-set_self w.heap a stored (lt-length_of_get_elem? w.heap a e) in
      ap (λ u. run_alone (suc (suc (suc n))) a (holding (sending v), u))
        (write_found a (set_raw_value (number v)) w e)
      ∙ ap (λ p. run_alone (suc (suc n)) a (behind_call (λ d. holding third_test) p.0, p.1))
          (object-bind a (sending_it v) w1 found)
      ∙ behind_sending (sending_it v stored w1).0 (sending_it v stored w1).1 stored m
          (ap (λ (h : List Sensor). get_elem? h a)
              ((SameHeap-sending_it w1.heap v stored).at w1 refl)
            ∙ found)
          k
      ∙ sym (
          ap (λ p. outcome (continue p.0 (λ d. pure (last_phase m)) p.1))
            (object-bind a (λ s. store a (set_raw_value (number v) s) >> sending_it v s) w e))

module _ (a : ℕ) where
  behind_random :
      (r : Result ℤ) (w : World) (s : Sensor)
      → get_elem? w.heap a ≡ some s
      → s.mode ≡ Mode.auto
      → run_alone 5 a (after_call (λ v. holding (storing v)) (r, w))
        ≡ outcome (continue r (λ v. publish a v >> pure waiting_5) w)
  unfolding after_round
  behind_random (ok v) w s e k = from_storing a 1 v w s Mode.auto e k
  behind_random (err x) w s e k = run_alone-free 5 a (crashed x) w refl

  behind_fault :
      (r : Result (Option ℤ)) (w : World) (s : Sensor)
      → get_elem? w.heap a ≡ some s
      → run_alone 5 a (after_call (λ v. holding (resetting v)) (r, w))
        ≡ outcome (
            continue
              (continue r (λ v. store a (set_mode Mode.user s) >> pure v) w).0
              (λ v. publish_some a v >> pure testing)
              (continue r (λ v. store a (set_mode Mode.user s) >> pure v) w).1)
  unfolding run_alone advance publish_some after_round
  behind_fault (ok none) w s e =
      ap (λ u. run_alone 4 a (testing, u)) (write_found a (set_mode Mode.user) w e)
  behind_fault (ok (some v)) w s e =
      let reset : Sensor = set_mode Mode.user s in
      let w1 : World = record w { heap = set w.heap a reset } in
      ap (λ u. run_alone 4 a (holding (storing v), u)) (write_found a (set_mode Mode.user) w e)
      ∙ from_storing a 0 v w1 reset Mode.user
          (get_elem?-set_self w.heap a reset (lt-length_of_get_elem? w.heap a e)) refl
  behind_fault (err x) w s e = run_alone-free 5 a (crashed x) w refl

  module _ (w : World) (s : Sensor) (e : get_elem? w.heap a ≡ some s) where
    from_second_test :
        (m : Mode) → s.mode ≡ m → run_alone 7 a (first_branch m, w) ≡ outcome (round_in a m s w)
    unfolding run_alone advance round_in draw_fault_once after_round
    from_second_test Mode.user k = refl
    from_second_test Mode.auto k =
        ap (λ o. run_alone 6 a (by_mode second_branch o, w)) e
        ∙ ap (λ j. run_alone 6 a (second_branch j, w)) k
        ∙ ap (λ p. run_alone 5 a (after_call (λ v. holding (storing v)) p))
            (object-bind a get_random_value w e)
        ∙ behind_random (get_random_value s w).0 (get_random_value s w).1 s
            (ap (λ (h : List Sensor). get_elem? h a)
                ((SameHeap-get_random_value w.heap s).at w refl)
              ∙ e)
            k
    from_second_test Mode.fault k =
        ap (λ o. run_alone 6 a (by_mode second_branch o, w)) e
        ∙ ap (λ j. run_alone 6 a (second_branch j, w)) k
        ∙ ap (λ p. run_alone 5 a (after_call (λ v. holding (resetting v)) p))
            (object-bind a get_fault_value w e)
        ∙ behind_fault (get_fault_value s w).0 (get_fault_value s w).1 s
            (ap (λ (h : List Sensor). get_elem? h a) (get_fault_value-heap s w) ∙ e)
        ∙ sym (
            ap (λ p. outcome (continue p.0 (λ v. publish_some a v >> pure testing) p.1))
              (object-bind a
                (λ o. get_fault_value o >>= λ v. store a (set_mode Mode.user o) >> pure v) w e))

  -- With nothing between them, the statements of a round are the round: at most eight of them, from
  -- the first test of the mode to the release of the condition, leave the phase and the state that
  -- `round` has, whether it returns or raises.
  pub run_alone_lem :
      (w : World)
      → run_alone 8 a (holding first_test, w) ≡ (after_round (round a w).0, (round a w).1)
  unfolding run_alone advance round after_round
  run_alone_lem w = by_object (get_elem? w.heap a) refl
    where
      by_object :
          (o : Option Sensor)
          → get_elem? w.heap a ≡ o
          → run_alone 7 a (by_mode first_branch o, w)
            ≡ outcome (continue (or_raise attribute_error o) (λ s. round_in a s.mode s) w)
      by_object none e = refl
      by_object (some s) e = from_second_test w s e s.mode refl
