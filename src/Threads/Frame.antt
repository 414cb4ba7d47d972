-- ===== src/Threads/Frame.antt =====
-- A round of a sensor thread keeps every sensor's `quit`.
use mathlib.Core.Path.{subst}
use idic.Prelude.{
  ℕ, ◌≡◌, refl, sym, Option, none, some, List, arith, ap, ◌∙◌, ◌==◌, get_elem?, set,
  get_elem?-set_self, get_elem?-set_ne, lt-length_of_get_elem?, inl, inr, Bool-cases, ==_iff,
}
use idic.Prelude.Int.{ℤ}
use idic.Text.{Text}
use idic.Model.{
  Sensor, Mode, World, Result, ok, err, Exec, pure, object, store, attribute, number, continue,
  ◌>>=◌, ◌>>◌, or_raise, attribute_error,
}
use idic.Common.{send_ipmi_sim_command}
use idic.Common.Sending.{send-Sends}
use idic.Sensor.Attributes.{set_mode, set_raw_value}
use idic.Sensor.Drawing.{
  randint, get_random_value, get_fault_value, draw_between, low_value, high_value,
}
use idic.Sensor.Drawing.Heaps.{get_fault_value-heap}
use idic.Sensor.Drawing.Ranges.{low_value_world, high_value_world}
use idic.Sensor.Discrete.{value_command}
use idic.Sensor.Execute.{
  Held, first_test, before_wait, second_test, drawing, failing, resetting, storing, sending,
  third_test, before_wait_5, quit_test, publish, publish_some, draw_fault_once, round_in, round,
  Phase,
}
use idic.Sensor.Execute.Steps.{send_value, write_object, advance, has_quit, quit_of}

-- `m` leaves the flag of `a` as it is, whether it returns or raises.
pub record Keeps (a : ℕ) {A : Type 0} (m : Exec A) : Type 0 where
  pub at : (w : World) → has_quit (m w).1 a ≡ has_quit w a

module _ (a : ℕ) where
  Keeps-pure : {A : Type 0} (x : A) → Keeps a (pure x)
  Keeps-pure x = record { at = λ w. refl }

  Keeps-continue :
      {A B : Type 0} (r : Result A) (f : A → Exec B) (w : World)
      → ((x : A) → Keeps a (f x))
      → has_quit (continue r f w).1 a ≡ has_quit w a
  Keeps-continue (ok x) f w k = (k x).at w
  Keeps-continue (err e) f w k = refl

  Keeps-bind :
      {A B : Type 0} (m : Exec A) (f : A → Exec B)
      → Keeps a m
      → ((x : A) → Keeps a (f x))
      → Keeps a (m >>= f)
  Keeps-bind m f km kf = record { at = λ w. Keeps-continue (m w).0 f (m w).1 kf ∙ km.at w }

  -- Operations that leave the objects alone.
  Keeps-of_same_heap : {A : Type 0} (m : Exec A) → ((w : World) → (m w).1.heap ≡ w.heap) → Keeps a m
  unfolding has_quit
  Keeps-of_same_heap m h = record {
    at = λ w. ap (λ (l : List Sensor). quit_of (get_elem? l a)) (h w);
  }

  Keeps-send : (c : Text) → Keeps a (send_ipmi_sim_command c)
  Keeps-send c = Keeps-of_same_heap (send_ipmi_sim_command c) (λ w. (send-Sends c w).heap)

  Keeps-attribute : {A : Type 0} (o : Option A) → Keeps a (attribute o)
  Keeps-attribute none = record { at = λ w. refl }
  Keeps-attribute (some x) = record { at = λ w. refl }

  Keeps-randint : (low high : ℤ) → Keeps a (randint low high)
  unfolding randint
  Keeps-randint low high = Keeps-of_same_heap (randint low high) (λ w. ground arith)

  -- A store of an object whose flag is the one that the heap has.
  store_keeps :
      (b : ℕ) (s t : Sensor) (w : World)
      → get_elem? w.heap b ≡ some s
      → t.quit ≡ s.quit
      → has_quit (store b t w).1 a ≡ has_quit w a
  unfolding has_quit
  store_keeps b s t w e q = elim (Bool-cases (b == a)) [
    | inl same ↦
        let e' : b ≡ a = (==_iff b a).0 same in
        subst (λ c. quit_of (get_elem? (set w.heap b t) c) ≡ quit_of (get_elem? w.heap c)) e'
          (ap quit_of (get_elem?-set_self w.heap b t (lt-length_of_get_elem? w.heap b e))
            ∙ q
            ∙ sym (ap quit_of e))
    | inr other ↦ ap quit_of (get_elem?-set_ne w.heap b a t (ground arith))
  ]

  continue_update :
      {B : Type 0} (b : ℕ) (t : Sensor → Sensor) (rest : Sensor → Exec B) (w : World)
      → ((s : Sensor) → (t s).quit ≡ s.quit)
      → ((s : Sensor) → Keeps a (rest s))
      → (o : Option Sensor) → get_elem? w.heap b ≡ o
      → has_quit (continue (or_raise attribute_error o) (λ s. store b (t s) >> rest s) w).1 a
        ≡ has_quit w a
  continue_update b t rest w q k none e = refl
  continue_update b t rest w q k (some s) e =
      (k s).at (store b (t s) w).1 ∙ store_keeps b s (t s) w e (q s)

  -- An object is read, changed but for its flag, and written back.
  Keeps-of_update :
      {B : Type 0} (b : ℕ) (t : Sensor → Sensor) (rest : Sensor → Exec B)
      → ((s : Sensor) → (t s).quit ≡ s.quit)
      → ((s : Sensor) → Keeps a (rest s))
      → Keeps a (object b >>= λ s. store b (t s) >> rest s)
  Keeps-of_update b t rest q k = record {
    at = λ w. continue_update b t rest w q k (get_elem? w.heap b) refl;
  }

  Keeps-object : (b : ℕ) → Keeps a (object b)
  Keeps-object b = Keeps-of_same_heap (object b) (λ w. refl)

  Keeps-value_command : (v : ℤ) (s : Sensor) → Keeps a (value_command v s)
  unfolding value_command
  Keeps-value_command v s = search (Keeps-bind, Keeps-attribute, Keeps-pure)

  Keeps-publish : (b : ℕ) (v : ℤ) → Keeps a (publish b v)
  unfolding publish
  Keeps-publish b v =
      Keeps-of_update b (set_raw_value (number v))
        (λ s. value_command v s >>= λ c. send_ipmi_sim_command c >> pure tt) (λ s. refl)
        (λ s. search (Keeps-bind, Keeps-value_command, Keeps-send, Keeps-pure))

  Keeps-low_value : (s : Sensor) (rtm : ℕ) → Keeps a (low_value s rtm)
  Keeps-low_value s rtm =
      Keeps-of_same_heap (low_value s rtm)
        (λ w. ap (λ (u : World). u.heap) (low_value_world s rtm w))

  Keeps-high_value : (s : Sensor) (rtm : ℕ) → Keeps a (high_value s rtm)
  Keeps-high_value s rtm =
      Keeps-of_same_heap (high_value s rtm)
        (λ w. ap (λ (u : World). u.heap) (high_value_world s rtm w))

  Keeps-get_random_value : (s : Sensor) → Keeps a (get_random_value s)
  unfolding get_random_value draw_between
  Keeps-get_random_value s =
      search (Keeps-bind, Keeps-attribute, Keeps-low_value, Keeps-high_value, Keeps-randint)

  Keeps-get_fault_value : (s : Sensor) → Keeps a (get_fault_value s)
  Keeps-get_fault_value s = Keeps-of_same_heap (get_fault_value s) (get_fault_value-heap s)

  store_after :
      {A : Type 0} (b : ℕ) (s t : Sensor) (r : Result A) (w w' : World)
      → get_elem? w.heap b ≡ some s
      → w'.heap ≡ w.heap
      → t.quit ≡ s.quit
      → has_quit (continue r (λ x. store b t >> pure x) w').1 a ≡ has_quit w a
  unfolding has_quit
  store_after b s t (err e) w w' found h q = ap (λ (l : List Sensor). quit_of (get_elem? l a)) h
  store_after b s t (ok x) w w' found h q =
      store_keeps b s t w' (ap (λ (l : List Sensor). get_elem? l b) h ∙ found) q
      ∙ ap (λ (l : List Sensor). quit_of (get_elem? l a)) h

  once_keeps :
      (b : ℕ) (o : Option Sensor) (w : World)
      → get_elem? w.heap b ≡ o
      → has_quit
          (continue
            (or_raise attribute_error o)
            (λ s. get_fault_value s >>= λ v. store b (set_mode Mode.user s) >> pure v)
            w).1
          a
        ≡ has_quit w a
  once_keeps b none w e = refl
  once_keeps b (some s) w e =
      store_after b s (set_mode Mode.user s) (get_fault_value s w).0 w (get_fault_value s w).1 e
        (get_fault_value-heap s w) refl

  Keeps-draw_fault_once : (b : ℕ) → Keeps a (draw_fault_once b)
  unfolding draw_fault_once
  Keeps-draw_fault_once b = record { at = λ w. once_keeps b (get_elem? w.heap b) w refl }

  Keeps-publish_some : (b : ℕ) (v : Option ℤ) → Keeps a (publish_some b v)
  unfolding publish_some
  Keeps-publish_some b none = Keeps-pure tt
  Keeps-publish_some b (some v) = Keeps-publish b v

  Keeps-round_in : (b : ℕ) (m : Mode) (s : Sensor) → Keeps a (round_in b m s)
  unfolding round_in
  Keeps-round_in b Mode.user s = Keeps-pure Phase.waiting
  Keeps-round_in b Mode.auto s =
      search (Keeps-bind, Keeps-get_random_value, Keeps-publish, Keeps-pure)
  Keeps-round_in b Mode.fault s =
      search (Keeps-bind, Keeps-draw_fault_once, Keeps-publish_some, Keeps-pure)

  -- A round of any thread leaves the flag of every sensor alone.
  pub Keeps-round : (b : ℕ) → Keeps a (round b)
  unfolding round
  Keeps-round b = search (Keeps-bind, Keeps-object, Keeps-round_in)

  stored :
      (b : ℕ) (f : Sensor → Sensor) (w : World) (x : Sensor)
      → get_elem? w.heap b ≡ some x
      → (f x).quit ≡ x.quit
      → quit_of (get_elem? (set w.heap b (f x)) a) ≡ quit_of (get_elem? w.heap a)
  unfolding has_quit
  stored b f w x e q = store_keeps b x (f x) w e q

  Keeps-send_value : (b : ℕ) (v : ℤ) → Keeps a (send_value b v)
  unfolding send_value
  Keeps-send_value b v =
      search (Keeps-bind, Keeps-object, Keeps-value_command, Keeps-send, Keeps-pure)

  -- A write that does not touch the flag.
  write_keeps :
      (b : ℕ) (f : Sensor → Sensor) (w : World)
      → ((s : Sensor) → (f s).quit ≡ s.quit)
      → has_quit (write_object b f w) a ≡ has_quit w a
  unfolding write_object has_quit
  write_keeps b f w q = by_object (get_elem? w.heap b) refl
    where
      by_object :
          (o : Option Sensor)
          → get_elem? w.heap b ≡ o
          → quit_of (get_elem? (elim o [ none ↦ w.heap | some x ↦ set w.heap b (f x) ]) a)
            ≡ quit_of (get_elem? w.heap a)
      by_object none e = refl
      by_object (some x) e = stored b f w x e (q x)

  -- A statement of any thread leaves the flag of every sensor alone.
  pub advance-keeps : (b : ℕ) (h : Held) (w : World) → has_quit (advance b h w).1 a ≡ has_quit w a
  unfolding advance send_value
  advance-keeps b first_test w = refl
  advance-keeps b before_wait w = refl
  advance-keeps b second_test w = refl
  advance-keeps b drawing w =
      (Keeps-bind (object b) get_random_value (Keeps-object b) Keeps-get_random_value).at w
  advance-keeps b failing w =
      (Keeps-bind (object b) get_fault_value (Keeps-object b) Keeps-get_fault_value).at w
  advance-keeps b (resetting v) w = write_keeps b (set_mode Mode.user) w (λ s. refl)
  advance-keeps b (storing v) w = write_keeps b (set_raw_value (number v)) w (λ s. refl)
  advance-keeps b (sending v) w = (Keeps-send_value b v).at w
  advance-keeps b third_test w = refl
  advance-keeps b before_wait_5 w = refl
  advance-keeps b quit_test w = refl
