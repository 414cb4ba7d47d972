-- ===== src/Threads/Stopping.antt =====
-- What the statements of the other threads (ipmi_sim.py, command.py) do to a thread that is being
-- stopped.
use idic.Prelude.{
  ℕ, ◌≡◌, ◌≢◌, inl, inr, refl, sym, Bool, true, false, not, ◌||◌, Option, none, some, List, [], ◌∷◌,
  ◌++◌, arith, ap, ◌∙◌, ◌==◌, get_elem?, set, ==_iff, get_elem?-set_self, get_elem?-set_ne,
  lt-length_of_get_elem?, Bool-cases,
}
use idic.Model.{Sensor, World}
use idic.Sensor.Execute.{
  Phase, testing, entering, waiting, waiting_5, resumed, returned, crashed, holding, quit_test,
}
use idic.Sensor.Execute.Steps.{write_object, has_quit, quit_of}
use idic.Threads.{
  Order, change, wake, join, look, leave, Change, to_mode, to_level, to_value, to_text, to_quit,
  apply_change, System, with_phase, woken, can_go, obey, phase_after, behind_look, behind_leave,
  orders_after, is_held,
}
use idic.Threads.Rounds.{with_phase-cases}

-- Whether the main thread is still to wake the thread of `a`.
abbrev pub will_wake : ℕ → List Order → Bool
will_wake a [] = false
will_wake a (wake b ∷ rest) = b == a || will_wake a rest
will_wake a (o ∷ rest) = will_wake a rest

-- A thread that waits, or that may come to wait before it reads the flag.
abbrev pub needs_wake : Phase → Bool
needs_wake waiting = true
needs_wake waiting_5 = true
needs_wake (holding quit_test) = false
needs_wake (holding h) = true
needs_wake _ = false

-- The flag is set, and the thread reads it before it waits again.
pub record IsStopping (a : ℕ) (s : System) : Type 0 where
  pub quits : has_quit s.world a ≡ true
  pub outside : s.phase a ≢ entering
  pub woken_later : needs_wake (s.phase a) ≡ true → will_wake a s.main ≡ true

updated_quits :
    (h : List Sensor) (b a : ℕ) (f : Sensor → Sensor) (x : Sensor)
    → ((y : Sensor) → y.quit ≡ true → (f y).quit ≡ true)
    → get_elem? h b ≡ some x
    → quit_of (get_elem? h a) ≡ true
    → quit_of (get_elem? (set h b (f x)) a) ≡ true
updated_quits h b a f x keeps found q = elim (Bool-cases (b == a)) [
  | inl same ↦
      let e : b ≡ a = (==_iff b a).0 same in
      let set_there : get_elem? (set h b (f x)) a ≡ some (f x) =
        ap (get_elem? (set h b (f x))) (sym e)
        ∙ get_elem?-set_self h b (f x) (lt-length_of_get_elem? h b found) in
      let old : x.quit ≡ true = sym (ap quit_of (ap (get_elem? h) (sym e) ∙ found)) ∙ q in
      ap quit_of set_there ∙ keeps x old
  | inr other ↦ ap quit_of (get_elem?-set_ne h b a (f x) (λ e. ground arith)) ∙ q
]

write_object-quits :
    (b a : ℕ) (f : Sensor → Sensor) (w : World)
    → ((x : Sensor) → x.quit ≡ true → (f x).quit ≡ true)
    → has_quit w a ≡ true
    → has_quit (write_object b f w) a ≡ true
unfolding write_object has_quit
write_object-quits b a f w keeps h = by_object (get_elem? w.heap b) refl
  where
    by_object :
        (o : Option Sensor)
        → get_elem? w.heap b ≡ o
        → quit_of (get_elem? (elim o [ none ↦ w.heap | some x ↦ set w.heap b (f x) ]) a) ≡ true
    by_object none e = h
    by_object (some x) e = updated_quits w.heap b a f x keeps e h

apply_change-quits : (c : Change) (x : Sensor) → x.quit ≡ true → (apply_change c x).quit ≡ true
apply_change-quits (to_mode m) x q = q
apply_change-quits (to_level l) x q = q
apply_change-quits (to_value v) x q = q
apply_change-quits (to_text t) x q = q
apply_change-quits to_quit x q = refl

-- No statement of another thread takes the flag back.
pub obey-quits :
    (a : ℕ) (o : Order) (w : World) → has_quit w a ≡ true → has_quit (obey o w) a ≡ true
unfolding obey
obey-quits a (change b c) w q = write_object-quits b a (apply_change c) w (apply_change-quits c) q
obey-quits a (wake b) w q = q
obey-quits a (join b) w q = q
obey-quits a (look b m) w q = q
obey-quits a (leave b) w q = q

woken-leaves :
    (p : Phase)
    → not (is_held p) ≡ true
    → p ≢ entering
    → (woken p ≢ entering) × (needs_wake (woken p) ≡ false)
unfolding woken
woken-leaves testing go h = (cc, refl)
woken-leaves entering go h = absurd (h refl)
woken-leaves waiting go h = (cc, refl)
woken-leaves waiting_5 go h = (cc, refl)
woken-leaves resumed go h = (cc, refl)
woken-leaves returned go h = (cc, refl)
woken-leaves (holding p) go h = absurd (cc)
woken-leaves (crashed e) go h = (cc, refl)

-- A thread that another one has woken.
phase_after_wake :
    (a b : ℕ) (f : ℕ → Phase)
    → not (is_held (f b)) ≡ true
    → f a ≢ entering
    → (with_phase f b (woken (f b)) a ≢ entering)
      × (needs_wake (with_phase f b (woken (f b)) a) ≡ true → (b ≢ a) × (needs_wake (f a) ≡ true))
phase_after_wake a b f go h = elim (with_phase-cases f b a (woken (f b))) [
  | inl (same, e) ↦
      let (outside, free) = woken-leaves (f b) go (λ k. h (ap f (sym same) ∙ k)) in
      (
        λ k. outside (sym e ∙ k),
        λ k. let no : true ≡ false = sym k ∙ ap needs_wake e ∙ free in absurd (cc),
      )
  | inr (other, e) ↦ (λ k. h (sym e ∙ k), λ k. (other, sym (ap needs_wake e) ∙ k))
]

pub phase_after-outside :
    (a : ℕ) (o : Order) (f : ℕ → Phase)
    → can_go o f ≡ true
    → f a ≢ entering
    → phase_after o f a ≢ entering
unfolding phase_after can_go
phase_after-outside a (change b c) f go h = h
phase_after-outside a (wake b) f go h = (phase_after_wake a b f go h).0
phase_after-outside a (join b) f go h = h
phase_after-outside a (look b m) f go h = h
phase_after-outside a (leave b) f go h = h

pub phase_after-needs_wake :
    (a : ℕ) (o : Order) (f : ℕ → Phase)
    → can_go o f ≡ true
    → f a ≢ entering
    → needs_wake (phase_after o f a) ≡ true
    → needs_wake (f a) ≡ true
unfolding phase_after can_go
phase_after-needs_wake a (change b c) f go h n = n
phase_after-needs_wake a (wake b) f go h n = ((phase_after_wake a b f go h).1 n).1
phase_after-needs_wake a (join b) f go h n = n
phase_after-needs_wake a (look b m) f go h n = n
phase_after-needs_wake a (leave b) f go h n = n

will_wake-append :
    (a : ℕ) (os rest : List Order) → will_wake a rest ≡ true → will_wake a (os ++ rest) ≡ true
will_wake-append a [] rest h = h
will_wake-append a (change b c ∷ os) rest h = will_wake-append a os rest h
will_wake-append a (wake b ∷ os) rest h =
    or_true (b == a) (will_wake a (os ++ rest)) (will_wake-append a os rest h)
  where
    or_true : (b c : Bool) → c ≡ true → (b || c) ≡ true
    or_true true c h = refl
    or_true false c h = h
will_wake-append a (join b ∷ os) rest h = will_wake-append a os rest h
will_wake-append a (look b m ∷ os) rest h = will_wake-append a os rest h
will_wake-append a (leave b ∷ os) rest h = will_wake-append a os rest h

will_wake_rest :
    (a b : ℕ) (rest : List Order)
    → b ≢ a
    → will_wake a (wake b ∷ rest) ≡ true
    → will_wake a rest ≡ true
will_wake_rest a b rest other h = ground (arith, h, other)

-- A thread that has to be woken behind a statement of the main thread is still to be woken.
pub will_wake-orders_after :
    (a : ℕ) (o : Order) (rest : List Order) (f : ℕ → Phase) (w : World)
    → can_go o f ≡ true
    → f a ≢ entering
    → needs_wake (phase_after o f a) ≡ true
    → will_wake a (o ∷ rest) ≡ true
    → will_wake a (orders_after o w rest) ≡ true
unfolding phase_after can_go orders_after
will_wake-orders_after a (change b c) rest f w go h n k = k
will_wake-orders_after a (wake b) rest f w go h n k =
    will_wake_rest a b rest ((phase_after_wake a b f go h).1 n).0 k
will_wake-orders_after a (join b) rest f w go h n k = k
will_wake-orders_after a (look b m) rest f w go h n k =
    will_wake-append a (behind_look b m (get_elem? w.heap b)) rest k
will_wake-orders_after a (leave b) rest f w go h n k =
    will_wake-append a (behind_leave b (get_elem? w.heap b)) rest k
