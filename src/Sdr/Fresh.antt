-- ===== src/Sdr/Fresh.antt =====
-- A sensor under construction (sdr.py): it has no kind yet, and the value that was read.
use mathlib.Core.Path.{subst}
use idic.Prelude.{
  ℕ, ◌+◌, ◌≡◌, refl, sym, ap, ◌∙◌, Option, none, some, List, get_elem?, inl, inr,
  get_elem?-set_cases,
}
use idic.Model.{World, Sensor, Exec, object, store, ◌>>=◌, continue, or_raise, attribute_error}
use idic.Model.Outcomes.{
  Preserves, Preserves-pure, Preserves-lift, Preserves-attribute, Preserves-bind,
}
use idic.Model.Leads.{Leads, Ending, Leads-kept, Leads-Preserves}
use idic.Sensor.Attributes.{set_unr, set_uc, set_unc, set_lnr, set_lc, set_lnc}
use idic.Sensor.Reading.{get_reading_factor}
use idic.Sensor.Typed.{IsTyped}
use idic.Sdr.{byte_at, set_byte, Fields, read_full}
use idic.Sdr.Values.{IsSound}

-- The object at an address is under construction: it has no kind yet, and the value that was read.
pub record IsFresh (f : Fields) (a : ℕ) (w : World) : Type 0 where
  pub sound : IsSound w
  pub untyped :
      (s : Sensor) → get_elem? w.heap a ≡ some s → (s.event_type ≡ none) × (s.value ≡ f.value)

-- A store of a typed object.
pub store-IsSound :
    (a : ℕ) (t : Sensor) (w : World) → IsTyped t → IsSound w → IsSound (store a t w).1
store-IsSound a t w h s = record {
  typed = λ b x e. elim (get_elem?-set_cases w.heap a b t e) [
    | inl (same, stored) ↦ subst IsTyped (sym stored) h
    | inr old ↦ s.typed b x old
  ];
  prints = s.prints;
}

pub untyped-IsTyped : (s : Sensor) → s.event_type ≡ none → IsTyped s
untyped-IsTyped s e n k = cc

module _ (f : Fields) (a : ℕ) where
  store-IsFresh :
      (t : Sensor) → t.event_type ≡ none → t.value ≡ f.value → Preserves (IsFresh f a) (store a t)
  store-IsFresh t e v = record {
    at = λ w h. record {
      sound = store-IsSound a t w (untyped-IsTyped t e) h.sound;
      untyped = λ x k. elim (get_elem?-set_cases w.heap a a t k) [
        | inl (same, stored) ↦
            (ap (λ (s : Sensor). s.event_type) stored ∙ e, ap (λ (s : Sensor). s.value) stored ∙ v)
        | inr old ↦ h.untyped x old
      ];
    };
  }

  continue_fresh :
      {B : Type 0} (E : World → Type 0) (Q : B → World → Type 0) (g : Sensor → Exec B) (w : World)
      → ((u : World) → IsFresh f a u → E u)
      → ((s : Sensor) → s.event_type ≡ none → s.value ≡ f.value → Leads (IsFresh f a) Q E (g s))
      → IsFresh f a w
      → (o : Option Sensor) → get_elem? w.heap a ≡ o
      → Ending Q E (continue (or_raise attribute_error o) g w)
  continue_fresh E Q g w falls k h none e = falls w h
  continue_fresh E Q g w falls k h (some s) e = (k s (h.untyped s e).0 (h.untyped s e).1).at w h

  -- The object is read.
  pub object-IsFresh :
      {B : Type 0} (E : World → Type 0) (Q : B → World → Type 0) (g : Sensor → Exec B)
      → ((u : World) → IsFresh f a u → E u)
      → ((s : Sensor) → s.event_type ≡ none → s.value ≡ f.value → Leads (IsFresh f a) Q E (g s))
      → Leads (IsFresh f a) Q E (object a >>= g)
  object-IsFresh E Q g falls k = record {
    at = λ w h. continue_fresh E Q g w falls k h (get_elem? w.heap a) refl;
  }

  kept_object :
      {B : Type 0} (g : Sensor → Exec B)
      → ((s : Sensor) → s.event_type ≡ none → s.value ≡ f.value → Preserves (IsFresh f a) (g s))
      → Preserves (IsFresh f a) (object a >>= g)
  kept_object g k = Leads-Preserves (IsFresh f a) (object a >>= g) (
      object-IsFresh (IsFresh f a) (λ x. IsFresh f a) g (λ u h. h)
        (λ s e v. Leads-kept (IsFresh f a) (IsFresh f a) (λ u h. h) (g s) (k s e v)))

  kept_byte : (file : List ℕ) (i : ℕ) → Preserves (IsFresh f a) (byte_at file i)
  kept_byte file i = Preserves-lift (IsFresh f a) _

  kept_set_byte :
      (setter : ℕ → Sensor → Sensor) (file : List ℕ) (i : ℕ)
      → ((x : ℕ) (s : Sensor) → (setter x s).event_type ≡ s.event_type)
      → ((x : ℕ) (s : Sensor) → (setter x s).value ≡ s.value)
      → Preserves (IsFresh f a) (set_byte a setter file i)
  unfolding set_byte
  kept_set_byte setter file i he hv =
      Preserves-bind (IsFresh f a) (byte_at file i) _ (kept_byte file i) (λ x.
        kept_object (λ s. store a (setter x s))
          (λ s e v. store-IsFresh (setter x s) (he x s ∙ e) (hv x s ∙ v)))

  kept_factor : (s : Sensor) → Preserves (IsFresh f a) (get_reading_factor s)
  unfolding get_reading_factor
  kept_factor s = search (Preserves-bind, Preserves-attribute, Preserves-pure) depth 10

  pub kept_read_full :
      (file : List ℕ) (offset : ℕ) → Preserves (IsFresh f a) (read_full file offset a)
  unfolding read_full
  kept_read_full file offset = past (kept_byte file (offset + 24)) λ b1.
      past (kept_byte file (offset + 25)) λ b2. past (kept_byte file (offset + 26)) λ b3.
        past (kept_byte file (offset + 27)) λ b4. past (kept_byte file (offset + 28)) λ b5.
          past (kept_byte file (offset + 29)) λ b6. kept_object _ λ s e v.
            past (store-IsFresh _ e v) λ d0.
              past (kept_set_byte set_unr file (offset + 36) (λ x s. refl) (λ x s. refl)) λ d1.
                past (kept_set_byte set_uc file (offset + 37) (λ x s. refl) (λ x s. refl)) λ d2.
                  past (kept_set_byte set_unc file (offset + 38) (λ x s. refl) (λ x s. refl)) λ d3.
                    past (kept_set_byte set_lnr file (offset + 39) (λ x s. refl) (λ x s. refl))
                      λ d4.
                        past (kept_set_byte set_lc file (offset + 40) (λ x s. refl) (λ x s. refl))
                          λ d5.
                            past
                              (kept_set_byte set_lnc file (offset + 41) (λ x s. refl) (λ x s. refl))
                              λ d6. kept_object _ λ filled k u.
                                past (kept_factor filled) λ factor. Preserves-pure (IsFresh f a) tt
    where
      past :
          {A B : Type 0} {m : Exec A} {g : A → Exec B}
          → Preserves (IsFresh f a) m
          → ((x : A) → Preserves (IsFresh f a) (g x))
          → Preserves (IsFresh f a) (m >>= g)
      past {m} {g} h k = Preserves-bind (IsFresh f a) m g h k
