-- ===== src/Model/Outcomes.antt =====
-- What holds of the results of a block, and what a block preserves, from what holds of its parts.
use mathlib.Core.Path.{subst}
use idic.Prelude.{ℕ, ◌≡◌, refl, Bool, true, false, Option, none, some, if◌then◌else◌}
use idic.Model.State.{Error, World}
use idic.Model.Effects.{
  Result, ok, err, Exec, pure, raise, continue, ◌>>=◌, lift, attribute, object, gets, >>=-eq-ok,
}

-- Every result that `m` returns satisfies `Q`.
pub record Returns {A : Type 0} (Q : A → Type 0) (m : Exec A) : Type 0 where
  pub at : (w : World) (x : A) → (m w).0 ≡ ok x → Q x

-- `m` preserves `I`, whether it returns or raises.
pub record Preserves {A : Type 0} (I : World → Type 0) (m : Exec A) : Type 0 where
  pub at : (w : World) → I w → I (m w).1

module _ {B : Type 0} (Q : B → Type 0) where
  pub Returns-bind :
      {A : Type 0} (m : Exec A) (f : A → Exec B) → ((x : A) → Returns Q (f x)) → Returns Q (m >>= f)
  Returns-bind m f k = record {
    at = λ w x h. let (a, returned, rest) = >>=-eq-ok m f w h in (k a).at (m w).1 x rest;
  }

  pub Returns-pure : (x : B) → Q x → Returns Q (pure x)
  Returns-pure x q = record { at = λ w y h. let same : x ≡ y = cc in subst Q same q }

  pub Returns-raise : (e : Error) → Returns Q (raise e)
  Returns-raise e = record { at = λ w y h. let no : err e ≡ ok y = h in absurd (cc) }

  pub Returns-if :
      (b : Bool) (m n : Exec B)
      → (b ≡ true → Returns Q m)
      → (b ≡ false → Returns Q n)
      → Returns Q (if b then m else n)
  Returns-if true m n h k = h refl
  Returns-if false m n h k = k refl

  -- The rest may use what the first part's results satisfy.
  pub Returns-bind_of :
      {A : Type 0} (R : A → Type 0) (m : Exec A) (f : A → Exec B)
      → Returns R m
      → ((x : A) → R x → Returns Q (f x))
      → Returns Q (m >>= f)
  Returns-bind_of R m f first k = record {
    at = λ w x h.
        let (a, returned, rest) = >>=-eq-ok m f w h in
        (k a (first.at w a returned)).at (m w).1 x rest;
  }

module _ (I : World → Type 0) where
  pub Preserves-pure : {A : Type 0} (x : A) → Preserves I (pure x)
  Preserves-pure x = record { at = λ w h. h }

  pub Preserves-lift : {A : Type 0} (r : Result A) → Preserves I (lift r)
  Preserves-lift r = record { at = λ w h. h }

  pub Preserves-object : (a : ℕ) → Preserves I (object a)
  Preserves-object a = record { at = λ w h. h }

  pub Preserves-attribute : {A : Type 0} (o : Option A) → Preserves I (attribute o)
  Preserves-attribute none = record { at = λ w h. h }
  Preserves-attribute (some x) = record { at = λ w h. h }

  pub Preserves-continue :
      {A B : Type 0} (r : Result A) (f : A → Exec B) (w : World)
      → ((x : A) → Preserves I (f x))
      → I w
      → I (continue r f w).1
  Preserves-continue (ok x) f w k h = (k x).at w h
  Preserves-continue (err e) f w k h = h

  pub Preserves-bind :
      {A B : Type 0} (m : Exec A) (f : A → Exec B)
      → Preserves I m
      → ((x : A) → Preserves I (f x))
      → Preserves I (m >>= f)
  Preserves-bind m f h k = record { at = λ w i. Preserves-continue (m w).0 f (m w).1 k (h.at w i) }

  pub Preserves-if :
      {A : Type 0} (b : Bool) (m n : Exec A)
      → Preserves I m
      → Preserves I n
      → Preserves I (if b then m else n)
  Preserves-if true m n h k = h
  Preserves-if false m n h k = k

  pub Preserves-raise : {A : Type 0} (e : Error) → Preserves I (raise {A = A} e)
  Preserves-raise e = record { at = λ w h. h }

  pub Preserves-gets : {A : Type 0} (f : World → A) → Preserves I (gets f)
  Preserves-gets f = record { at = λ w h. h }

  pub Preserves-option :
      {A B : Type 0} (o : Option A) (m : Exec B) (f : A → Exec B)
      → Preserves I m
      → ((x : A) → Preserves I (f x))
      → Preserves I (elim o [ none ↦ m | some x ↦ f x ])
  Preserves-option none m f h k = h
  Preserves-option (some x) m f h k = k x
