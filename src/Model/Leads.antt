-- ===== src/Model/Leads.antt =====
-- What a block does from the states of one kind: where it returns, and where it raises.
use idic.Prelude.{Bool, true, false, if◌then◌else◌}
use idic.Model.State.{Error, World}
use idic.Model.Effects.{Result, ok, err, Exec, pure, raise, continue, ◌>>=◌}
use idic.Model.Outcomes.{Preserves}

abbrev pub Ending :
    {A : Type 0} → (A → World → Type 0) → (World → Type 0) → Result A × World → Type 0
Ending Q E (ok x, w) = Q x w
Ending Q E (err e, w) = E w

-- From a state in `P`, a result and its state are in `Q`, and the state of an exception is in `E`.
pub record Leads {A : Type 0} (P : World → Type 0) (Q : A → World → Type 0) (E : World → Type 0)
    (m : Exec A) : Type 0 where
  pub at : (w : World) → P w → Ending Q E (m w)

Ending-continue :
    {A B : Type 0} (R : A → World → Type 0) (Q : B → World → Type 0) (E : World → Type 0)
    (f : A → Exec B) (r : Result A) (w : World)
    → ((x : A) → Leads (R x) Q E (f x))
    → Ending R E (r, w)
    → Ending Q E (continue r f w)
Ending-continue R Q E f (ok x) w k h = (k x).at w h
Ending-continue R Q E f (err e) w k h = h

module _ {A B : Type 0} (P : World → Type 0) (E : World → Type 0) where
  pub Leads-bind :
      (R : A → World → Type 0) (Q : B → World → Type 0) (m : Exec A) (f : A → Exec B)
      → Leads P R E m
      → ((x : A) → Leads (R x) Q E (f x))
      → Leads P Q E (m >>= f)
  Leads-bind R Q m f h k = record {
    at = λ w p. Ending-continue R Q E f (m w).0 (m w).1 k (h.at w p);
  }

kept-Ending :
    {A : Type 0} (P E : World → Type 0) (r : Result A) (w : World)
    → ((u : World) → P u → E u)
    → P w
    → Ending (λ x. P) E (r, w)
kept-Ending P E (ok x) w h p = p
kept-Ending P E (err e) w h p = h w p

module _ (P : World → Type 0) (E : World → Type 0) (falls : (w : World) → P w → E w) where
  pub Leads-kept : {A : Type 0} (m : Exec A) → Preserves P m → Leads P (λ x. P) E m
  Leads-kept m h = record { at = λ w p. kept-Ending P E (m w).0 (m w).1 falls (h.at w p) }

  -- A part that keeps the states, and the rest.
  pub Leads-past :
      {A B : Type 0} (Q : B → World → Type 0) (m : Exec A) (f : A → Exec B)
      → Preserves P m
      → ((x : A) → Leads P Q E (f x))
      → Leads P Q E (m >>= f)
  Leads-past Q m f h k = Leads-bind P E (λ x. P) Q m f (Leads-kept m h) k

  pub Leads-raise : {A : Type 0} (Q : A → World → Type 0) (e : Error) → Leads P Q E (raise e)
  Leads-raise Q e = record { at = λ w p. falls w p }

pub Leads-pure :
    {A : Type 0} (P E : World → Type 0) (Q : A → World → Type 0) (x : A)
    → ((w : World) → P w → Q x w)
    → Leads P Q E (pure x)
Leads-pure P E Q x h = record { at = h }

pub Leads-if :
    {A : Type 0} (P E : World → Type 0) (Q : A → World → Type 0) (b : Bool) (m n : Exec A)
    → Leads P Q E m
    → Leads P Q E n
    → Leads P Q E (if b then m else n)
Leads-if P E Q true m n h k = h
Leads-if P E Q false m n h k = k

-- A block that leads back to the states it starts from keeps them.
pub Leads-Preserves :
    {A : Type 0} (P : World → Type 0) (m : Exec A) → Leads P (λ x. P) P m → Preserves P m
Leads-Preserves P m h = record { at = λ w p. back (m w).0 (m w).1 (h.at w p) }
  where
    back : {A : Type 0} (r : Result A) (w : World) → Ending (λ x. P) P (r, w) → P w
    back (ok x) w h = h
    back (err e) w h = h

-- A fact that an earlier part has left.
pub Leads-given :
    {A : Type 0} (F : Type 0) (P E : World → Type 0) (Q : A → World → Type 0) (m : Exec A)
    → (F → Leads P Q E m)
    → Leads (λ w. P w × F) Q E m
Leads-given F P E Q m h = record { at = λ w (p, x). (h x).at w p }
