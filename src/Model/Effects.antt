-- ===== src/Model/Effects.antt =====
-- Functions with side effects that may raise. What was written before a raise stays written, so
-- the state comes back beside the exception.
use idic.Prelude.{ℕ, Option, none, some, List, ◌++◌, [], ◌∷◌, get_elem?, set, ◌≡◌, refl, ap}
use idic.Model.Sensors.{Sensor}
use idic.Model.State.{Error, attribute_error, World}

pub data Result (A : Type 0) : Type 0 where
  ok : A → Result A
  err : Error → Result A

abbrev pub Exec : Type 0 → Type 0
Exec A = World → Result A × World

abbrev pub Done : Type 0
Done = Unit {0}

abbrev pub pure : {A : Type 0} → A → Exec A
pure a w = (ok a, w)

abbrev pub raise : {A : Type 0} → Error → Exec A
raise e w = (err e, w)

-- What is left of a block after a part that returned or raised.
abbrev pub continue : {A B : Type 0} → Result A → (A → Exec B) → World → Result B × World
continue (ok a) f w = f a w
continue (err e) f w = (err e, w)

infixl 5 ◌>>=◌ ◌>>◌
abbrev pub ◌>>=◌ : {A B : Type 0} → Exec A → (A → Exec B) → Exec B
◌>>=◌ m f w = let (r, w') = m w in continue r f w'

abbrev pub ◌>>◌ : {A B : Type 0} → Exec A → Exec B → Exec B
m >> k = m >>= λ _. k

abbrev pub gets : {A : Type 0} → (World → A) → Exec A
gets f w = (ok (f w), w)

abbrev pub modify : (World → World) → Exec Done
modify f w = (ok tt, f w)

abbrev pub lift : {A : Type 0} → Result A → Exec A
lift r w = (r, w)

-- An attribute that may not have been set.
abbrev pub attribute : {A : Type 0} → Option A → Exec A
attribute none = raise attribute_error
attribute (some a) = pure a

abbrev pub or_raise : {A : Type 0} → Error → Option A → Result A
or_raise e none = err e
or_raise e (some a) = ok a

-- The object at an address. Every address that the program holds is in the heap.
abbrev pub object : ℕ → Exec Sensor
object a w = (or_raise attribute_error (get_elem? w.heap a), w)

abbrev pub store : ℕ → Sensor → Exec Done
store a s = modify (λ w. record w { heap = set w.heap a s })

-- `common.msg_queue.put(text)`.
abbrev pub put_message : List ℕ → Exec Done
put_message t = modify (λ w. record w { msg_queue = w.msg_queue ++ t ∷ [] })

-- `condition.acquire(); condition.notify(); condition.release()` of the sensor at an address.
abbrev pub notify : ℕ → Exec Done
notify a = modify (λ w. record w { notified = w.notified ++ a ∷ [] })

continue-eq-ok :
    {A B : Type 0} (r : Result A) (f : A → Exec B) (w : World) {b : B}
    → (continue r f w).0 ≡ ok b
    → (a : A) × (r ≡ ok a) × ((f a w).0 ≡ ok b)
continue-eq-ok (ok a) f w h = (a, refl, h)
continue-eq-ok (err e) f w h = cc

-- The parts of a block that has returned.
pub >>=-eq-ok :
    {A B : Type 0} (m : Exec A) (f : A → Exec B) (w : World) {b : B}
    → ((m >>= f) w).0 ≡ ok b
    → (a : A) × ((m w).0 ≡ ok a) × ((f a (m w).1).0 ≡ ok b)
>>=-eq-ok m f w h = continue-eq-ok (m w).0 f (m w).1 h

pub attribute-bind :
    {A B : Type 0} (o : Option A) (f : A → Exec B) (w : World) {a : A}
    → o ≡ some a
    → (attribute o >>= f) w ≡ f a w
attribute-bind {A} o f w e = ap (λ (x : Option A). (attribute x >>= f) w) e

pub object-bind :
    {B : Type 0} (a : ℕ) (f : Sensor → Exec B) (w : World) {s : Sensor}
    → get_elem? w.heap a ≡ some s
    → (object a >>= f) w ≡ f s w
object-bind a f w e = ap (λ (o : Option Sensor). continue (or_raise attribute_error o) f w) e

-- A block whose first part is known to return.
pub bind_step :
    {A B : Type 0} (m : Exec A) (f : A → Exec B) (w : World) {a : A} {w' : World}
    → m w ≡ (ok a, w')
    → (m >>= f) w ≡ f a w'
bind_step {A} m f w e = ap (λ (p : Result A × World). continue p.0 f p.1) e

-- The same, with the state that the part leaves.
pub bind_step' :
    {A B : Type 0} (m : Exec A) (f : A → Exec B) (w : World) {a : A}
    → (m w).0 ≡ ok a
    → (m >>= f) w ≡ f a (m w).1
bind_step' m f w e = λ i. continue (e i) f (m w).1
