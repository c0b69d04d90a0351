-- ===== src/Fault.antt =====
-- What ends a handler otherwise than by returning, and the computations that may end so.
use cherokee.Base.{◌≡◌, refl, ◌⊎◌, inl, inr}

pub data Fault : Type 0 where
  out_of_range : Fault  -- std::out_of_range leaves the handler
  invalid_argument : Fault  -- std::invalid_argument leaves the handler
  undefined : Fault  -- undefined behaviour: a read or a pop outside a string, a null directory
  too_large : Fault  -- a size does not fit the `int` that takes it
  hangs : Fault  -- a loop that never ends
  out_of_fuel : Fault  -- the rounds given to the model of a loop did not suffice

pub data Result {ℓ} (A : Type ℓ) : Type ℓ where
  fault : Fault → Result A
  ok : A → Result A

pub Result-cases {ℓ} :
    {A : Type ℓ} (m : Result A) → ((a : A) × (m ≡ ok a)) ⊎ ((e : Fault) × (m ≡ fault e))
Result-cases (fault e) = inr (e, refl)
Result-cases (ok a) = inl (a, refl)

module _ {ℓ κ} {A : Type ℓ} {B : Type κ} where
  infixl 5 ◌>>=◌
  abbrev pub ◌>>=◌ : Result A → (A → Result B) → Result B
  fault e >>= f = fault e
  ok a >>= f = f a

  pub bind-eq-ok :
      (m : Result A) (f : A → Result B) {r : B}
      → (m >>= f) ≡ ok r
      → (x : A) × (m ≡ ok x) × (f x ≡ ok r)
  bind-eq-ok (fault e) f h = cc
  bind-eq-ok (ok a) f h = (a, refl, h)

-- Two continuations that agree on the result.
pub bind-ext {ℓ κ} :
    {A : Type ℓ} {B : Type κ} (m : Result A) (f g : A → Result B)
    → ((a : A) → m ≡ ok a → f a ≡ g a)
    → (m >>= f) ≡ (m >>= g)
bind-ext (ok a) f g h = h a refl
bind-ext (fault e) f g h = refl

pub bind_assoc {ℓ κ μ} :
    {A : Type ℓ} {B : Type κ} {C : Type μ} (m : Result A) (f : A → Result B) (g : B → Result C)
    → (m >>= f >>= g) ≡ (m >>= λ a. f a >>= g)
bind_assoc (ok a) f g = refl
bind_assoc (fault e) f g = refl
