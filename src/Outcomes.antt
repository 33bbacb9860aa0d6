-- ===== src/Outcomes.antt =====
-- Postconditions of a run: `Ensures` of one that may also crash or need more fuel, `Safe` of one
-- that does not crash.
use nw_proj.Base.{subst, Option, none, some, ◌≡◌, refl}
use nw_proj.Instance.{Fault, Outcome, ok, crash, out_of_fuel, ◌>>=◌, deref}

module _ {A : Type 0} where
  unfoldable pub Ensures : (A → Type 0) → Outcome A → Type 0
  Ensures P (ok a) = P a
  Ensures P (crash e) = Unit {0}
  Ensures P out_of_fuel = Unit {0}

  pub Ensures-ok : (P : A → Type 0) (a : A) → P a → Ensures P (ok a)
  unfolding Ensures
  Ensures-ok P a h = h

  pub Ensures-crash : (P : A → Type 0) (e : Fault) → Ensures P (crash e)
  unfolding Ensures
  Ensures-crash P e = tt

  pub Ensures-out_of_fuel : (P : A → Type 0) → Ensures P out_of_fuel
  unfolding Ensures
  Ensures-out_of_fuel P = tt

  -- What is ensured holds of what a run returned.
  pub Ensures_elim : (P : A → Type 0) (m : Outcome A) (a : A) → Ensures P m → m ≡ ok a → P a
  unfolding Ensures
  Ensures_elim P m a h e = subst (Ensures P) e h

  pub Ensures-bind :
      (P Q : A → Type 0) (m : Outcome A) (f : A → Outcome A)
      → Ensures P m
      → ((a : A) → P a → Ensures Q (f a))
      → Ensures Q (m >>= f)
  unfolding Ensures
  Ensures-bind P Q (ok a) f h k = k a h
  Ensures-bind P Q (crash e) f h k = tt
  Ensures-bind P Q out_of_fuel f h k = tt

  pub Ensures-mono :
      (P Q : A → Type 0) (m : Outcome A) → Ensures P m → ((a : A) → P a → Q a) → Ensures Q m
  unfolding Ensures
  Ensures-mono P Q (ok a) h k = k a h
  Ensures-mono P Q (crash e) h k = tt
  Ensures-mono P Q out_of_fuel h k = tt

-- What holds of what follows a pointer that is not null.
pub Ensures-deref {ℓ} :
    {A : Type ℓ} {B : Type 0} (P : B → Type 0) (f : A → Outcome B) (found : Option A)
    → ((a : A) → found ≡ some a → Ensures P (f a))
    → Ensures P (deref found >>= f)
unfolding Ensures
Ensures-deref P f none h = tt
Ensures-deref P f (some a) h = h a refl

module _ {A : Type 0} where
  -- The run does not crash, and what it returns, if it needs no more fuel, has the property.
  unfoldable pub Safe : (A → Type 0) → Outcome A → Type 0
  Safe P (ok a) = P a
  Safe P (crash e) = ⊥
  Safe P out_of_fuel = Unit {0}

  pub Safe-ok : (P : A → Type 0) (a : A) → P a → Safe P (ok a)
  unfolding Safe
  Safe-ok P a h = h

  pub Safe-out_of_fuel : (P : A → Type 0) → Safe P out_of_fuel
  unfolding Safe
  Safe-out_of_fuel P = tt

pub Safe-bind :
    {A B : Type 0} (P : A → Type 0) (Q : B → Type 0) (m : Outcome A) (f : A → Outcome B)
    → Safe P m
    → ((a : A) → P a → Safe Q (f a))
    → Safe Q (m >>= f)
unfolding Safe
Safe-bind P Q (ok a) f h k = k a h
Safe-bind P Q (crash e) f h k = absurd h
Safe-bind P Q out_of_fuel f h k = tt

-- The run needs no more fuel, and what it returns, if it does not crash, has the property.
module _ {A : Type 0} where
  unfoldable pub Ends : (A → Type 0) → Outcome A → Type 0
  Ends P (ok a) = P a
  Ends P (crash e) = Unit {0}
  Ends P out_of_fuel = ⊥

  pub Ends-ok : (P : A → Type 0) (a : A) → P a → Ends P (ok a)
  unfolding Ends
  Ends-ok P a h = h

  pub Ends-crash : (P : A → Type 0) (e : Fault) → Ends P (crash e)
  unfolding Ends
  Ends-crash P e = tt

  -- A run that ends and does not crash returns.
  pub Ends-Safe :
      (P Q : A → Type 0) (m : Outcome A) → Ends P m → Safe Q m → (a : A) × (m ≡ ok a) × P a × Q a
  unfolding Ends Safe
  Ends-Safe P Q (ok a) h k = (a, refl, h, k)
  Ends-Safe P Q (crash e) h k = absurd k
  Ends-Safe P Q out_of_fuel h k = absurd h

pub Ends-deref {ℓ} :
    {A : Type ℓ} {B : Type 0} (P : B → Type 0) (f : A → Outcome B) (found : Option A)
    → ((a : A) → Ends P (f a))
    → Ends P (deref found >>= f)
unfolding Ends
Ends-deref P f none h = tt
Ends-deref P f (some a) h = h a
