-- ===== src/Exec.antt =====
-- Service methods: they read and write a state and may throw. What was written before a throw stays
-- written, as the services run their queries one by one, so the state comes back beside the error.
pub mod Steps
pub mod Keeps
use fredoomeaxima.Common.{String, Bool, true, false, Option, none, some, ◌≡◌, refl}

-- The exceptions by their HTTP meaning, with their messages; `internal` is any other error.
pub data Error : Type 0 where
  bad_request unauthorized forbidden not_found conflict unavailable internal : String → Error

pub data Result {ℓ} (A : Type ℓ) : Type ℓ where
  ok : A → Result A
  err : Error → Result A

abbrev pub Exec : Type 0 → Type 0 → Type 0
Exec S A = S → Result A × S

module _ {S A : Type 0} where
  abbrev pub pure : A → Exec S A
  pure a s = (ok a, s)

  abbrev pub throw : Error → Exec S A
  throw e s = (err e, s)

  abbrev pub gets : (S → A) → Exec S A
  gets f s = (ok (f s), s)

  abbrev pub lift : Result A → Exec S A
  lift r s = (r, s)

  -- `if (!found) throw e`
  abbrev pub or_throw : Error → Option A → Exec S A
  or_throw e none s = (err e, s)
  or_throw e (some a) s = (ok a, s)

module _ {S : Type 0} where
  abbrev pub modify : (S → S) → Exec S (Unit {0})
  modify f s = (ok tt, f s)

  -- `if (test) throw e`
  abbrev pub throw_if : Bool → Error → Exec S (Unit {0})
  throw_if true e s = (err e, s)
  throw_if false e s = (ok tt, s)

module _ {S A B : Type 0} where
  abbrev pub continue : Result A → (A → Exec S B) → Exec S B
  continue (ok a) f s = f a s
  continue (err e) f s = (err e, s)

  -- Runs the second action on the state that the first one leaves, unless it threw.
  infixl 10 ◌>>=◌ ◌>>◌
  abbrev pub ◌>>=◌ : Exec S A → (A → Exec S B) → Exec S B
  ◌>>=◌ first rest s = continue (first s).0 rest (first s).1

  abbrev pub ◌>>◌ : Exec S A → Exec S B → Exec S B
  ◌>>◌ first rest s = continue (first s).0 (λ _. rest) (first s).1

module _ {S A B : Type 0} where
  continue-gets : (r : Result A) (f : S → B) (s : S) → (continue r (λ _. gets f) s).1 ≡ s
  continue-gets (ok a) f s = refl
  continue-gets (err e) f s = refl

  -- Reading after an action leaves the state that the action left.
  pub bind_gets : (m : Exec S A) (f : S → B) (s : S) → ((m >>= λ _. gets f) s).1 ≡ (m s).1
  bind_gets m f s = continue-gets (m s).0 f (m s).1

  continue-pure : (r : Result A) (f : A → B) (s : S) → (continue r (λ a. pure (f a)) s).1 ≡ s
  continue-pure (ok a) f s = refl
  continue-pure (err e) f s = refl

  -- Only naming the result changes no state.
  pub bind_pure : (m : Exec S A) (f : A → B) (s : S) → ((m >>= λ a. pure (f a)) s).1 ≡ (m s).1
  bind_pure m f s = continue-pure (m s).0 f (m s).1

  continue_keeps {κ} :
      (P : S → Type κ) (r : Result A) (f : A → Exec S B) (s : S)
      → P s
      → ((a : A) → P s → P (f a s).1)
      → P (continue r f s).1
  continue_keeps P (ok a) f s p h = h a p
  continue_keeps P (err e) f s p h = p

  -- What an action keeps, and every continuation keeps, the sequence keeps.
  pub bind_keeps {κ} :
      (P : S → Type κ) (m : Exec S A) (f : A → Exec S B) (s : S)
      → P (m s).1
      → ((a : A) (t : S) → P t → P (f a t).1)
      → P ((m >>= f) s).1
  bind_keeps P m f s p h = continue_keeps P (m s).0 f (m s).1 p (λ a. h a (m s).1)
