-- ===== src/Exec/Steps.antt =====
-- Reasoning about methods that first check and then write.
use fredoomeaxima.Common.{Bool, true, false, Option, none, some, ◌≡◌, refl, arith}
use fredoomeaxima.Exec.{
  Error, Result, ok, err, Exec, lift, or_throw, throw_if, continue, ◌>>=◌, ◌>>◌,
}

module _ {S A B : Type 0} where
  -- What a success says of each check, with what is left to run.
  pub or_throw_ok :
      (e : Error) (o : Option A) (f : A → Exec S B) (s : S) (b : B)
      → ((or_throw e o >>= f) s).0 ≡ ok b
      → (a : A) × (o ≡ some a) × ((f a s).0 ≡ ok b) × ((or_throw e o >>= f) s ≡ f a s)
  or_throw_ok e none f s b h = absurd (ground arith)
  or_throw_ok e (some a) f s b h = (a, refl, h, refl)

  continue_ok :
      (r : Result A) (f : A → Exec S B) (s : S) (b : B)
      → (continue r f s).0 ≡ ok b
      → (a : A) × (r ≡ ok a) × (continue r f s ≡ f a s)
  continue_ok (ok a) f s b h = (a, refl, refl)
  continue_ok (err e) f s b h = absurd (ground arith)

  -- A sequence that succeeds has run its first action with success, and is what followed it.
  pub bind_ok :
      (m : Exec S A) (f : A → Exec S B) (s : S) (b : B)
      → ((m >>= f) s).0 ≡ ok b
      → (a : A) × ((m s).0 ≡ ok a) × ((m >>= f) s ≡ f a (m s).1)
  bind_ok m f s b = continue_ok (m s).0 f (m s).1 b

  pub lift_ok :
      (r : Result A) (f : A → Exec S B) (s : S) (b : B)
      → ((lift r >>= f) s).0 ≡ ok b
      → (a : A) × (r ≡ ok a) × ((f a s).0 ≡ ok b) × ((lift r >>= f) s ≡ f a s)
  lift_ok (ok a) f s b h = (a, refl, h, refl)
  lift_ok (err e) f s b h = absurd (ground arith)

  -- A check that fails writes nothing: what is left to run has to be looked at.
  pub or_throw_err :
      (e : Error) (o : Option A) (f : A → Exec S B) (s : S) (x : Error)
      → ((or_throw e o >>= f) s).0 ≡ err x
      → ((a : A) → (f a s).0 ≡ err x → (f a s).1 ≡ s)
      → ((or_throw e o >>= f) s).1 ≡ s
  or_throw_err e none f s x h rest = refl
  or_throw_err e (some a) f s x h rest = rest a h

  pub lift_err :
      (r : Result A) (f : A → Exec S B) (s : S) (x : Error)
      → ((lift r >>= f) s).0 ≡ err x
      → ((a : A) → (f a s).0 ≡ err x → (f a s).1 ≡ s)
      → ((lift r >>= f) s).1 ≡ s
  lift_err (ok a) f s x h rest = rest a h
  lift_err (err e) f s x h rest = refl

  -- What a state has, and what is left to run keeps, the whole keeps.
  pub or_throw_keeps {κ} :
      (P : S → Type κ) (e : Error) (o : Option A) (f : A → Exec S B) (s : S)
      → P s
      → ((a : A) → o ≡ some a → P (f a s).1)
      → P ((or_throw e o >>= f) s).1
  or_throw_keeps P e none f s p rest = p
  or_throw_keeps P e (some a) f s p rest = rest a refl

  pub lift_keeps {κ} :
      (P : S → Type κ) (r : Result A) (f : A → Exec S B) (s : S)
      → P s
      → ((a : A) → r ≡ ok a → P (f a s).1)
      → P ((lift r >>= f) s).1
  lift_keeps P (ok a) f s p rest = rest a refl
  lift_keeps P (err e) f s p rest = p

module _ {S B : Type 0} where
  pub throw_if_keeps {κ} :
      (P : S → Type κ) (t : Bool) (e : Error) (m : Exec S B) (s : S)
      → P s
      → (t ≡ false → P (m s).1)
      → P ((throw_if t e >> m) s).1
  throw_if_keeps P true e m s p rest = p
  throw_if_keeps P false e m s p rest = rest refl

  pub throw_if_ok :
      (t : Bool) (e : Error) (m : Exec S B) (s : S) (b : B)
      → ((throw_if t e >> m) s).0 ≡ ok b
      → (t ≡ false) × ((m s).0 ≡ ok b) × ((throw_if t e >> m) s ≡ m s)
  throw_if_ok true e m s b h = absurd (ground arith)
  throw_if_ok false e m s b h = (refl, h, refl)

  pub throw_if_err :
      (t : Bool) (e : Error) (m : Exec S B) (s : S) (x : Error)
      → ((throw_if t e >> m) s).0 ≡ err x
      → ((m s).0 ≡ err x → (m s).1 ≡ s)
      → ((throw_if t e >> m) s).1 ≡ s
  throw_if_err true e m s x h rest = refl
  throw_if_err false e m s x h rest = rest h

module _ {S A B : Type 0} where
  continue_leads {κ μ} :
      (Q : S → Type κ) (P : S → Type μ) (r : Result A) (f : A → Exec S B) (s : S)
      → Q s
      → ((t : S) → Q t → P t)
      → ((a : A) (t : S) → Q t → P (f a t).1)
      → P (continue r f s).1
  continue_leads Q P (ok a) f s q stop go = go a s q
  continue_leads Q P (err e) f s q stop go = stop s q

  -- What holds after the first action leads to what holds after the sequence.
  pub bind_leads {κ μ} :
      (Q : S → Type κ) (P : S → Type μ) (m : Exec S A) (f : A → Exec S B) (s : S)
      → Q (m s).1
      → ((t : S) → Q t → P t)
      → ((a : A) (t : S) → Q t → P (f a t).1)
      → P ((m >>= f) s).1
  bind_leads Q P m f s = continue_leads Q P (m s).0 f (m s).1
