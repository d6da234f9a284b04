-- ===== src/Exec/Keeps.antt =====
-- What methods keep, whether they succeed or throw: one rule for each way to build a method.
use fredoomeaxima.Common.{Bool, true, false, Option, none, some}
use fredoomeaxima.Exec.{
  Error, Result, Exec, pure, gets, modify, lift, or_throw, throw_if, ◌>>=◌, ◌>>◌, bind_keeps,
}

pub record Keeps {S A : Type 0} (P : S → Type 0) (m : Exec S A) : Type 0 where
  pub at : (s : S) → P s → P (m s).1

module _ {S A : Type 0} {P : S → Type 0} where
  pub Keeps-pure : (a : A) → Keeps P (pure a)
  Keeps-pure a = record { at = λ s p. p }

  pub Keeps-gets : (f : S → A) → Keeps P (gets f)
  Keeps-gets f = record { at = λ s p. p }

  pub Keeps-lift : (r : Result A) → Keeps P (lift r)
  Keeps-lift r = record { at = λ s p. p }

  pub Keeps-or_throw : (e : Error) (o : Option A) → Keeps P (or_throw e o)
  Keeps-or_throw e none = record { at = λ s p. p }
  Keeps-or_throw e (some a) = record { at = λ s p. p }

module _ {S : Type 0} {P : S → Type 0} where
  pub Keeps-throw_if : (b : Bool) (e : Error) → Keeps P (throw_if b e)
  Keeps-throw_if true e = record { at = λ s p. p }
  Keeps-throw_if false e = record { at = λ s p. p }

  pub Keeps-modify : (f : S → S) → ((s : S) → P s → P (f s)) → Keeps P (modify f)
  Keeps-modify f h = record { at = h }

module _ {S A B : Type 0} {P : S → Type 0} where
  pub Keeps-bind :
      (m : Exec S A) (f : A → Exec S B) → Keeps P m → ((a : A) → Keeps P (f a)) → Keeps P (m >>= f)
  Keeps-bind m f km kf = record {
    at = λ s p. bind_keeps P m f s (km.at s p) (λ a t q. (kf a).at t q);
  }

  pub Keeps-then : (m : Exec S A) (n : Exec S B) → Keeps P m → Keeps P n → Keeps P (m >> n)
  Keeps-then m n km kn = record {
    at = λ s p. bind_keeps P m (λ _. n) s (km.at s p) (λ a t q. kn.at t q);
  }

pub ruleset keeps_rules = (
  Keeps-pure, Keeps-gets, Keeps-lift, Keeps-or_throw, Keeps-throw_if, Keeps-bind, Keeps-then,
  Keeps-modify,
)
