-- ===== src/Effects/Raised.antt =====
-- The exceptions that an action may raise: one rule for each way to build an action.
use self_hosted_ci.Prelude.{◌≡◌, refl, Bool, true, false, Option, none, some, if◌then◌else◌}
use self_hosted_ci.Effects.{
  Outcome, ok, err, Act, pure, raise, gets, or_raise, atomic, finish, raise_if, raise_unless,
  modify, continue, ◌>>=◌,
}

abbrev pub raised : {E A : Type 0} → (E → Bool) → Outcome E A → Bool
raised test (ok a) = true
raised test (err e) = test e

-- Every exception of `m` passes the test.
pub record Raises {E S A : Type 0} (test : E → Bool) (m : Act E S A) : Type 0 where
  pub at : (s : S) → raised test (m s).0 ≡ true

finished :
    {E S A : Type 0} (test : E → Bool) (s : S) (r : Outcome E A × S)
    → raised test r.0 ≡ true
    → raised test (finish s r).0 ≡ true
finished test s (ok a, t) h = refl
finished test s (err e, t) h = h

module _ {E S : Type 0} {test : E → Bool} where
  pub Raises-raise_if : (c : Bool) (e : E) → test e ≡ true → Raises test (raise_if {S = S} c e)
  unfolding raise_if
  Raises-raise_if true e h = record { at = λ s. h }
  Raises-raise_if false e h = record { at = λ s. refl }

  pub Raises-raise_unless :
      (c : Bool) (e : E) → test e ≡ true → Raises test (raise_unless {S = S} c e)
  unfolding raise_unless
  Raises-raise_unless true e h = record { at = λ s. refl }
  Raises-raise_unless false e h = record { at = λ s. h }

  pub Raises-modify : (f : S → S) → Raises test (modify {E = E} f)
  unfolding modify
  Raises-modify f = record { at = λ s. refl }

module _ {E S A : Type 0} {test : E → Bool} where
  pub Raises-pure : (a : A) → Raises test (pure {E = E} {S = S} a)
  unfolding pure
  Raises-pure a = record { at = λ s. refl }

  pub Raises-raise : (e : E) → test e ≡ true → Raises test (raise {S = S} {A = A} e)
  unfolding raise
  Raises-raise e h = record { at = λ s. h }

  pub Raises-gets : (f : S → A) → Raises test (gets {E = E} f)
  unfolding gets
  Raises-gets f = record { at = λ s. refl }

  pub Raises-or_raise : (x : Option A) (e : E) → test e ≡ true → Raises test (or_raise {S = S} x e)
  unfolding or_raise
  Raises-or_raise none e h = record { at = λ s. h }
  Raises-or_raise (some a) e h = record { at = λ s. refl }

  pub Raises-if :
      (b : Bool) (m n : Act E S A)
      → Raises test m
      → Raises test n
      → Raises test (if b then m else n)
  Raises-if true m n h k = h
  Raises-if false m n h k = k

  pub Raises-atomic : (m : Act E S A) → Raises test m → Raises test (atomic m)
  unfolding atomic
  Raises-atomic m h = record { at = λ s. finished test s (m s) (h.at s) }

module _ {E S A B : Type 0} {test : E → Bool} where
  continues :
      (f : A → Act E S B) (r : Outcome E A × S)
      → raised test r.0 ≡ true
      → ((a : A) → Raises test (f a))
      → raised test (continue r.0 f r.1).0 ≡ true
  continues f (ok a, t) h k = (k a).at t
  continues f (err e, t) h k = h

  pub Raises-bind :
      (m : Act E S A) (f : A → Act E S B)
      → Raises test m
      → ((a : A) → Raises test (f a))
      → Raises test (m >>= f)
  unfolding ◌>>=◌
  Raises-bind m f h k = record { at = λ s. continues f (m s) (h.at s) k }

pub ruleset raises_rules = (
  Raises-raise_if, Raises-raise_unless, Raises-modify, Raises-pure, Raises-raise, Raises-gets,
  Raises-or_raise, Raises-if, Raises-atomic, Raises-bind,
)
