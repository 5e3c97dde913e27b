-- ===== src/Effects.antt =====
-- State and exceptions: an action takes a state to a result or an exception, and a state. What was
-- written before an exception stays written, unless the action is a transaction.
pub mod Related
pub mod Raised
pub mod Found
pub mod Returned
use self_hosted_ci.Prelude.{Bool, true, false, Option, none, some, if◌then◌else◌}

pub data Outcome (E A : Type 0) : Type 0 where
  ok : A → Outcome E A
  err : E → Outcome E A

abbrev pub Act : Type 0 → Type 0 → Type 0 → Type 0
Act E S A = S → Outcome E A × S

module _ {E S A : Type 0} where
  unfoldable pub pure : A → Act E S A
  pure a s = (ok a, s)

  unfoldable pub raise : E → Act E S A
  raise e s = (err e, s)

  unfoldable pub gets : (S → A) → Act E S A
  gets f s = (ok (f s), s)

  unfoldable pub or_raise : Option A → E → Act E S A
  or_raise none e s = (err e, s)
  or_raise (some a) e s = (ok a, s)

  -- the end of a transaction that began in `s`
  abbrev pub finish : S → Outcome E A × S → Outcome E A × S
  finish s (ok a, t) = (ok a, t)
  finish s (err e, t) = (err e, s)

  -- a transaction: an exception rolls back
  unfoldable pub atomic : Act E S A → Act E S A
  atomic m s = finish s (m s)

  -- `try`: the outcome of `m` is a value
  unfoldable pub attempt : Act E S A → Act E S (Outcome E A)
  attempt m s = (ok (m s).0, (m s).1)

module _ {E S : Type 0} where
  unfoldable pub raise_if : Bool → E → Act E S (Unit {0})
  raise_if c e s = (if c then err e else ok tt, s)

  unfoldable pub raise_unless : Bool → E → Act E S (Unit {0})
  raise_unless c e s = (if c then ok tt else err e, s)

  unfoldable pub modify : (S → S) → Act E S (Unit {0})
  modify f s = (ok tt, f s)

module _ {E S A B : Type 0} where
  abbrev pub continue : Outcome E A → (A → Act E S B) → Act E S B
  continue (ok a) f s = f a s
  continue (err e) f s = (err e, s)

  infixl 5 ◌>>=◌ ◌>>◌
  -- opening this opens the other actions too
  unfoldable pub ◌>>=◌ : Act E S A → (A → Act E S B) → Act E S B
  unfolding pure raise gets or_raise atomic raise_if raise_unless modify
  ◌>>=◌ m f s = let (r, s') = m s in continue r f s'

  abbrev pub ◌>>◌ : Act E S A → Act E S B → Act E S B
  m >> k = m >>= λ _. k

-- `try: m except …: k`, for the exceptions that pass the test
abbrev pub settle : {E S A : Type 0} → (E → Bool) → Act E S A → Outcome E A → Act E S A
settle test k (ok a) = pure a
settle test k (err e) = if test e then k else raise e

unfoldable pub rescue : {E S A : Type 0} → (E → Bool) → Act E S A → Act E S A → Act E S A
rescue test m k = attempt m >>= settle test k

-- `try: m except … as e: raise f(e)`
abbrev pub translated : {E A : Type 0} → (E → E) → Outcome E A → Outcome E A
translated f (ok a) = ok a
translated f (err e) = err (f e)

unfoldable pub translate : {E S A : Type 0} → (E → E) → Act E S A → Act E S A
translate f m s = (translated f (m s).0, (m s).1)
