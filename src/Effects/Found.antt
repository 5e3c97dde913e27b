-- ===== src/Effects/Found.antt =====
-- What an action that reads a state finds there, and what a later action may do that knows it: one
-- rule for each way to read.
use self_hosted_ci.Prelude.{
  ◌∙◌, sym, subst, arith, ap, ◌≡◌, refl, Bool, true, false, Option, none, some, if◌then◌else◌,
}
use self_hosted_ci.Effects.{
  Outcome, ok, err, Act, pure, raise, gets, or_raise, raise_if, raise_unless, continue, ◌>>=◌,
}
use self_hosted_ci.Effects.Related.{IsPreorder, Related}

-- a result that satisfies `P`, or an exception; the state is `s` still
abbrev pub Found : {E S A : Type 0} → S → (A → Type 0) → Outcome E A × S → Type 0
Found s P (ok a, t) = (t ≡ s) × P a
Found s P (err e, t) = t ≡ s

-- In the state `s`, what `m` returns satisfies `P`, and `m` changes nothing.
pub record Finds {E S A : Type 0} (s : S) (P : A → Type 0) (m : Act E S A) : Type 0 where
  pub at : Found s P (m s)

module _ {E S : Type 0} {s : S} where
  pub Finds-raise_if : (c : Bool) (e : E) → Finds s (λ u. c ≡ false) (raise_if {S = S} c e)
  unfolding raise_if
  Finds-raise_if true e = record { at = refl }
  Finds-raise_if false e = record { at = (refl, refl) }

  pub Finds-raise_unless : (c : Bool) (e : E) → Finds s (λ u. c ≡ true) (raise_unless {S = S} c e)
  unfolding raise_unless
  Finds-raise_unless true e = record { at = (refl, refl) }
  Finds-raise_unless false e = record { at = refl }

forget :
    {E S A : Type 0} (s : S) (P : A → Type 0) (r : Outcome E A × S)
    → Found s P r
    → Found s (λ a. Unit {0}) r
forget s P (ok a, t) h = (h.0, tt)
forget s P (err e, t) h = h

module _ {E S A : Type 0} {s : S} where
  pub Finds-pure : {P : A → Type 0} (a : A) → P a → Finds s P (pure {E = E} a)
  unfolding pure
  Finds-pure a h = record { at = (refl, h) }

  pub Finds-raise : {P : A → Type 0} (e : E) → Finds s P (raise {S = S} e)
  unfolding raise
  Finds-raise e = record { at = refl }

  pub Finds-gets : (f : S → A) → Finds s (λ a. f s ≡ a) (gets {E = E} f)
  unfolding gets
  Finds-gets f = record { at = (refl, refl) }

  pub Finds-or_raise : (x : Option A) (e : E) → Finds s (λ a. x ≡ some a) (or_raise {S = S} x e)
  unfolding or_raise
  Finds-or_raise none e = record { at = refl }
  Finds-or_raise (some a) e = record { at = (refl, refl) }

  pub Finds-any : {P : A → Type 0} (m : Act E S A) → Finds s P m → Finds s (λ a. Unit {0}) m
  Finds-any {P} m h = record { at = forget s P (m s) h.at }

  pub Finds-if :
      {P : A → Type 0} (b : Bool) (m n : Act E S A)
      → (b ≡ true → Finds s P m)
      → (b ≡ false → Finds s P n)
      → Finds s P (if b then m else n)
  Finds-if true m n h k = h refl
  Finds-if false m n h k = k refl

itself :
    {E S A : Type 0} (s : S) (P : A → Type 0) (r : Outcome E A × S)
    → Found s P r
    → Found s (λ a. r ≡ (ok a, s)) r
itself s P (ok a, t) h = (h.0, ap (λ u. (ok a, u)) h.0)
itself s P (err e, t) h = h

-- what `m` returns in the state `s` is what it returns there
pub Finds-self :
    {E S A : Type 0} {s : S} {P : A → Type 0} (m : Act E S A)
    → Finds s P m
    → Finds s (λ a. m s ≡ (ok a, s)) m
Finds-self {s} {P} m h = record { at = itself s P (m s) h.at }

module _ {E S A B : Type 0} {s : S} {P : A → Type 0} where
  found :
      {Q : B → Type 0} (f : A → Act E S B) (r : Outcome E A × S)
      → Found s P r
      → ((a : A) → P a → Finds s Q (f a))
      → Found s Q (continue r.0 f r.1)
  found f (ok a, t) h k = rw h.0 (k a h.1).at
  found f (err e, t) h k = h

  pub Finds-bind :
      {Q : B → Type 0} (m : Act E S A) (f : A → Act E S B)
      → Finds s P m
      → ((a : A) → P a → Finds s Q (f a))
      → Finds s Q (m >>= f)
  unfolding ◌>>=◌
  Finds-bind m f h k = record { at = found f (m s) h.at k }

  leads :
      (R : S → S → Type 0) ⦃o : IsPreorder R⦄ (f : A → Act E S B) (r : Outcome E A × S)
      → Found s P r
      → ((a : A) → P a → R s (f a s).1)
      → R s (continue r.0 f r.1).1
  leads R f (ok a, t) h k = rw h.0 (k a h.1)
  leads R ⦃o⦄ f (err e, t) h k = rw h (o.reflexive s)

  -- what follows may use what was found
  pub after :
      (R : S → S → Type 0) ⦃o : IsPreorder R⦄ (m : Act E S A) (f : A → Act E S B)
      → Finds s P m
      → ((a : A) → P a → R s (f a s).1)
      → R s ((m >>= f) s).1
  unfolding ◌>>=◌
  after R m f h k = leads R f (m s) h.at k

  continued :
      (Q : Outcome E B × S → Type 0) (f : A → Act E S B) (b : B) (r : Outcome E A × S)
      → Found s P r
      → ((a : A) → P a → (f a s).0 ≡ ok b → Q (f a s))
      → (continue r.0 f r.1).0 ≡ ok b
      → Q (continue r.0 f r.1)
  continued Q f b (ok a, t) h k e =
      subst (λ u. Q (f a u)) (sym h.0) (k a h.1 (ap (λ u. (f a u).0) (sym h.0) ∙ e))
  continued Q f b (err x, t) h k e = absurd (ground arith)

  -- where all of it returns, so does what follows, with what was found
  pub returning :
      (Q : Outcome E B × S → Type 0) (m : Act E S A) (f : A → Act E S B) (b : B)
      → Finds s P m
      → ((a : A) → P a → (f a s).0 ≡ ok b → Q (f a s))
      → ((m >>= f) s).0 ≡ ok b
      → Q ((m >>= f) s)
  unfolding ◌>>=◌
  returning Q m f b h k e = continued Q f b (m s) h.at k e

-- an action that changes nothing
abbrev pub Unchanged : {S : Type 0} → S → S → Type 0
Unchanged s t = t ≡ s

instance abbrev pub Unchanged-IsPreorder : {S : Type 0} → IsPreorder (Unchanged {S = S})
Unchanged-IsPreorder = record { reflexive = λ s. refl; transitive = λ s t u h k. k ∙ h }

still : {E S A : Type 0} (s : S) (r : Outcome E A × S) → r.1 ≡ s → Found s (λ a. r.0 ≡ ok a) r
still s (ok a, t) h = (h, refl)
still s (err e, t) h = h

-- what changes nothing finds what it returns
pub Finds-still :
    {E S A : Type 0} {s : S} (m : Act E S A) → Related Unchanged m → Finds s (λ a. (m s).0 ≡ ok a) m
Finds-still {s} m h = record { at = still s (m s) (h.at s) }
