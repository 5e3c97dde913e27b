-- ===== src/Effects/Related.antt =====
-- What an action may do to the state, as a preorder between the states before and after it: one rule
-- for each way to build an action.
use self_hosted_ci.Prelude.{◌≡◌, refl, Bool, true, false, Option, none, some, if◌then◌else◌}
use self_hosted_ci.Effects.{
  translate, rescue, settle, attempt, Outcome, ok, err, Act, pure, raise, gets, or_raise, atomic,
  finish, raise_if, raise_unless, modify, continue, ◌>>=◌,
}

pub record IsPreorder {S : Type 0} (R : S → S → Type 0) : Type 0 where
  pub reflexive : (s : S) → R s s
  pub transitive : (s t u : S) → R s t → R t u → R s u

-- The state after `m`, whether it returns or raises, is related to the state before it.
pub record Related {E S A : Type 0} (R : S → S → Type 0) (m : Act E S A) : Type 0 where
  pub at : (s : S) → R s (m s).1

finished :
    {E S A : Type 0} (R : S → S → Type 0) ⦃o : IsPreorder R⦄ (s : S) (r : Outcome E A × S)
    → R s r.1
    → R s (finish s r).1
finished R s (ok a, t) h = h
finished R ⦃o⦄ s (err e, t) h = o.reflexive s

module _ {E S : Type 0} {R : S → S → Type 0} ⦃o : IsPreorder R⦄ where
  pub Related-raise_if : (c : Bool) (e : E) → Related R (raise_if {S = S} c e)
  unfolding raise_if
  Related-raise_if c e = record { at = o.reflexive }

  pub Related-raise_unless : (c : Bool) (e : E) → Related R (raise_unless {S = S} c e)
  unfolding raise_unless
  Related-raise_unless c e = record { at = o.reflexive }

  pub Related-modify : (f : S → S) → ((s : S) → R s (f s)) → Related R (modify {E = E} f)
  unfolding modify
  Related-modify f h = record { at = h }

module _ {E S A : Type 0} {R : S → S → Type 0} ⦃o : IsPreorder R⦄ where
  pub Related-pure : (a : A) → Related R (pure {E = E} {S = S} a)
  unfolding pure
  Related-pure a = record { at = o.reflexive }

  pub Related-raise : (e : E) → Related R (raise {S = S} {A = A} e)
  unfolding raise
  Related-raise e = record { at = o.reflexive }

  pub Related-gets : (f : S → A) → Related R (gets {E = E} f)
  unfolding gets
  Related-gets f = record { at = o.reflexive }

  pub Related-or_raise : (x : Option A) (e : E) → Related R (or_raise {S = S} x e)
  unfolding or_raise
  Related-or_raise none e = record { at = o.reflexive }
  Related-or_raise (some a) e = record { at = o.reflexive }

  pub Related-if :
      (b : Bool) (m n : Act E S A)
      → (b ≡ true → Related R m)
      → (b ≡ false → Related R n)
      → Related R (if b then m else n)
  Related-if true m n km kn = km refl
  Related-if false m n km kn = kn refl

  pub Related-atomic : (m : Act E S A) → Related R m → Related R (atomic m)
  unfolding atomic
  Related-atomic m h = record { at = λ s. finished R s (m s) (h.at s) }

  pub Related-translate : (f : E → E) (m : Act E S A) → Related R m → Related R (translate f m)
  unfolding translate
  Related-translate f m h = record { at = h.at }

  pub Related-attempt : (m : Act E S A) → Related R m → Related R (attempt m)
  unfolding attempt
  Related-attempt m h = record { at = h.at }

module _ {E S A B : Type 0} {R : S → S → Type 0} ⦃o : IsPreorder R⦄ where
  continues :
      (f : A → Act E S B) (s : S) (r : Outcome E A × S)
      → R s r.1
      → ((a : A) → Related R (f a))
      → R s (continue r.0 f r.1).1
  continues f s (ok a, t) h kf = o.transitive s t (f a t).1 h ((kf a).at t)
  continues f s (err e, t) h kf = h

  pub Related-bind :
      (m : Act E S A) (f : A → Act E S B)
      → Related R m
      → ((a : A) → Related R (f a))
      → Related R (m >>= f)
  unfolding ◌>>=◌
  Related-bind m f km kf = record { at = λ s. continues f s (m s) (km.at s) kf }

module _ {E S A : Type 0} {R : S → S → Type 0} ⦃o : IsPreorder R⦄ where
  settles :
      (test : E → Bool) (k : Act E S A) (r : Outcome E A)
      → Related R k
      → Related R (settle test k r)
  settles test k (ok a) h = Related-pure a
  settles test k (err e) h = Related-if (test e) k (raise e) (λ _. h) (λ _. Related-raise e)

  pub Related-rescue :
      (test : E → Bool) (m k : Act E S A) → Related R m → Related R k → Related R (rescue test m k)
  unfolding rescue
  Related-rescue test m k h j =
      Related-bind (attempt m) (settle test k) (Related-attempt m h) λ r. settles test k r j

pub ruleset related_rules = (
  Related-raise_if, Related-raise_unless, Related-pure, Related-raise, Related-gets,
  Related-or_raise, Related-if, Related-atomic, Related-bind, Related-attempt, Related-translate,
  Related-rescue,
)
