-- ===== src/Coordinator/Sending.antt =====
-- Actions that dispatch nothing, and actions that dispatch one package at most, by a record of the
-- packages dispatched.
use self_hosted_ci.Prelude.{
  ◌∙◌, ◌≡◌, refl, ap, Bool, true, false, Option, none, some, List, ◌∷◌, ◌⊎◌, inl, inr,
  if◌then◌else◌,
}
use self_hosted_ci.Json.{Fields}
use self_hosted_ci.Coordinator.Adapters.{
  pure, Failure, Outcome, ok, err, Act, raise_unless, or_raise, ◌>>=◌,
}

module _ {S : Type 0} (sent : S → List Fields) where
  pub record Quiet {A : Type 0} (m : Act S A) : Type 0 where
    pub at : (s : S) → sent (m s).1 ≡ sent s

  -- between the states, nothing was dispatched, or one package that satisfies `P`
  abbrev pub Sends : (Fields → Type 0) → S → S → Type 0
  Sends P s t = (sent t ≡ sent s) ⊎ ((v : Fields) × (sent t ≡ v ∷ sent s) × P v)

  pub record Once {A : Type 0} (P : Fields → Type 0) (m : Act S A) : Type 0 where
    pub at : (s : S) → Sends P s (m s).1

pub Sends-from :
    {S : Type 0} (sent : S → List Fields) (P : Fields → Type 0) (s t u : S)
    → sent t ≡ sent s
    → Sends sent P t u
    → Sends sent P s u
Sends-from sent P s t u same (inl none_sent) = inl (none_sent ∙ same)
Sends-from sent P s t u same (inr (v, one, p)) = inr (v, one ∙ ap (λ l. v ∷ l) same, p)

module _ {S : Type 0} {sent : S → List Fields} where
  pub Quiet-raise_unless : (c : Bool) (e : Failure) → Quiet sent (raise_unless {S = S} c e)
  unfolding raise_unless
  Quiet-raise_unless true e = record { at = λ s. refl }
  Quiet-raise_unless false e = record { at = λ s. refl }

  pub Quiet-or_raise : {A : Type 0} (x : Option A) (e : Failure) → Quiet sent (or_raise {S = S} x e)
  unfolding or_raise
  Quiet-or_raise none e = record { at = λ s. refl }
  Quiet-or_raise (some a) e = record { at = λ s. refl }

  pub Quiet-pure : {A : Type 0} (a : A) → Quiet sent (pure {S = S} a)
  Quiet-pure a = record { at = λ s. refl }

  pub Quiet-if :
      {A : Type 0} (c : Bool) (m n : Act S A)
      → Quiet sent m
      → Quiet sent n
      → Quiet sent (if c then m else n)
  Quiet-if true m n h k = h
  Quiet-if false m n h k = k

-- what follows an outcome
abbrev pub continued : {S A B : Type 0} → (A → Act S B) → Outcome A × S → Outcome B × S
continued f r = elim r.0 [ ok a ↦ f a r.1 | err e ↦ (err e, r.1) ]

module _ {S A B : Type 0} (sent : S → List Fields) (f : A → Act S B) where
  goes_on :
      (s : S) (r : Outcome A × S)
      → sent r.1 ≡ sent s
      → ((a : A) → Quiet sent (f a))
      → sent (continued f r).1 ≡ sent s
  goes_on s (ok a, t) h k = (k a).at t ∙ h
  goes_on s (err x, t) h k = h

  later :
      (P : Fields → Type 0) (s : S) (r : Outcome A × S)
      → sent r.1 ≡ sent s
      → ((a : A) → Once sent P (f a))
      → Sends sent P s (continued f r).1
  later P s (ok a, t) h k = Sends-from sent P s t (f a t).1 h ((k a).at t)
  later P s (err x, t) h k = inl h

  before :
      (P : Fields → Type 0) (s : S) (r : Outcome A × S)
      → Sends sent P s r.1
      → ((a : A) → Quiet sent (f a))
      → Sends sent P s (continued f r).1
  before P s (ok a, t) h k = elim h [
    | inl none_sent ↦ inl ((k a).at t ∙ none_sent)
    | inr (v, one, p) ↦ inr (v, (k a).at t ∙ one, p)
  ]
  before P s (err x, t) h k = h

module _ {S A B : Type 0} {sent : S → List Fields} (m : Act S A) (f : A → Act S B) where
  pub Quiet-bind : Quiet sent m → ((a : A) → Quiet sent (f a)) → Quiet sent (m >>= f)
  unfolding ◌>>=◌
  Quiet-bind h k = record { at = λ s. goes_on sent f s (m s) (h.at s) k }

  -- what follows may dispatch
  pub Once-after :
      {P : Fields → Type 0} → Quiet sent m → ((a : A) → Once sent P (f a)) → Once sent P (m >>= f)
  unfolding ◌>>=◌
  Once-after {P} h k = record { at = λ s. later sent f P s (m s) (h.at s) k }

  -- what came before may have dispatched
  pub Once-before :
      {P : Fields → Type 0} → Once sent P m → ((a : A) → Quiet sent (f a)) → Once sent P (m >>= f)
  unfolding ◌>>=◌
  Once-before {P} h k = record { at = λ s. before sent f P s (m s) (h.at s) k }

pub Sends-weaken :
    {S : Type 0} (sent : S → List Fields) (P Q : Fields → Type 0) (s t : S)
    → ((v : Fields) → P v → Q v)
    → Sends sent P s t
    → Sends sent Q s t
Sends-weaken sent P Q s t f (inl h) = inl h
Sends-weaken sent P Q s t f (inr (v, one, p)) = inr (v, one, f v p)

-- what follows a guard may use it
pub Sends-guard :
    {S B : Type 0} (sent : S → List Fields) (P : Fields → Type 0) (c : Bool) (e : Failure)
    (k : Unit {0} → Act S B) (s : S)
    → (c ≡ true → Sends sent P s (k tt s).1)
    → Sends sent P s ((raise_unless c e >>= k) s).1
unfolding ◌>>=◌
Sends-guard sent P true e k s h = h refl
Sends-guard sent P false e k s h = inl refl

module _ {S B : Type 0} {sent : S → List Fields} {P : Fields → Type 0} where
  pub Once-Quiet : {m : Act S B} → Quiet sent m → Once sent P m
  Once-Quiet h = record { at = λ s. inl (h.at s) }

  pub Once-weaken :
      {Q : Fields → Type 0} {m : Act S B}
      → ((v : Fields) → P v → Q v)
      → Once sent P m
      → Once sent Q m
  Once-weaken {Q} {m} f h = record { at = λ s. Sends-weaken sent P Q s (m s).1 f (h.at s) }

  pub Once-if :
      (c : Bool) (m n : Act S B) → Once sent P m → Once sent P n → Once sent P (if c then m else n)
  Once-if true m n h k = h
  Once-if false m n h k = k

  pub Once-guard :
      (c : Bool) (e : Failure) (k : Unit {0} → Act S B)
      → (c ≡ true → Once sent P (k tt))
      → Once sent P (raise_unless c e >>= k)
  Once-guard c e k h = record { at = λ s. Sends-guard sent P c e k s (λ is. (h is).at s) }

  pub Once-known :
      {A : Type 0} (x : Option A) (e : Failure) (k : A → Act S B)
      → ((a : A) → x ≡ some a → Once sent P (k a))
      → Once sent P (or_raise x e >>= k)
  unfolding ◌>>=◌
  Once-known none e k h = record { at = λ s. inl refl }
  Once-known (some a) e k h = record { at = λ s. (h a refl).at s }
