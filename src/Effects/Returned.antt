-- ===== src/Effects/Returned.antt =====
-- What an action has done that has returned: one lemma for each way to build it.
use self_hosted_ci.Prelude.{◌≡◌, refl, Bool, true, arith}
use self_hosted_ci.Effects.{
  Outcome, ok, err, Act, pure, raise_unless, translate, translated, continue, ◌>>=◌,
}

-- A bind that returns has two parts that return.
module _ {E S A B : Type 0} where
  abbrev pub Returns : Act E S A → (A → Act E S B) → S → B → S → Type 0
  Returns m f s b t = (a : A) × (u : S) × (m s ≡ (ok a, u)) × (f a u ≡ (ok b, t))

  continues :
      (m : Act E S A) (f : A → Act E S B) (s : S) (b : B) (t : S) (r : Outcome E A × S)
      → m s ≡ r
      → continue r.0 f r.1 ≡ (ok b, t)
      → Returns m f s b t
  continues m f s b t (ok a, u) e h = (a, u, e, h)
  continues m f s b t (err x, u) e h = absurd (ground arith)

  pub returns :
      (m : Act E S A) (f : A → Act E S B) (s : S) (b : B) (t : S)
      → (m >>= f) s ≡ (ok b, t)
      → Returns m f s b t
  unfolding ◌>>=◌
  returns m f s b t h = continues m f s b t (m s) refl h

pub guarded :
    {E S : Type 0} (c : Bool) (e : E) (s t : S)
    → raise_unless c e s ≡ (ok tt, t)
    → (c ≡ true) × (t ≡ s)
unfolding raise_unless
guarded c e s t h = ground arith

pub ended : {E S A : Type 0} (a b : A) (s t : S) → pure {E = E} a s ≡ (ok b, t) → (b ≡ a) × (t ≡ s)
unfolding pure
ended a b s t h = ground arith

untranslated :
    {E S A : Type 0} (f : E → E) (r : Outcome E A × S) (t : S) (a : A)
    → ◌≡◌ {A = Outcome E A × S} (translated f r.0, r.1) (ok a, t)
    → r ≡ (ok a, t)
untranslated f (ok b, s) t a h = ground arith
untranslated f (err e, s) t a h = absurd (ground arith)

pub translated_ok :
    {E S A : Type 0} (f : E → E) (m : Act E S A) (s t : S) (a : A)
    → translate f m s ≡ (ok a, t)
    → m s ≡ (ok a, t)
unfolding translate
translated_ok f m s t a h = untranslated f (m s) t a h
