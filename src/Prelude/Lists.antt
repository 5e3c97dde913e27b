-- ===== src/Prelude/Lists.antt =====
-- Tables: lists of rows under a key, as the SQL statements of the stores read and write them.
use Prim.Native.Nat.{ℕ, suc}
use mathlib.Core.Path.{◌≡◌, refl}
use mathlib.Core.Bool.{Bool, true, false, ◌&&◌, ◌||◌}
use mathlib.Core.Option
use mathlib.Core.Option.{Option, none, some}
use mathlib.Core.List.{List, [], ◌∷◌}
use mathlib.Core.Logic.{◌↔◌, inl, inr}
use native.Mathlib.Omega.{arith}
use self_hosted_ci.Prelude.Tests.{Eq, ◌==◌, if◌then◌else◌, Bool-cases}

module _ {ℓ} {A : Type ℓ} where
  abbrev pub length : List A → ℕ
  length [] = 0
  length (x ∷ xs) = suc (length xs)

  -- Is there a row that passes the test?
  abbrev pub exists : (A → Bool) → List A → Bool
  exists p [] = false
  exists p (x ∷ xs) = p x || exists p xs

  abbrev pub All {κ} : (A → Type κ) → List A → Type κ
  All P [] = Unit
  All P (x ∷ xs) = P x × All P xs

pub pair_beq_iff :
    {A B : Type 0} (a : Eq A) (b : Eq B) (x y : A × B)
    → (a.beq x.0 y.0 && b.beq x.1 y.1 ≡ true) ↔ (x ≡ y)
pair_beq_iff a b x y = (
  λ h. ground (arith, a.beq_iff x.0 y.0, b.beq_iff x.1 y.1),
  λ h. ground (arith, a.beq_iff x.0 y.0, b.beq_iff x.1 y.1),
)

instance abbrev pub pair_eq : {A B : Type 0} ⦃a : Eq A⦄ ⦃b : Eq B⦄ → Eq (A × B)
pair_eq ⦃a⦄ ⦃b⦄ = record { beq = λ x y. a.beq x.0 y.0 && b.beq x.1 y.1; beq_iff = pair_beq_iff a b }

module _ {A K : Type 0} ⦃e : Eq K⦄ (key : A → K) where
  -- `SELECT * FROM rows WHERE key=?`, then `fetchone`
  unfoldable pub lookup : K → List A → Option A
  lookup k [] = none
  lookup k (r ∷ rows) = if key r == k then some r else lookup k rows

  -- `UPDATE rows SET … WHERE key=?`
  unfoldable pub update : K → (A → A) → List A → List A
  update k f [] = []
  update k f (r ∷ rows) = (if key r == k then f r else r) ∷ update k f rows

  pub lookup-update :
      (k j : K) (f : A → A) (rows : List A)
      → ((r : A) → key (f r) ≡ key r)
      → lookup j (update k f rows)
        ≡ (if k == j then Option.map f (lookup k rows) else lookup j rows)
  unfolding lookup update
  lookup-update k j f [] keeps = elim (Bool-cases (k == j)) [ inl h ↦ rw h | inr h ↦ rw h ]
  lookup-update k j f (r ∷ rows) keeps = ground (
    arith,
    keeps r,
    e.beq_iff (key r) k,
    e.beq_iff (key r) j,
    e.beq_iff k j,
    lookup-update k j f rows keeps,
  )

  pub lookup-key : (k : K) (rows : List A) (s : A) → lookup k rows ≡ some s → key s ≡ k
  unfolding lookup
  lookup-key k [] s h = cc
  lookup-key k (r ∷ rows) s h = ground (arith, e.beq_iff (key r) k, lookup-key k rows s)

  pub lookup-update_self :
      (k : K) (f : A → A) (rows : List A)
      → ((r : A) → key (f r) ≡ key r)
      → lookup k (update k f rows) ≡ Option.map f (lookup k rows)
  lookup-update_self k f rows keeps = rw (lookup-update k k f rows keeps, (e.beq_iff k k).1 refl)
