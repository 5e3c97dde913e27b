-- ===== src/GateStore/Permanence.antt =====
-- What a move on the gates can never undo.
use self_hosted_ci.GateStore.Lemmas.{select_gate-AtMost, max_generation-update, AtMost}
use self_hosted_ci.GateStore.Moves.{
  rewrites, opens, stay, Keeps-trans, Keeps-refl, Keeps, Move, next_generation,
}
use self_hosted_ci.GateStore.Rows.{gate_key, GateRow}
use self_hosted_ci.GateStore.Queries.{max_generation, select_gate}
use self_hosted_ci.Prelude.{
  refl, eq_iff, lookup-update_self, Option-cases, ◌∷◌, arith, lookup, pair_beq_iff, pair_eq,
  string_eq, nat_eq, ◌∙◌, ap, lookup-update, inr, inl, ◌==◌, Bool-cases, ◌⊎◌, update, sym, ◌<◌, ◌≤◌,
  subst, ◌≡◌, some, ℕ, List, String,
}
use mathlib.Core.Option.{none, Option}
use mathlib.Core.Option

-- What stands where a row stood.
abbrev pub Kept : Option GateRow → Option GateRow → Type 0
Kept none after = Unit
Kept (some r) none = ⊥
Kept (some r) (some s) = Keeps r s

pub Kept-refl : (o : Option GateRow) → Kept o o
Kept-refl none = tt
Kept-refl (some r) = Keeps-refl r

pub Kept-trans : (o p q : Option GateRow) → Kept o p → Kept p q → Kept o q
Kept-trans none p q h k = tt
Kept-trans (some r) none q h k = absurd h
Kept-trans (some r) (some s) none h k = absurd k
Kept-trans (some r) (some s) (some t) h k = Keeps-trans r s t h k

Kept-of_eq : (o p : Option GateRow) → p ≡ o → Kept o p
Kept-of_eq o p e = subst (Kept o) (sym e) (Kept-refl o)

-- A key above the greatest generation has no row.
no_next :
    (key : String) (rows : List GateRow)
    → select_gate key (next_generation (max_generation key rows)) rows ≡ none
no_next key rows =
    elim (Option-cases (select_gate key (next_generation (max_generation key rows)) rows)) [
      | inl e ↦ e
      | inr (r, e) ↦ absurd (beyond (max_generation key rows) (select_gate-AtMost key _ rows r e))
    ]
  where
    beyond : (m : Option ℕ) → AtMost (next_generation m) m → ⊥
    beyond none h = h
    beyond (some m) h = omega arith

-- The rows after a rewrite.
select_gate-update :
    (r : GateRow) (f : GateRow → GateRow) (before : List GateRow) (key : String) (g : ℕ)
    → select_gate r.logical_key r.generation before ≡ some r
    → ((s : GateRow) → gate_key (f s) ≡ gate_key s)
    → let after = update gate_key (gate_key r) f before in
      ((select_gate key g before ≡ some r)
        × (select_gate key g after ≡ some (f r))
        × (key ≡ r.logical_key)
        × (g ≡ r.generation))
      ⊎ (select_gate key g after ≡ select_gate key g before)
unfolding select_gate
select_gate-update r f before key g found keys = elim (Bool-cases (gate_key r == (key, g))) [
  | inl hit ↦
      let same = (pair_beq_iff string_eq nat_eq (gate_key r) (key, g)).0 hit in
      inl (
        subst (λ k. lookup gate_key k before ≡ some r) same found,
        subst (λ k. lookup gate_key k (update gate_key (gate_key r) f before) ≡ some (f r)) same
            (lookup-update_self gate_key (gate_key r) f before keys ∙ ap (Option.map f) found),
        sym (ap (λ k. k.0) same),
        sym (ap (λ k. k.1) same),
      )
  | inr miss ↦ inr (lookup-update gate_key (gate_key r) (key, g) f before keys ∙ rw miss)
]

opened-Kept :
    (row : GateRow) (before : List GateRow) (key : String) (g : ℕ)
    → row.generation ≡ next_generation (max_generation row.logical_key before)
    → Kept (select_gate key g before) (select_gate key g (row ∷ before))
unfolding select_gate lookup
opened-Kept row before key g newest = elim (Bool-cases (gate_key row == (key, g))) [
  | inl hit ↦ rw hit (
      subst (λ o. Kept o (some row))
        (sym (free ((pair_beq_iff string_eq nat_eq (gate_key row) (key, g)).0 hit))) tt)
  | inr miss ↦ rw miss (Kept-refl (lookup gate_key (key, g) before))
]
  where
    free : gate_key row ≡ (key, g) → lookup gate_key (key, g) before ≡ none
    free same =
        subst (λ k. lookup gate_key k before ≡ none) same
          (subst (λ n. lookup gate_key (row.logical_key, n) before ≡ none) (sym newest)
            (no_next row.logical_key before))

-- No move takes a row away or goes back on it.
pub Move-Kept :
    (before after : List GateRow)
    → Move before after
    → (key : String) (g : ℕ) → Kept (select_gate key g before) (select_gate key g after)
Move-Kept before after (stay e) key g = Kept-of_eq _ _ (ap (select_gate key g) e)
Move-Kept before after (opens row newest w k ep e) key g =
    rw e (opened-Kept row before key g newest)
Move-Kept before after (rewrites r f found newest keys keeps e) key g =
    elim (select_gate-update r f before key g found keys) [
      | inl (here, there, same_key, same_generation) ↦ rw (e, here, there) keeps
      | inr same ↦ Kept-of_eq _ _ (rw e same)
    ]

-- The newest generation of a key only grows.
abbrev pub Grows : Option ℕ → Option ℕ → Type 0
Grows none after = Unit
Grows (some m) none = ⊥
Grows (some m) (some n) = m ≤ n

pub Grows-refl : (o : Option ℕ) → Grows o o
Grows-refl none = tt
Grows-refl (some m) = omega arith

pub Grows-trans : (o p q : Option ℕ) → Grows o p → Grows p q → Grows o q
Grows-trans none p q h k = tt
Grows-trans (some m) none q h k = absurd h
Grows-trans (some m) (some n) none h k = absurd k
Grows-trans (some m) (some n) (some l) h k = omega arith

pub Grows-some : (m : ℕ) (o : Option ℕ) → Grows (some m) o → (n : ℕ) × (o ≡ some n) × (m ≤ n)
Grows-some m none h = absurd h
Grows-some m (some n) h = (n, refl, h)

opened-Grows :
    (row : GateRow) (before : List GateRow) (key : String)
    → row.generation ≡ next_generation (max_generation row.logical_key before)
    → Grows (max_generation key before) (max_generation key (row ∷ before))
unfolding max_generation
opened-Grows row before key newest = ground (arith, eq_iff row.logical_key key)

pub Move-Grows :
    (before after : List GateRow)
    → Move before after
    → (key : String) → Grows (max_generation key before) (max_generation key after)
Move-Grows before after (stay e) key = rw e (Grows-refl (max_generation key before))
Move-Grows before after (opens row newest w k ep e) key = rw e (opened-Grows row before key newest)
Move-Grows before after (rewrites r f found newest keys keeps e) key =
    rw (e, max_generation-update key (gate_key r) f before keys)
      (Grows-refl (max_generation key before))

opened_frozen :
    (row : GateRow) (before : List GateRow) (key : String) (g m : ℕ)
    → row.generation ≡ next_generation (max_generation row.logical_key before)
    → max_generation key before ≡ some m
    → g < m
    → select_gate key g (row ∷ before) ≡ select_gate key g before
unfolding select_gate lookup
opened_frozen row before key g m fresh newest h = ground (arith, eq_iff row.logical_key key)

-- A superseded generation is frozen.
pub Move-frozen :
    (before after : List GateRow)
    → Move before after
    → (key : String) (g m : ℕ) → max_generation key before ≡ some m
    → g < m
    → select_gate key g after ≡ select_gate key g before
Move-frozen before after (stay e) key g m newest h = ap (select_gate key g) e
Move-frozen before after (opens row fresh w k ep e) key g m newest h =
    rw e (opened_frozen row before key g m fresh newest h)
Move-frozen before after (rewrites r f found current keys keeps e) key g m newest h =
    elim (select_gate-update r f before key g found keys) [
      | inl (here, there, same_key, same_generation) ↦ absurd (cross same_key same_generation)
      | inr same ↦ rw e same
    ]
  where
    cross : key ≡ r.logical_key → g ≡ r.generation → ⊥
    cross a b = ground arith
