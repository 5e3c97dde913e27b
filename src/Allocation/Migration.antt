-- ===== src/Allocation/Migration.antt =====
-- The opening of a ledger: each allocation that it fences lives on.
use self_hosted_ci.Prelude.{
  ap, ℕ, ◌≡◌, refl, sym, subst, String, true, false, none, List, [], ◌∷◌, ltb, ◌==◌, exists, lookup,
  nat_eq, string_eq, arith, Bool-cases, inl, inr,
}
use self_hosted_ci.Effects.{pure, modify}
use self_hosted_ci.Effects.Related.{Related, related_rules, Related-modify}
use self_hosted_ci.Effects.Found.{
  Finds, Finds-pure, Finds-gets, Finds-or_raise, Finds-if, Finds-bind, after,
}
use self_hosted_ci.Allocation.{Services}
use self_hosted_ci.Allocation.Rows.{OutcomeRow, AllocationRow, row_key, Ledger, is_claimed}
use self_hosted_ci.Allocation.Admission.{collides}
use self_hosted_ci.Allocation.Lifecycle.{cleanup_key, columns_of, fenced, with_columns}
use self_hosted_ci.Allocation.Opening.{fence_claimed, migrate, open_ledger}
use self_hosted_ci.Allocation.Lives.{life_of, ◌⟶*◌, here, step}
use self_hosted_ci.Allocation.Lives
use self_hosted_ci.Allocation.Steps.{
  is_valid_row, IsValid, Later-refl, Allowed, Moved, Moved-refl, Step, Step-refl, Moves,
  Moves-IsPreorder,
}

-- each row is what the other table's row at its place may become
abbrev Rewritten : List AllocationRow → List AllocationRow → Type 0
Rewritten [] [] = Unit
Rewritten (r ∷ rows) (t ∷ others) = (is_valid_row r ≡ true → Allowed r t) × Rewritten rows others
Rewritten _ _ = ⊥

free-Rewritten :
    (r t : AllocationRow) (rows others : List AllocationRow)
    → Allowed r t
    → IsValid rows
    → Rewritten rows others
    → exists (collides r) rows ≡ false
    → exists (collides t) others ≡ false
free-Rewritten r t [] [] a v h e = refl
free-Rewritten r t [] (u ∷ others) a v h e = absurd h
free-Rewritten r t (q ∷ rows) [] a v h e = absurd h
free-Rewritten r t (q ∷ rows) (u ∷ others) a v h e =
    ground
      (arith, a.later.identity, (h.0 v.0).later.identity, free-Rewritten r t rows others a v.2 h.1)

IsValid-Rewritten :
    (rows others : List AllocationRow) → Rewritten rows others → IsValid rows → IsValid others
IsValid-Rewritten [] [] h v = tt
IsValid-Rewritten [] (t ∷ others) h v = absurd h
IsValid-Rewritten (r ∷ rows) [] h v = absurd h
IsValid-Rewritten (r ∷ rows) (t ∷ others) h v =
    let allowed = h.0 v.0 in
    (
      allowed.valid,
      free-Rewritten r t rows others allowed v.2 h.1 v.1,
      IsValid-Rewritten rows others h.1 v.2,
    )

Moved-Rewritten :
    (rows others : List AllocationRow)
    → Rewritten rows others
    → IsValid rows
    → (id : String) → Moved (lookup row_key id rows) (lookup row_key id others)
unfolding lookup
Moved-Rewritten [] [] h v id = Moved-refl none
Moved-Rewritten [] (t ∷ others) h v id = absurd h
Moved-Rewritten (r ∷ rows) [] h v id = absurd h
Moved-Rewritten (r ∷ rows) (t ∷ others) h v id =
    let allowed = h.0 v.0 in
    let same : (row_key t == id) ≡ (row_key r == id) = ap (λ k. k == id) allowed.later.identity.0 in
    elim (Bool-cases (row_key r == id)) [
      | inl e ↦ rw (same, e) (record { kept = allowed.later; lives = allowed.lives })
      | inr e ↦ rw (same, e) (Moved-Rewritten rows others h.1 v.2 id)
    ]

claimed-Allowed :
    (key : String) (r : AllocationRow)
    → is_claimed r.state ≡ true
    → is_valid_row r ≡ true
    → Allowed r (with_columns (fenced key (columns_of r)) r)
claimed-Allowed key r is v = record {
  valid = ground arith;
  later = ground arith;
  lives =
      subst (λ l. l ⟶* Lives.fenced r.jobs_started) (ground arith)
        (step (Lives.fence_claimed (ground arith)) here);
}

unchanged : (r : AllocationRow) → is_valid_row r ≡ true → Allowed r r
unchanged r v = record { valid = v; later = Later-refl r; lives = here }

fence_claimed-Finds :
    {s : Ledger} (sv : Services) (rows : List AllocationRow)
    → Finds s (Rewritten rows) (fence_claimed sv rows)
unfolding fence_claimed cleanup_key
fence_claimed-Finds sv [] = Finds-pure _ tt
fence_claimed-Finds sv (r ∷ rows) = Finds-bind _ _ (fence_claimed-Finds sv rows) λ others h.
    Finds-if (is_claimed r.state) _ _
      (λ is.
        Finds-bind _ _
          (Finds-bind _ _ (Finds-or_raise _ _) λ body _. Finds-pure {P = λ k. Unit {0}} _ tt)
          λ key _. Finds-pure _ (claimed-Allowed key r is, h))
      (λ _. Finds-pure _ (unchanged r, h))

replaced :
    (s : Ledger) (others : List AllocationRow)
    → Rewritten s.allocations others
    → Step s.allocations others
replaced s others h = record {
  valid = IsValid-Rewritten s.allocations others h;
  moved = Moved-Rewritten s.allocations others h;
}

migrate-Moves : (sv : Services) → Related Moves (migrate sv)
unfolding migrate modify pure
migrate-Moves sv = record {
  at = λ s. after Moves _ _ (Finds-gets _) λ version _. elim (Bool-cases (ltb version 3)) [
    | inl old ↦ rw old (
        after Moves _ _ (Finds-gets _) λ rows is.
          after Moves _ _ (fence_claimed-Finds sv rows)
            λ others h. replaced s others (subst (λ a. Rewritten a others) (sym is) h))
    | inr new ↦ rw new (Step-refl s.allocations)
  ];
}

pub open_ledger-Moves :
    (sv : Services) (retention_days now : ℕ) → Related Moves (open_ledger sv retention_days now)
unfolding open_ledger
open_ledger-Moves sv retention_days now =
    search (related_rules, migrate-Moves, Related-modify, kept) depth 12
  where
    kept : (f : Ledger → List OutcomeRow) (s : Ledger) → Moves s (record s { outcomes = f s })
    kept f s = Step-refl s.allocations
