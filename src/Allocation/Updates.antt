-- ===== src/Allocation/Updates.antt =====
-- An UPDATE under a key and an INSERT, as steps of the table of allocations.
use self_hosted_ci.Prelude.{
  ◌≡◌, refl, subst, String, true, false, none, some, List, [], ◌∷◌, ◌==◌, exists, lookup, update,
  lookup-update, nat_eq, string_eq, arith, eq_iff, Bool-cases, inl, inr,
}
use self_hosted_ci.Allocation.Rows.{AllocationRow, row_key}
use self_hosted_ci.Allocation.Admission.{collides}
use self_hosted_ci.Allocation.Lives.{absent, life_of, ◌⟶*◌}
use self_hosted_ci.Allocation.Steps.{
  is_valid_row, IsValid, Moved, Moved-refl, Step, Step-guarded, Allowed, lookup-valid,
}

-- An update that keeps the identity of its rows makes no collision.
module _ (id : String) (f : AllocationRow → AllocationRow)
    (keeps : (q : AllocationRow)
      → (f q).allocation_id ≡ q.allocation_id × ((f q).binding_digest ≡ q.binding_digest)) where
  exists-update :
      (r : AllocationRow) (rows : List AllocationRow)
      → exists (collides r) rows ≡ false
      → exists (collides r) (update row_key id f rows) ≡ false
  unfolding update
  exists-update r [] h = refl
  exists-update r (q ∷ rows) h = ground (arith, keeps q, exists-update r rows)

  update-absent :
      (r : AllocationRow) (rows : List AllocationRow)
      → r.allocation_id ≡ id
      → exists (collides r) rows ≡ false
      → update row_key id f rows ≡ rows
  unfolding update
  update-absent r [] e h = refl
  update-absent r (q ∷ rows) e h = ground (
    arith,
    eq_iff q.allocation_id id,
    eq_iff r.allocation_id q.allocation_id,
    update-absent r rows e,
  )

  exists-kept :
      (r : AllocationRow) (rows : List AllocationRow)
      → exists (collides r) rows ≡ false
      → exists (collides (f r)) rows ≡ false
  exists-kept r [] h = refl
  exists-kept r (q ∷ rows) h = ground (arith, keeps r, exists-kept r rows)

  update-IsValid :
      (rows : List AllocationRow) (r : AllocationRow)
      → IsValid rows
      → lookup row_key id rows ≡ some r
      → is_valid_row (f r) ≡ true
      → IsValid (update row_key id f rows)
  unfolding update lookup
  update-IsValid [] r v e a = tt
  update-IsValid (q ∷ rows) r v e a = elim (Bool-cases (row_key q == id)) [
    | inl h ↦
        let same = update-absent q rows ((eq_iff q.allocation_id id).0 h) v.1 in
        rw (h, same) (ground arith, exists-kept q rows v.1, v.2)
    | inr h ↦ rw h (v.0, exists-update q rows v.1, update-IsValid rows r v.2 (ground arith) a)
  ]

  pub Step-update :
      (rows : List AllocationRow) (r : AllocationRow)
      → lookup row_key id rows ≡ some r
      → (is_valid_row r ≡ true → Allowed r (f r))
      → Step rows (update row_key id f rows)
  Step-update rows r e h = Step-guarded rows _ λ v.
      let allowed = h (lookup-valid id rows r v e) in
      record {
        valid = λ _. update-IsValid rows r v e allowed.valid;
        moved = λ _ j.
            rw (lookup-update row_key id j f rows (λ q. (keeps q).0)) (elim (Bool-cases (id == j)) [
              | inl same ↦
                  let there : lookup row_key j rows ≡ some r =
                    subst (λ k. lookup row_key k rows ≡ some r) ((eq_iff id j).0 same) e in
                  rw (same, e, there) (record { kept = allowed.later; lives = allowed.lives })
              | inr other ↦ rw other (Moved-refl (lookup row_key j rows))
            ]);
      }

-- A row that collides with none is new.
collides-lookup :
    (row : AllocationRow) (rows : List AllocationRow)
    → exists (collides row) rows ≡ false
    → lookup row_key row.allocation_id rows ≡ none
unfolding lookup
collides-lookup row [] free = refl
collides-lookup row (r ∷ rows) free = ground (
  arith,
  eq_iff r.allocation_id row.allocation_id,
  eq_iff row.allocation_id r.allocation_id,
  collides-lookup row rows,
)

Moved-insert :
    (row : AllocationRow) (rows : List AllocationRow) (id : String)
    → absent ⟶* life_of row
    → lookup row_key row.allocation_id rows ≡ none
    → Moved (lookup row_key id rows) (lookup row_key id (row ∷ rows))
unfolding lookup
Moved-insert row rows id new fresh = elim (Bool-cases (row_key row == id)) [
  | inl e ↦
      let none_there : lookup row_key id rows ≡ none =
        subst (λ k. lookup row_key k rows ≡ none) ((eq_iff row.allocation_id id).0 e) fresh in
      rw (none_there, e) (record { kept = tt; lives = new })
  | inr e ↦ rw e (Moved-refl (lookup row_key id rows))
]

-- A new row that collides with none keeps the others.
pub Step-insert :
    (row : AllocationRow) (rows : List AllocationRow)
    → is_valid_row row ≡ true
    → absent ⟶* life_of row
    → exists (collides row) rows ≡ false
    → Step rows (row ∷ rows)
Step-insert row rows v new free = record {
  valid = λ h. (v, free, h);
  moved = λ h id. Moved-insert row rows id new (collides-lookup row rows free);
}
