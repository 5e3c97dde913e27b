-- ===== src/Allocation/Uniqueness.antt =====
-- The unique columns of the table of allocations, and the ids that are listed for recovery.
use self_hosted_ci.Effects.{ok, gets}
use self_hosted_ci.Prelude.{
  ◌∙◌, subst, not, ◌≡◌, refl, String, Bool, false, ◌&&◌, ◌||◌, some, List, [], ◌∷◌, ◌==◌, exists,
  lookup, nat_eq, string_eq, arith, eq_iff,
}
use self_hosted_ci.Allocation.Rows.{is_cleaned, Ledger, AllocationRow, row_key}
use self_hosted_ci.Allocation.Admission.{
  recoverable_allocation_ids, recoverable, insert_sorted, collides,
}
use self_hosted_ci.Allocation.Steps.{lookup-valid, IsValid}

-- A row that is found collides with no row that collides with none.
free-lookup :
    (q : AllocationRow) (rows : List AllocationRow) (id : String) (t : AllocationRow)
    → exists (collides q) rows ≡ false
    → lookup row_key id rows ≡ some t
    → collides q t ≡ false
unfolding lookup
free-lookup q [] id t free e = absurd (ground arith)
free-lookup q (r ∷ rows) id t free e = ground (arith, free-lookup q rows id t)

-- In a valid table, two rows with one digest of a nonce are one.
pub one_nonce :
    (rows : List AllocationRow) (id id' : String) (r t : AllocationRow)
    → IsValid rows
    → lookup row_key id rows ≡ some r
    → lookup row_key id' rows ≡ some t
    → r.binding_digest ≡ t.binding_digest
    → id ≡ id'
unfolding lookup
one_nonce [] id id' r t v e e' h = absurd (ground arith)
one_nonce (q ∷ rows) id id' r t v e e' h = ground (
  arith,
  one_nonce rows id id' r t v.2,
  free-lookup q rows id r v.1,
  free-lookup q rows id' t v.1,
  eq_iff q.allocation_id id,
  eq_iff q.allocation_id id',
  eq_iff q.binding_digest r.binding_digest,
  eq_iff q.binding_digest t.binding_digest,
)

-- The ids that are listed are those of the rows whose cleanup is not complete.
exists-insert_sorted :
    (p : String → Bool) (k : String) (js : List String)
    → exists p (insert_sorted k js) ≡ (p k || exists p js)
unfolding insert_sorted
exists-insert_sorted p k [] = refl
exists-insert_sorted p k (j ∷ js) = ground (arith, exists-insert_sorted p k js)

pub exists-recoverable :
    (p : String → Bool) (rows : List AllocationRow)
    → exists p (recoverable rows) ≡ exists (λ r. not r.cleanup_complete && p r.allocation_id) rows
unfolding recoverable
exists-recoverable p [] = refl
exists-recoverable p (r ∷ rows) =
    ground
      (arith, exists-insert_sorted p r.allocation_id (recoverable rows), exists-recoverable p rows)

free-listed :
    (q : AllocationRow) (id : String) (rows : List AllocationRow)
    → q.allocation_id ≡ id
    → exists (collides q) rows ≡ false
    → exists (λ r. not r.cleanup_complete && r.allocation_id == id) rows ≡ false
free-listed q id [] same free = refl
free-listed q id (r ∷ rows) same free = ground (
  arith,
  eq_iff q.allocation_id r.allocation_id,
  eq_iff r.allocation_id id,
  free-listed q id rows same,
)

listed_iff :
    (id : String) (rows : List AllocationRow) (r : AllocationRow)
    → IsValid rows
    → lookup row_key id rows ≡ some r
    → exists (λ q. not q.cleanup_complete && q.allocation_id == id) rows ≡ not r.cleanup_complete
unfolding lookup
listed_iff id [] r v e = absurd (ground arith)
listed_iff id (q ∷ rows) r v e =
    ground (arith, eq_iff q.allocation_id id, free-listed q id rows, listed_iff id rows r v.2)

-- In a valid table, `recoverable_allocation_ids` lists an allocation of the table exactly where its row is
-- not cleaned.
pub recoverable_ids-Open :
    (id : String) (s : Ledger) (ids : List String) (r : AllocationRow)
    → IsValid s.allocations
    → lookup row_key id s.allocations ≡ some r
    → (recoverable_allocation_ids s).0 ≡ ok ids
    → exists (λ k. k == id) ids ≡ not (is_cleaned r.state)
unfolding recoverable_allocation_ids gets
recoverable_ids-Open id s ids r v e listed =
    let valid = lookup-valid id s.allocations r v e in
    let is : recoverable s.allocations ≡ ids = ground arith in
    subst (λ l. exists (λ k. k == id) l ≡ not (is_cleaned r.state)) is
      (exists-recoverable (λ k. k == id) s.allocations
        ∙ listed_iff id s.allocations r v e
        ∙ ground arith)
