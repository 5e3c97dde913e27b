-- ===== src/LocalApproval/Polling/Selection.antt =====
-- The row that a poll selects, and its update.
use self_hosted_ci.LocalApproval.Approve.{collides}
use self_hosted_ci.LocalApproval.Steps.{
  Step-update, Step-guarded, Step, Permits, collides-lookup, IsValid,
}
use self_hosted_ci.LocalApproval.Rows.{
  ApprovalRow, oldest, is_pending, stamp, parse, row_key, update_where,
}
use Prim.Native.Nat.{min}
use self_hosted_ci.Prelude.{
  leb, sym, subst, ℕ, ◌≡◌, refl, String, Bool, true, false, ◌&&◌, some, List, [], ◌∷◌, ◌==◌, exists,
  lookup, nat_eq, string_eq, arith, eq_iff, inl, inr, Bool-cases, Option-cases,
}

-- The selected row is pending, and the row of its request.
pub oldest-lookup :
    (test : ApprovalRow → Bool) (rows : List ApprovalRow) (q : ApprovalRow)
    → IsValid rows
    → oldest test rows ≡ some q
    → (test q ≡ true) × (lookup row_key q.request_id rows ≡ some q)
unfolding oldest lookup
oldest-lookup test [] q v e = absurd (ground arith)
oldest-lookup test (r ∷ rows) q v e = elim (Option-cases (oldest test rows)) [
  | inl none_left ↦ ground (arith, eq_iff r.request_id q.request_id)
  | inr (p, found) ↦ ground (
    arith,
    oldest-lookup test rows p v.2 found,
    oldest-lookup test rows q v.2,
    eq_iff r.request_id q.request_id,
    eq_iff r.request_id p.request_id,
    collides-lookup r rows v.1,
  )
]

-- Where no row collides with `r`, none is of its request.
collides-update :
    (r : ApprovalRow) (test : ApprovalRow → Bool) (f : ApprovalRow → ApprovalRow) (id : String)
    (rows : List ApprovalRow)
    → r.request_id ≡ id
    → exists (collides r) rows ≡ false
    → (update_where (λ q. q.request_id == id) f rows ≡ rows)
      × (update_where (λ q. q.request_id == id && test q) f rows ≡ rows)
unfolding update_where
collides-update r test f id [] same free = (refl, refl)
collides-update r test f id (q ∷ rows) same free =
    ground (arith, collides-update r test f id rows same)

-- Where a request has one row, and it passes the test, the test changes nothing.
pub update_only :
    (test : ApprovalRow → Bool) (f : ApprovalRow → ApprovalRow) (rows : List ApprovalRow)
    (id : String) (q : ApprovalRow)
    → IsValid rows
    → lookup row_key id rows ≡ some q
    → test q ≡ true
    → update_where (λ r. r.request_id == id) f rows
      ≡ update_where (λ r. r.request_id == id && test r) f rows
unfolding update_where lookup
update_only test f [] id q v e t = refl
update_only test f (r ∷ rows) id q v e t = elim (Bool-cases (r.request_id == id)) [
  | inl here ↦
      ground (arith, collides-update r test f id rows ((eq_iff r.request_id id).0 here) v.1)
  | inr other ↦ ground (arith, update_only test f rows id q v.2)
]

-- An update of the selected row, by its request alone, is a step.
pub Step-selected :
    (f : ApprovalRow → ApprovalRow) (q : ApprovalRow) (rows : List ApprovalRow)
    → Permits
        (λ r. r.request_id == q.request_id && (is_pending r.state && r.expires_at == q.expires_at))
        f
    → oldest (λ r. is_pending r.state) rows ≡ some q
    → Step rows (update_where (λ r. r.request_id == q.request_id) f rows)
Step-selected f q rows h e = Step-guarded rows _ λ v.
    let (is_in_turn, there) = oldest-lookup (λ r. is_pending r.state) rows q v e in
    let test = λ (r : ApprovalRow). is_pending r.state && r.expires_at == q.expires_at in
    subst (Step rows) (sym (update_only test f rows q.request_id q v there (ground arith)))
      (Step-update (λ r. r.request_id == q.request_id && test r) f h rows)

-- A time that a stamp bounds has a stamp no later.
pub stamp_within : (t e : ℕ) → leb (stamp (min t (parse e))) e ≡ true
stamp_within t e = ground arith
