-- ===== src/LocalApproval/Uniqueness.antt =====
-- A head has one active approval at most.
use self_hosted_ci.Prelude.{
  ◌≡◌, String, Bool, true, false, inl, inr, Option, none, some, List, [], ◌∷◌, exists, lookup,
  nat_eq, string_eq, arith, eq_iff, Option-cases,
}
use self_hosted_ci.GateStore.Rows.{Db}
use self_hosted_ci.LocalApproval.Rows.{ActiveKey, ApprovalRow, row_key}
use self_hosted_ci.LocalApproval.Requests.{World}
use self_hosted_ci.LocalApproval.Approve.{is_active_for, collides, key_is}
use self_hosted_ci.LocalApproval.Calls.{Call, run, empty}
use self_hosted_ci.LocalApproval.Steps.{IsValid, is_valid_row, Moves-IsPreorder}
use self_hosted_ci.LocalApproval.Histories.{run-Step}

pub found :
    (test : ApprovalRow → Bool) (rows : List ApprovalRow) (id : String) (t : ApprovalRow)
    → IsValid rows
    → lookup row_key id rows ≡ some t
    → (is_valid_row t ≡ true) × (exists test rows ≡ false → test t ≡ false)
unfolding lookup
found test [] id t v e = absurd (ground arith)
found test (r ∷ rows) id t v e = ground (arith, found test rows id t v.2)

keys_collide :
    (o p : Option ActiveKey) (k : ActiveKey)
    → key_is o (some k) ≡ true
    → key_is p (some k) ≡ true
    → key_is o p ≡ true
keys_collide none p k h h' = absurd (ground arith)
keys_collide (some a) none k h h' = absurd (ground arith)
keys_collide (some a) (some b) k h h' = ground (
  arith,
  eq_iff a.repository k.repository,
  eq_iff b.repository k.repository,
  eq_iff a.repository b.repository,
  eq_iff a.head_sha k.head_sha,
  eq_iff b.head_sha k.head_sha,
  eq_iff a.head_sha b.head_sha,
)

-- an active row holds the key of its head
holds :
    (k : ActiveKey) (t : ApprovalRow)
    → is_valid_row t ≡ true
    → is_active_for k.repository k.pr_number k.head_sha t ≡ true
    → key_is t.active_key (some k) ≡ true
holds k t v h = elim (Option-cases t.active_key) [
  | inl e ↦ absurd (ground arith)
  | inr (a, e) ↦ rw e (
      ground (
        arith,
        eq_iff t.repository k.repository,
        eq_iff a.repository t.repository,
        eq_iff a.repository k.repository,
        eq_iff t.head_sha k.head_sha,
        eq_iff a.head_sha t.head_sha,
        eq_iff a.head_sha k.head_sha,
      ))
]

same_head_collides :
    (k : ActiveKey) (r t : ApprovalRow)
    → is_valid_row r ≡ true
    → is_valid_row t ≡ true
    → is_active_for k.repository k.pr_number k.head_sha r ≡ true
    → is_active_for k.repository k.pr_number k.head_sha t ≡ true
    → collides r t ≡ true
same_head_collides k r t v u h h' =
    ground (arith, keys_collide t.active_key r.active_key k (holds k t u h') (holds k r v h))

-- A row and an active row of the rows that it collides with none of are not of one head.
clash :
    (k : ActiveKey) (q : ApprovalRow) (rows : List ApprovalRow) (id : String) (t : ApprovalRow)
    → IsValid (q ∷ rows)
    → lookup row_key id rows ≡ some t
    → is_active_for k.repository k.pr_number k.head_sha q ≡ true
    → is_active_for k.repository k.pr_number k.head_sha t ≡ true
    → ⊥
clash k q rows id t v e h h' =
    let (u, free) = found (collides q) rows id t v.2 e in
    ground (arith, free v.1, same_head_collides k q t v.0 u h h')

-- Of two active rows of one head, each has the request of the other.
one_active :
    (rows : List ApprovalRow) (id id' : String) (k : ActiveKey) (r t : ApprovalRow)
    → IsValid rows
    → lookup row_key id rows ≡ some r
    → lookup row_key id' rows ≡ some t
    → is_active_for k.repository k.pr_number k.head_sha r ≡ true
    → is_active_for k.repository k.pr_number k.head_sha t ≡ true
    → id ≡ id'
unfolding lookup
one_active [] id id' k r t v e e' h h' = absurd (ground arith)
one_active (q ∷ rows) id id' k r t v e e' h h' = ground (
  arith,
  one_active rows id id' k r t v.2,
  clash k q rows id r v,
  clash k q rows id' t v,
  eq_iff q.request_id id,
  eq_iff q.request_id id',
)

-- In every history of calls from a new store, a head of a pull request has one active approval at most.
pub run-one_active :
    (cs : List (World × Call)) (gates : Db) (id id' : String) (k : ActiveKey) (r t : ApprovalRow)
    → lookup row_key id (run cs (empty gates)).approvals ≡ some r
    → lookup row_key id' (run cs (empty gates)).approvals ≡ some t
    → is_active_for k.repository k.pr_number k.head_sha r ≡ true
    → is_active_for k.repository k.pr_number k.head_sha t ≡ true
    → id ≡ id'
run-one_active cs gates id id' k r t =
    one_active (run cs (empty gates)).approvals id id' k r t ((run-Step cs (empty gates)).valid tt)
