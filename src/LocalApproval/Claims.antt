-- ===== src/LocalApproval/Claims.antt =====
-- `claim`, `resume`, `retry`, `supersession_reason`, `complete`, `fail`, `revoke`, `recover_claims` and `_set`.
use self_hosted_ci.Prelude.{
  ℕ, ◌+◌, ◌*◌, String, Bool, true, false, not, ◌&&◌, ◌||◌, Option, none, some, ltb, leb, ◌==◌,
  if◌then◌else◌, lookup, nat_eq, string_eq,
}
use self_hosted_ci.Json.{Fields, text, num, get, is_text}
use self_hosted_ci.Effects.{◌>>=◌, ◌>>◌, pure, raise_if, raise_unless, or_raise, gets, modify}
use self_hosted_ci.LocalApproval.Rows.{
  State, pending, completed, failed, revoked, expired, is_active, is_claimed, is_completed, stamp,
  ApprovalRow, row_key, Tx, approval_error, other, update_rows,
}
use self_hosted_ci.LocalApproval.Requests.{World, as_fields, package_of, request_matches}

abbrev pub settle_as : State → Option String → Option String → ApprovalRow → ApprovalRow
settle_as state reason result r = record r {
  state = state;
  reason = reason;
  result_json = result;
  claim_until = none;
  active_key = none;
}

-- `_set`
unfoldable pub set_state : String → State → Option String → Option String → Tx (Unit {0})
set_state request_id state reason result = do
  changed ←
      update_rows (λ r. r.request_id == request_id && is_active r.state)
        (settle_as state reason result)
  raise_unless (changed == 1) approval_error

unfoldable pub fail : String → String → Tx (Unit {0})
fail request_id reason = set_state request_id failed (some reason) none

unfoldable pub claim : World → String → Fields → ℕ → Tx (Unit {0})
claim w request_id request lease_seconds = do
  raise_if (ltb lease_seconds 1 || ltb 7200 lease_seconds) approval_error
  changed ←
      update_rows
        (λ r. r.request_id == request_id && is_claimed r.state && r.request_json == w.dumps request)
        (λ r. record r {
          durable = true;
          claim_until = some (stamp (w.now + lease_seconds * 1000000));
          reason = none;
        })
  raise_unless (changed == 1) approval_error
  modify λ s. record s { current_request = some request }

unfoldable pub resume : World → String → Fields → ℕ → Tx Fields
resume w request_id request lease_seconds = do
  row ← or_raise (← gets λ s. lookup row_key request_id s.approvals) approval_error
  raise_unless (row.request_json == w.dumps request && is_claimed row.state && row.durable)
      approval_error
  claim w request_id request lease_seconds
  pure request

unfoldable pub retry : World → String → String → Tx (Unit {0})
retry w request_id reason = do
  raise_if (reason == "") approval_error
  changed ←
      update_rows (λ r. r.request_id == request_id && is_claimed r.state && r.durable)
        (λ r. record r { reason = some reason; claim_until = some (stamp w.now) })
  raise_unless (changed == 1) approval_error

abbrev pub same_result : Option String → String → Bool
same_result none t = false
same_result (some s) t = s == t

abbrev pub completed_row : Option ApprovalRow → Option ApprovalRow
completed_row none = none
completed_row (some r) = if is_completed r.state then some r else none

unfoldable pub complete : World → String → Fields → Tx (Unit {0})
complete w request_id result = do
  row ← gets λ s. lookup row_key request_id s.approvals
  elim (completed_row row) [
    | some r ↦ raise_unless (same_result r.result_json (w.dumps result)) approval_error
    | none ↦ set_state request_id completed none (some (w.dumps result))
  ]

-- the number of revoked approvals
unfoldable pub revoke : String → ℕ → Tx ℕ
revoke repository pr_number =
    update_rows (λ r. is_active r.state && (r.repository == repository && r.pr_number == pr_number))
      (λ r. record r {
        state = revoked;
        reason = some "operator-revoked";
        claim_until = none;
        active_key = none;
      })

abbrev pub is_over : Option ℕ → ℕ → Bool
is_over none now = false
is_over (some t) now = leb t now

-- the number of claims that are pending again
unfoldable pub recover_claims : World → Tx ℕ
recover_claims w = do
  let now = stamp w.now
  update_rows (λ r. is_claimed r.state && not r.durable && leb r.expires_at now)
      (λ r. record r {
        state = expired;
        reason = some "ttl-expired";
        claim_until = none;
        active_key = none;
      })
  update_rows
      (λ r.
        is_claimed r.state && not r.durable && is_over r.claim_until now && ltb now r.expires_at)
      (λ r. record r { state = pending; claim_until = none })

abbrev text_at : String → Fields → Option String
text_at k fields = elim (get k fields) [ none ↦ none | some (text s) ↦ some s | some _ ↦ none ]

abbrev num_at : String → Fields → Option ℕ
num_at k fields = elim (get k fields) [ none ↦ none | some (num n) ↦ some n | some _ ↦ none ]

-- where the resolver has no classification of its own
unfoldable pub classify_drift : World → Fields → Tx (Option String)
classify_drift w request = do
  fields ← or_raise (as_fields (package_of request)) other
  repository ← or_raise (text_at "repository" fields) other
  pr_number ← or_raise (num_at "pr_number" fields) other
  current ← or_raise (w.resolve repository pr_number) other
  pure (
      if request_matches w request current
      then none
      else if not (is_text (get "head_sha" fields) current.head_sha)
      then some "a newer commit superseded this pull request head"
      else some "the default branch moved before this run was admitted")

unfoldable pub supersession_reason : World → String → Fields → Tx (Option String)
supersession_reason w request_id request = do
  row ← or_raise (← gets λ s. lookup row_key request_id s.approvals) approval_error
  raise_unless (row.request_json == w.dumps request) approval_error
  elim w.classify [ some f ↦ or_raise (f request) other | none ↦ classify_drift w request ]
