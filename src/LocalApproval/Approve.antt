-- ===== src/LocalApproval/Approve.antt =====
-- `LocalApprovalStore.approve`.
pub mod Moves
pub mod Found
use self_hosted_ci.Prelude.{
  ℕ, ◌+◌, String, Bool, true, false, not, ◌&&◌, ◌||◌, Option, none, some, ◌∷◌, ltb, leb, length,
  ◌==◌, if◌then◌else◌, exists, nat_eq, string_eq,
}
use self_hosted_ci.Texts.{codes, is_repository}
use self_hosted_ci.Json.{Fields}
use self_hosted_ci.Effects.{
  ok, err, ◌>>=◌, ◌>>◌, pure, raise, raise_if, raise_unless, or_raise, gets, modify, atomic,
}
use self_hosted_ci.GateStore.Monad.{Result}
use self_hosted_ci.GateStore.Heads.{observe_head}
use self_hosted_ci.LocalApproval.Rows.{
  State, pending, expired, is_active, is_pending, is_claimed, stamp, parse, ActiveKey, same_key,
  ApprovalRow, Tx, approval_error, gate_error, other, update_rows, newest,
}
use self_hosted_ci.LocalApproval.Requests.{Target, World, request_matches, validate_request}

-- what `approve` returns
pub record Approved : Type 0 where
  pub request_id : String
  pub state : State
  pub idempotent : Bool

abbrev pub as_before : ApprovalRow → Approved
as_before r = record { request_id = r.request_id; state = r.state; idempotent = true }

-- the call of the gate store
unfoldable pub observe : Target → ℕ → Tx ℕ
observe target pr_number s =
    let (r, gates) = observe_head target.repository_id pr_number target.head_sha s.gates in
    (elim r [ Result.ok g ↦ ok g | Result.err e ↦ err gate_error ], record s { gates = gates })

-- an active approval of this head
abbrev pub is_active_for : String → ℕ → String → ApprovalRow → Bool
is_active_for repository pr_number head_sha r =
    is_active r.state
    && (r.repository == repository && r.pr_number == pr_number && r.head_sha == head_sha)

abbrev pub expire_as : String → ApprovalRow → ApprovalRow
expire_as reason r = record r { state = expired; reason = some reason; active_key = none }

-- what the first transaction does with the active approval of this head
unfoldable pub reconcile_active : World → Target → ApprovalRow → Tx (Option Approved)
reconcile_active w target row = do
  request ← or_raise (w.loads row.request_json) approval_error
  let target_matches = request_matches w request target
  if row.durable
      then (do raise_unless target_matches approval_error; pure (some (as_before row)))
      else if leb (parse row.expires_at) w.now
      then (do
        changed ←
            update_rows (λ r. r.request_id == row.request_id && is_active r.state && not r.durable)
              (expire_as "ttl-expired")
        raise_unless (changed == 1) approval_error
        pure none)
      else if target_matches
      then pure (some (as_before row))
      else if is_claimed row.state
      then raise approval_error
      else (do
        changed ←
            update_rows (λ r. r.request_id == row.request_id && is_pending r.state && not r.durable)
              (expire_as "resolved-target-changed")
        raise_unless (changed == 1) approval_error
        pure none)

-- the first transaction
unfoldable pub find_active : World → Target → String → ℕ → Tx (Option Approved)
find_active w target repository pr_number = atomic (do
  found ← gets λ s. newest (is_active_for repository pr_number target.head_sha) s.approvals
  elim found [ none ↦ pure none | some row ↦ reconcile_active w target row ])

abbrev pub new_row : World → Target → String → ℕ → ℕ → Fields → ApprovalRow
new_row w target repository pr_number head_generation request = record {
  request_id = w.uuid;
  repository = repository;
  pr_number = pr_number;
  head_sha = target.head_sha;
  head_generation = head_generation;
  state = pending;
  request_json = w.dumps request;
  result_json = none;
  reason = none;
  created_at = stamp w.now;
  expires_at = stamp (w.now + w.ttl);
  claim_until = none;
  active_key =
      some (record { repository = repository; pr_number = pr_number; head_sha = target.head_sha });
  durable = false;
}

abbrev pub key_is : Option ActiveKey → Option ActiveKey → Bool
key_is (some a) (some b) = same_key a b
key_is _ _ = false

-- the new row repeats a value of the primary key or of the column `active_key`
abbrev pub collides : ApprovalRow → ApprovalRow → Bool
collides row r = r.request_id == row.request_id || key_is r.active_key row.active_key

-- after an `IntegrityError`
unfoldable pub find_concurrent : World → Target → String → ℕ → Tx Approved
find_concurrent w target repository pr_number = do
  found ← gets λ s. newest (is_active_for repository pr_number target.head_sha) s.approvals
  row ← or_raise found approval_error
  request ← or_raise (w.loads row.request_json) other
  raise_unless (request_matches w request target) approval_error
  pure (as_before row)

-- the second transaction
unfoldable pub insert_new : World → Target → String → ℕ → ApprovalRow → Tx Approved
insert_new w target repository pr_number row = do
  collision ← gets λ s. exists (collides row) s.approvals
  if collision then find_concurrent w target repository pr_number else (do
    modify λ s. record s { approvals = row ∷ s.approvals }
    pure (record { request_id = row.request_id; state = pending; idempotent = false }))

unfoldable pub create : World → Target → String → ℕ → ℕ → Tx Approved
create w target repository pr_number head_generation = do
  raise_unless (length (codes w.nonce) == 43) approval_error
  raw ← or_raise (w.build target head_generation w.uuid w.nonce) other
  request ← validate_request w raw target head_generation w.uuid w.nonce
  insert_new w target repository pr_number
      (new_row w target repository pr_number head_generation request)

unfoldable pub approve : World → String → ℕ → Tx Approved
approve w repository pr_number = do
  raise_unless (is_repository repository) approval_error
  raise_if (ltb pr_number 1) approval_error
  target ← or_raise (w.resolve repository pr_number) other
  head_generation ← observe target pr_number
  found ← find_active w target repository pr_number
  elim found [
    | some before ↦ pure before
    | none ↦ create w target repository pr_number head_generation
  ]
