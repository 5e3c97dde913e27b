-- ===== src/LocalApproval/Tests.antt =====
-- The approval store with one approval: it is made, claimed by a poll and completed.
use self_hosted_ci.Prelude.{
  ℕ, ◌≡◌, refl, true, none, some, List, [], ◌∷◌, ltb, leb, is_some, lookup, if◌then◌else◌, nat_eq,
  string_eq,
}
use self_hosted_ci.Json.{obj, num, text, Fields, end, field, get}
use self_hosted_ci.Effects.{err, ◌>>=◌}
use self_hosted_ci.GateStore.Rows.{Db}
use self_hosted_ci.GateStore.Monad.{transaction}
use self_hosted_ci.GateStore.Heads.{observe_head, record_head}
use self_hosted_ci.LocalApproval.Rows.{
  newest, pending, claimed, ApprovalRow, row_key, Store, approval_error, out_of_fuel, update_where,
  matches, update_rows, oldest,
}
use self_hosted_ci.LocalApproval.Requests.{Target, World, request_matches, package_matches}
use self_hosted_ci.LocalApproval.Approve.{
  insert_new, new_row, approve, observe, find_active, reconcile_active,
}
use self_hosted_ci.Texts.{is_repository}
use self_hosted_ci.LocalApproval.Approve.Found.{Stands}
use self_hosted_ci.LocalApproval.Approvals.{approve-Stands}
use self_hosted_ci.LocalApproval.Claims.{complete, set_state, recover_claims}
use self_hosted_ci.LocalApproval.Polling.{poll, take_turn}
use self_hosted_ci.LocalApproval.Calls.{
  Call, completes, fails, inserts, takes_turn, revokes, run, empty,
}
use self_hosted_ci.LocalApproval.Steps.{Later}
use self_hosted_ci.LocalApproval.Histories.{run-Later}
use self_hosted_ci.LocalApproval.Uniqueness.{run-one_active}
use self_hosted_ci.LocalApproval.Results.{complete-once}
use self_hosted_ci.LocalApproval.Recovery.{recover_claims-bounded}
use self_hosted_ci.LocalApproval.Polling.Termination.{poll-ends}

abbrev target : Target
target = record {
  repository_id = "7";
  repository = "acme/app";
  pr_number = 4;
  head_sha = "head";
  default_branch = "main";
  workflow_ref = "main";
  base_sha = "base";
  tested_merge_sha = "merge";
}

abbrev request : Fields
request = field "pilot_package" (text "package") end

abbrev world : World
world = record {
  now = 100000000;
  resolve = λ repository n. some target;
  build = λ t g id nonce. none;
  uuid = "request-1";
  nonce = "nonce";
  ttl = 600000000;
  dumps = λ fields. if is_some (get "verdict" fields) then "verdict" else "request";
  loads = λ s. some request;
  str = λ v. "7";
  int = λ s. some 7;
  reservation_valid = λ v n. true;
  pilot_package = λ v n. none;
  protocol_package = λ v. none;
  classify = none;
}

abbrev gates : Db
gates = record { heads = []; gates = []; nonce_bindings = []; admissions = []; outbox = [] }

abbrev waiting : ApprovalRow
waiting = new_row world target "acme/app" 4 1 request

abbrev taken_row : ApprovalRow
taken_row = record waiting { state = claimed; claim_until = some 160 }

abbrev made : List (World × Call)
made = (world, inserts target "acme/app" 4 1 request) ∷ (world, takes_turn) ∷ []

abbrev one_waiting : Store
one_waiting = record (empty gates) { approvals = waiting ∷ [] }

abbrev one_taken : Store
one_taken = record (empty gates) { approvals = taken_row ∷ [] }

-- the poll takes the approval, for a minute
made_row : lookup row_key "request-1" (run made (empty gates)).approvals ≡ some taken_row
unfolding run insert_new take_turn ◌>>=◌ update_rows update_where matches oldest lookup
made_row = refl

run-one_active_example : taken_row.request_id ≡ "request-1"
unfolding run insert_new take_turn ◌>>=◌ update_rows update_where matches oldest lookup
run-one_active_example =
    run-one_active made gates "request-1" "request-1"
      (record { repository = "acme/app"; pr_number = 4; head_sha = "head" }) taken_row taken_row
      refl refl refl refl

-- a completed approval is not failed or revoked
history : List (World × Call)
history =
    (world, completes "request-1" end)
    ∷ (world, fails "request-1" "late")
    ∷ (world, revokes "acme/app" 4)
    ∷ []

run-Later_example :
    (t : ApprovalRow) × (lookup row_key "request-1" (run history one_taken).approvals ≡ some t)
    × Later taken_row t
unfolding lookup
run-Later_example = run-Later history one_taken "request-1" taken_row (refl, refl, tt) refl

-- a second completion with another result
complete-once_example :
    complete world "request-1"
      (field "verdict" (text "late") end)
      (run ((world, fails "request-1" "late") ∷ []) (complete world "request-1" end one_taken).1)
    ≡ (
      err approval_error,
      run ((world, fails "request-1" "late") ∷ []) (complete world "request-1" end one_taken).1,
    )
unfolding complete set_state ◌>>=◌ update_rows update_where matches lookup get
complete-once_example =
    complete-once world world ((world, fails "request-1" "late") ∷ []) "request-1" end
      (field "verdict" (text "late") end) one_taken (refl, refl, tt) refl

recover_claims-bounded_example :
    (t : ℕ) × (taken_row.claim_until ≡ some t)
    × (ltb 100 t ≡ true)
    × (leb t taken_row.expires_at ≡ true)
unfolding recover_claims run insert_new take_turn ◌>>=◌ update_rows update_where matches oldest
    lookup
recover_claims-bounded_example =
    recover_claims-bounded made gates world "request-1" taken_row refl refl

poll-ends_example :
    (¬ (poll 2 world one_waiting).0 ≡ err out_of_fuel)
    × (poll 2 world one_waiting ≡ poll 5 world one_waiting)
unfolding matches
poll-ends_example = poll-ends world 2 5 one_waiting refl refl

abbrev matching : Fields
matching =
    field "pilot_package"
      (obj (
        field "repository" (text "acme/app") (
          field "pr_number" (num 4) (
            field "head_sha" (text "head") (
              field "base_branch" (text "main")
                (field "base_sha" (text "base") (field "tested_merge_sha" (text "merge") end)))))))
      (field "reservation" (obj (field "workflow_ref" (text "main") end)) end)

abbrev approving : World
approving = record world { loads = λ s. some matching }

-- the head is approved already
approve-Stands_example :
    Stands "acme/app" 4 "head"
      (record { request_id = "request-1"; state = pending; idempotent = true })
      (approve approving "acme/app" 4 one_waiting).1
unfolding approve observe observe_head transaction record_head find_active reconcile_active
    request_matches package_matches newest is_repository get lookup ◌>>=◌
approve-Stands_example =
    approve-Stands approving "acme/app" 4 target one_waiting
      (record { request_id = "request-1"; state = pending; idempotent = true }) (refl, refl, tt)
      refl refl
