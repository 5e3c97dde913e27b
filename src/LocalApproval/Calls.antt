-- ===== src/LocalApproval/Calls.antt =====
-- The calls of a `LocalApprovalStore`, and histories of them. `approve`, `poll`, `complete` and
-- `resume` are several transactions: a history has them as a whole, or one transaction at a time, between
-- which other processes have theirs.
use self_hosted_ci.Prelude.{ℕ, String, none, some, List, [], ◌∷◌}
use self_hosted_ci.Json.{Fields}
use self_hosted_ci.GateStore.Rows.{Db}
use self_hosted_ci.LocalApproval.Rows.{completed, ApprovalRow, Store}
use self_hosted_ci.LocalApproval.Requests.{Target, World}
use self_hosted_ci.LocalApproval.Approve.{approve, observe, find_active, insert_new, new_row}
use self_hosted_ci.LocalApproval.Claims.{
  set_state, fail, claim, resume, retry, complete, revoke, recover_claims,
}
use self_hosted_ci.LocalApproval.Polling.{poll, take_turn, examine, supersede}
use self_hosted_ci.LocalApproval.Discards.{
  record_preflight_block, begin_discard_check, record_discard_check, complete_discard_check,
}

pub data Call : Type 0 where
  approves : String → ℕ → Call
  polls : ℕ → Call
  claims resumes : String → Fields → ℕ → Call
  retries fails : String → String → Call
  completes : String → Fields → Call
  revokes : String → ℕ → Call
  recovers : Call
  blocks : String → ℕ → String → String → Call
  begins_discard completes_discard : String → String → Call
  records_discard : String → String → ℕ → Call
  -- transactions of `approve`
  observes : Target → ℕ → Call
  finds_active : Target → String → ℕ → Call
  inserts : Target → String → ℕ → ℕ → Fields → Call
  -- transactions of `poll`
  takes_turn : Call
  examines supersedes : ApprovalRow → Call
  -- the last transaction of `complete`
  settles : String → Fields → Call

-- the state after a call, whether it returns or raises
abbrev pub call : World → Call → Store → Store
call w (approves repository n) s = (approve w repository n s).1
call w (polls fuel) s = (poll fuel w s).1
call w (claims id request n) s = (claim w id request n s).1
call w (resumes id request n) s = (resume w id request n s).1
call w (retries id reason) s = (retry w id reason s).1
call w (fails id reason) s = (fail id reason s).1
call w (completes id result) s = (complete w id result s).1
call w (revokes repository n) s = (revoke repository n s).1
call w recovers s = (recover_claims w s).1
call w (blocks repository n head reason) s = (record_preflight_block w repository n head reason s).1
call w (begins_discard scope name) s = (begin_discard_check scope name s).1
call w (completes_discard scope name) s = (complete_discard_check scope name s).1
call w (records_discard scope name id) s = (record_discard_check scope name id s).1
call w (observes target n) s = (observe target n s).1
call w (finds_active target repository n) s = (find_active w target repository n s).1
call w (inserts target repository n g request) s =
    (insert_new w target repository n (new_row w target repository n g request) s).1
call w takes_turn s = (take_turn w s).1
call w (examines row) s = (examine w row s).1
call w (supersedes row) s = (supersede row s).1
call w (settles id result) s = (set_state id completed none (some (w.dumps result)) s).1

-- each call with what it is given
unfoldable pub run : List (World × Call) → Store → Store
run [] s = s
run ((w, c) ∷ cs) s = run cs (call w c s)

abbrev pub empty : Db → Store
empty gates = record {
  approvals = [];
  blocks = [];
  discards = [];
  gates = gates;
  current_request = none;
}
