-- ===== src/LocalApproval/Histories.antt =====
-- What holds of the table in every history of calls.
use self_hosted_ci.Prelude.{
  ℕ, ◌≡◌, refl, subst, String, Option, none, some, List, [], ◌∷◌, lookup, nat_eq, string_eq,
}
use self_hosted_ci.Effects.Related.{Related, related_rules, Related-modify}
use self_hosted_ci.LocalApproval.Rows.{completed, ApprovalRow, row_key, Store, BlockRow, DiscardRow}
use self_hosted_ci.LocalApproval.Requests.{World}
use self_hosted_ci.LocalApproval.Discards.{
  record_preflight_block, discard_identity, begin_discard_check, record_discard_check,
  complete_discard_check,
}
use self_hosted_ci.LocalApproval.Calls.{
  Call, approves, polls, claims, resumes, retries, fails, completes, revokes, recovers, blocks,
  begins_discard, completes_discard, records_discard, observes, finds_active, inserts, takes_turn,
  examines, supersedes, settles, call, run,
}
use self_hosted_ci.LocalApproval.Steps.{
  IsValid, Kept, Later, Step, Step-refl, Step-trans, Moves, Moves-IsPreorder,
}
use self_hosted_ci.LocalApproval.Moves.{
  claim-Moves, resume-Moves, retry-Moves, complete-Moves, fail-Moves, revoke-Moves,
  recover_claims-Moves, set_state-Moves,
}
use self_hosted_ci.LocalApproval.Approve.Moves.{
  approve-Moves, observe-Moves, find_active-Moves, insert_new-Moves, new_row_valid,
}
use self_hosted_ci.LocalApproval.Polling.Moves.{
  poll-Moves, take_turn-Moves, examine-Moves, supersede-Moves,
}

-- a change of the other tables
others : (s t : Store) → s.approvals ≡ t.approvals → Moves s t
others s t e = subst (λ rows. Step s.approvals rows) e (Step-refl s.approvals)

with_blocks : (f : Store → List BlockRow) (s : Store) → Moves s (record s { blocks = f s })
with_blocks f s = Step-refl s.approvals

with_discards : (f : Store → List DiscardRow) (s : Store) → Moves s (record s { discards = f s })
with_discards f s = Step-refl s.approvals

record_preflight_block-Moves :
    (w : World) (repository : String) (n : ℕ) (head reason : String)
    → Related Moves (record_preflight_block w repository n head reason)
unfolding record_preflight_block
record_preflight_block-Moves w repository n head reason =
    search (related_rules, Related-modify, with_blocks) depth 12

begin_discard_check-Moves : (scope name : String) → Related Moves (begin_discard_check scope name)
unfolding begin_discard_check discard_identity
begin_discard_check-Moves scope name =
    search (related_rules, Related-modify, with_discards) depth 12

complete_discard_check-Moves :
    (scope name : String) → Related Moves (complete_discard_check scope name)
unfolding complete_discard_check discard_identity
complete_discard_check-Moves scope name =
    search (related_rules, Related-modify, with_discards) depth 12

record_discard_check-Moves :
    (scope name : String) (id : ℕ) → Related Moves (record_discard_check scope name id)
unfolding record_discard_check discard_identity
record_discard_check-Moves scope name id =
    search (related_rules, Related-modify, with_discards) depth 12

call-Step : (w : World) (c : Call) (s : Store) → Step s.approvals (call w c s).approvals
call-Step w (approves repository n) s = (approve-Moves w repository n).at s
call-Step w (polls fuel) s = (poll-Moves fuel w).at s
call-Step w (claims id request n) s = (claim-Moves w id request n).at s
call-Step w (resumes id request n) s = (resume-Moves w id request n).at s
call-Step w (retries id reason) s = (retry-Moves w id reason).at s
call-Step w (fails id reason) s = (fail-Moves id reason).at s
call-Step w (completes id result) s = (complete-Moves w id result).at s
call-Step w (revokes repository n) s = (revoke-Moves repository n).at s
call-Step w recovers s = (recover_claims-Moves w).at s
call-Step w (blocks repository n head reason) s =
    (record_preflight_block-Moves w repository n head reason).at s
call-Step w (begins_discard scope name) s = (begin_discard_check-Moves scope name).at s
call-Step w (completes_discard scope name) s = (complete_discard_check-Moves scope name).at s
call-Step w (records_discard scope name id) s = (record_discard_check-Moves scope name id).at s
call-Step w (observes target n) s = (observe-Moves target n).at s
call-Step w (finds_active target repository n) s = (find_active-Moves w target repository n).at s
call-Step w (inserts target repository n g request) s =
    (insert_new-Moves w target repository n _ (new_row_valid w target repository n g request)).at s
call-Step w takes_turn s = (take_turn-Moves w).at s
call-Step w (examines row) s = (examine-Moves w row).at s
call-Step w (supersedes row) s = (supersede-Moves row).at s
call-Step w (settles id result) s =
    (set_state-Moves id completed none (some (w.dumps result)) refl).at s

pub run-Step : (cs : List (World × Call)) (s : Store) → Step s.approvals (run cs s).approvals
unfolding run
run-Step [] s = Step-refl s.approvals
run-Step ((w, c) ∷ cs) s =
    Step-trans s.approvals (call w c s).approvals _ (call-Step w c s) (run-Step cs (call w c s))

Kept-some :
    (r : ApprovalRow) (o : Option ApprovalRow)
    → Kept (some r) o
    → (t : ApprovalRow) × (o ≡ some t) × Later r t
Kept-some r none h = absurd h
Kept-some r (some t) h = (t, refl, h)

-- In every history of calls from a valid table, of whatever processes, an approval stays in the table,
-- for the same head and with the same request, times and generation; once it is completed, failed,
-- revoked or expired, its state, its result and its reason are what they were for good; and a durable
-- claim stays durable.
pub run-Later :
    (cs : List (World × Call)) (s : Store) (id : String) (r : ApprovalRow)
    → IsValid s.approvals
    → lookup row_key id s.approvals ≡ some r
    → (t : ApprovalRow) × (lookup row_key id (run cs s).approvals ≡ some t) × Later r t
run-Later cs s id r v e =
    Kept-some r _
      (subst (λ o. Kept o (lookup row_key id (run cs s).approvals)) e ((run-Step cs s).kept v id))
