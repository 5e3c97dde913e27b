-- ===== src/LocalApproval/Moves.antt =====
-- Every operation of the store makes steps of its table only.
use self_hosted_ci.Prelude.{
  ◌*◌, ◌+◌, ℕ, ◌≡◌, refl, String, Bool, true, false, not, ◌&&◌, Option, none, some, ltb, leb, ◌==◌,
  nat_eq, string_eq, arith, inl, inr, Bool-cases,
}
use self_hosted_ci.Json.{Fields}
use self_hosted_ci.Effects.{raise_unless}
use self_hosted_ci.Effects.Related.{Related, related_rules, Related-modify, Related-bind}
use self_hosted_ci.LocalApproval.Rows.{
  is_completed, approval_error, State, pending, completed, failed, revoked, expired, is_active,
  is_claimed, stamp, ApprovalRow, Store, update_rows,
}
use self_hosted_ci.LocalApproval.Requests.{World}
use self_hosted_ci.LocalApproval.Claims.{
  same_result, is_over, completed_row, set_state, settle_as, fail, claim, resume, retry, complete,
  revoke, recover_claims,
}
use self_hosted_ci.LocalApproval.Steps.{Step-refl, Step-update, Moves, Moves-IsPreorder, Permits}

pub update_rows-Moves :
    (test : ApprovalRow → Bool) (f : ApprovalRow → ApprovalRow)
    → Permits test f
    → Related Moves (update_rows test f)
unfolding update_rows
update_rows-Moves test f h = record { at = λ s. Step-update test f h s.approvals }

pub set_state-Moves :
    (id : String) (state : State) (reason result : Option String)
    → is_active state ≡ false
    → Related Moves (set_state id state reason result)
unfolding set_state
set_state-Moves id state reason result h = search (related_rules, update_rows-Moves, permits)
  where
    permits : Permits (λ r. r.request_id == id && is_active r.state) (settle_as state reason result)
    permits r v t = ground arith

pub claim-Moves :
    (w : World) (id : String) (request : Fields) (n : ℕ) → Related Moves (claim w id request n)
unfolding claim
claim-Moves w id request n =
    search (related_rules, update_rows-Moves, permits, Related-modify, current)
  where
    permits :
        Permits
          (λ r. r.request_id == id && is_claimed r.state && r.request_json == w.dumps request)
          (λ r. record r {
            durable = true;
            claim_until = some (stamp (w.now + n * 1000000));
            reason = none;
          })
    permits r v t = ground arith

    current : (s : Store) → Moves s (record s { current_request = some request })
    current s = Step-refl s.approvals

pub resume-Moves :
    (w : World) (id : String) (request : Fields) (n : ℕ) → Related Moves (resume w id request n)
unfolding resume
resume-Moves w id request n = search (related_rules, claim-Moves)

pub retry-Moves : (w : World) (id reason : String) → Related Moves (retry w id reason)
unfolding retry
retry-Moves w id reason = search (related_rules, update_rows-Moves, permits)
  where
    permits :
        Permits
          (λ r. r.request_id == id && is_claimed r.state && r.durable)
          (λ r. record r { reason = some reason; claim_until = some (stamp w.now) })
    permits r v t = ground arith

pub complete-Moves :
    (w : World) (id : String) (result : Fields) → Related Moves (complete w id result)
unfolding complete
complete-Moves w id result = Related-bind _ _ (search related_rules) after
  where
    after :
        (row : Option ApprovalRow)
        → Related Moves (elim (completed_row row) [
          | some r ↦ raise_unless (same_result r.result_json (w.dumps result)) approval_error
          | none ↦ set_state id completed none (some (w.dumps result))
        ])
    after none = search (related_rules, set_state-Moves)
    after (some r) = elim (Bool-cases (is_completed r.state)) [
      | inl e ↦ rw e (search related_rules)
      | inr e ↦ rw e (search (related_rules, set_state-Moves))
    ]

pub fail-Moves : (id reason : String) → Related Moves (fail id reason)
unfolding fail
fail-Moves id reason = set_state-Moves id failed (some reason) none refl

pub revoke-Moves :
    (repository : String) (pr_number : ℕ) → Related Moves (revoke repository pr_number)
unfolding revoke
revoke-Moves repository pr_number = search (related_rules, update_rows-Moves, permits)
  where
    permits :
        Permits
          (λ r. is_active r.state && (r.repository == repository && r.pr_number == pr_number))
          (λ r. record r {
            state = revoked;
            reason = some "operator-revoked";
            claim_until = none;
            active_key = none;
          })
    permits r v t = ground arith

pub recover_claims-Moves : (w : World) → Related Moves (recover_claims w)
unfolding recover_claims
recover_claims-Moves w = search (related_rules, update_rows-Moves, expires, returns)
  where
    expires :
        Permits
          (λ r. is_claimed r.state && not r.durable && leb r.expires_at (stamp w.now))
          (λ r. record r {
            state = expired;
            reason = some "ttl-expired";
            claim_until = none;
            active_key = none;
          })
    expires r v t = ground arith

    returns :
        Permits
          (λ r.
            is_claimed r.state
            && not r.durable
            && is_over r.claim_until (stamp w.now)
            && ltb (stamp w.now) r.expires_at)
          (λ r. record r { state = pending; claim_until = none })
    returns r v t = ground arith
