-- ===== src/LocalApproval/Polling/Termination.antt =====
-- A poll ends: its rounds are at most one more than the pending approvals.
use self_hosted_ci.Prelude.{
  ℕ, zero, suc, ◌≡◌, refl, String, Bool, true, false, Option, none, some, ltb, leb, nat_eq,
  string_eq, arith, inl, inr, Bool-cases, Option-cases,
}
use self_hosted_ci.Json.{Fields}
use self_hosted_ci.GateStore.Monad.{Result}
use self_hosted_ci.GateStore.Heads.{observe_head}
use self_hosted_ci.Effects.{Outcome, ok, err, continue, ◌>>=◌, ◌>>◌, pure}
use self_hosted_ci.Effects.Raised.{Raises, Raises-bind, Raises-if, raises_rules, raised}
use self_hosted_ci.LocalApproval.Rows.{
  State, failed, ApprovalRow, Store, Failure, gate_error, out_of_fuel, Tx, update_rows, oldest,
  is_pending, parse,
}
use self_hosted_ci.LocalApproval.Requests.{World, Target}
use self_hosted_ci.LocalApproval.Approve.{observe}
use self_hosted_ci.LocalApproval.Claims.{fail, set_state}
use self_hosted_ci.LocalApproval.Polling.{
  Round, again, finished, Turn, idle, settled, taken, accept, supersede, take_turn, poll, rounds,
  poll_round, examine, recheck,
}
use self_hosted_ci.LocalApproval.Polling.Counts.{pending_count}
use self_hosted_ci.LocalApproval.Polling.Progress.{poll_round-fewer}

-- an exception of the program
abbrev is_of_program : Failure → Bool
is_of_program out_of_fuel = false
is_of_program _ = true

abbrev Ends : {A : Type 0} → Tx A → Type 0
Ends m = Raises is_of_program m

update_rows-Ends :
    (test : ApprovalRow → Bool) (f : ApprovalRow → ApprovalRow) → Ends (update_rows test f)
unfolding update_rows
update_rows-Ends test f = record { at = λ s. refl }

set_state-Ends :
    (id : String) (state : State) (reason result : Option String)
    → Ends (set_state id state reason result)
unfolding set_state
set_state-Ends id state reason result = search (raises_rules, update_rows-Ends)

fail-Ends : (id reason : String) → Ends (fail id reason)
unfolding fail
fail-Ends id reason = set_state-Ends id failed (some reason) none

observe-Ends : (target : Target) (n : ℕ) → Ends (observe target n)
unfolding observe
observe-Ends target n = record {
  at = λ s. returns (observe_head target.repository_id n target.head_sha s.gates).0;
}
  where
    returns :
        (r : Result ℕ)
        → raised is_of_program (elim r [ Result.ok g ↦ ok g | Result.err e ↦ err gate_error ])
          ≡ true
    returns (Result.ok g) = refl
    returns (Result.err e) = refl

accept-Ends : (request : Fields) → Ends (accept request)
accept-Ends request = search raises_rules

supersede-Ends : (row : ApprovalRow) → Ends (supersede row)
supersede-Ends row = search (raises_rules, set_state-Ends) depth 12

take_turn-Ends : (w : World) → Ends (take_turn w)
unfolding take_turn ◌>>=◌ update_rows
take_turn-Ends w = record { at = turn }
  where
    turn : (s : Store) → raised is_of_program (take_turn w s).0 ≡ true
    turn s = elim (Option-cases (oldest (λ r. is_pending r.state) s.approvals)) [
      | inl e ↦ rw e refl
      | inr (q, e) ↦ elim (Bool-cases (leb (parse q.expires_at) w.now)) [
        | inl late ↦ rw (e, late) refl
        | inr early ↦ rw (e, early) refl
      ]
    ]

recheck-Ends :
    (w : World) (row : ApprovalRow) (request : Fields) (current : Target)
    → Ends (recheck w row request current)
unfolding recheck
recheck-Ends w row request current =
    search (raises_rules, supersede-Ends, accept-Ends, observe-Ends) depth 12

examine-Ends : (w : World) (row : ApprovalRow) → Ends (examine w row)
unfolding examine
examine-Ends w row = Raises-bind _ _ (search raises_rules) λ request.
    Raises-if _ _ _ (accept-Ends request) (after request (w.resolve row.repository row.pr_number))
  where
    after :
        (request : Fields) (resolved : Option Target)
        → Ends {A = Round} (elim resolved [
          | none ↦ do fail row.request_id "authority-reresolution-failed"; pure again
          | some current ↦ recheck w row request current
        ])
    after request none = search (raises_rules, fail-Ends)
    after request (some current) = recheck-Ends w row request current

poll_round-Ends : (w : World) → Ends (poll_round w)
unfolding poll_round
poll_round-Ends w = search (raises_rules, take_turn-Ends, after)
  where
    after :
        (turn : Turn)
        → Ends {A = Round} (elim turn [
          | idle ↦ pure (finished none)
          | settled ↦ pure again
          | taken row ↦ examine w row
        ])
    after idle = search raises_rules
    after settled = search raises_rules
    after (taken row) = examine-Ends w row

-- what follows a round
abbrev rest_of : ℕ → World → Round → Tx (Option Fields)
rest_of fuel w again = rounds fuel w
rest_of fuel w (finished result) = pure result

-- it ends, and does not depend on the fuel
abbrev EndsAlike : World → ℕ → ℕ → Store → Type 0
EndsAlike w fuel fuel' s =
    (raised is_of_program (rounds fuel w s).0 ≡ true) × (rounds fuel w s ≡ rounds fuel' w s)

after_round :
    (w : World) (s : Store) (fuel fuel' : ℕ) (round : Outcome Failure Round × Store)
    → raised is_of_program round.0 ≡ true
    → (round.0 ≡ ok again → ltb (pending_count round.1) (pending_count s) ≡ true)
    → ((t : Store) → ltb (pending_count t) (pending_count s) ≡ true → EndsAlike w fuel fuel' t)
    → (raised is_of_program (continue round.0 (rest_of fuel w) round.1).0 ≡ true)
      × (continue round.0 (rest_of fuel w) round.1 ≡ continue round.0 (rest_of fuel' w) round.1)
unfolding ◌>>=◌
after_round w s fuel fuel' (err e, t) h less rest = (h, refl)
after_round w s fuel fuel' (ok (finished result), t) h less rest = (refl, refl)
after_round w s fuel fuel' (ok again, t) h less rest = rest t (less refl)

rounds-end :
    (w : World) (fuel fuel' : ℕ) (s : Store)
    → ltb (pending_count s) fuel ≡ true
    → ltb (pending_count s) fuel' ≡ true
    → EndsAlike w fuel fuel' s
unfolding rounds ◌>>=◌
rounds-end w zero fuel' s h h' = absurd (ground arith)
rounds-end w (suc fuel) zero s h h' = absurd (ground arith)
rounds-end w (suc fuel) (suc fuel') s h h' =
    after_round w s fuel fuel' (poll_round w s) ((poll_round-Ends w).at s) (poll_round-fewer w s)
      λ t less. rounds-end w fuel fuel' t (ground arith) (ground arith)

-- A poll ends: with more fuel than there are pending approvals it does not run out of it, and every such
-- fuel gives the same result and the same state.
pub poll-ends :
    (w : World) (fuel fuel' : ℕ) (s : Store)
    → ltb (pending_count s) fuel ≡ true
    → ltb (pending_count s) fuel' ≡ true
    → (¬ (poll fuel w s).0 ≡ err out_of_fuel) × (poll fuel w s ≡ poll fuel' w s)
unfolding poll ◌>>=◌
poll-ends w fuel fuel' s h h' =
    let (ends, alike) = rounds-end w fuel fuel' (record s { current_request = none }) h h' in
    ((λ out. ground (arith, out, ends)), alike)
