-- ===== src/LocalApproval/Polling/Moves.antt =====
-- A poll makes steps of the table only.
use self_hosted_ci.Prelude.{
  ℕ, zero, suc, Option, none, some, leb, nat_eq, string_eq, arith, ◌+◌, inl, inr, Bool-cases,
  Option-cases,
}
use self_hosted_ci.Json.{Fields}
use self_hosted_ci.Effects.{◌>>=◌, ◌>>◌, pure}
use self_hosted_ci.Effects.Related.{
  Related-modify, Related-bind, related_rules, Related, Related-if,
}
use self_hosted_ci.LocalApproval.Rows.{
  ApprovalRow, Store, Failure, parse, oldest, is_pending, update_rows,
}
use self_hosted_ci.LocalApproval.Requests.{World, Target}
use self_hosted_ci.LocalApproval.Approve.{expire_as}
use self_hosted_ci.LocalApproval.Claims.{fail}
use self_hosted_ci.Timing.Deadlines.{minutes}
use self_hosted_ci.LocalApproval.Steps.{Step-refl, Moves, Moves-IsPreorder}
use self_hosted_ci.LocalApproval.Moves.{set_state-Moves, fail-Moves}
use self_hosted_ci.LocalApproval.Approve.Moves.{observe-Moves}
use self_hosted_ci.LocalApproval.Polling.{
  Round, again, finished, Turn, idle, settled, taken, accept, supersede, take_turn, poll, rounds,
  poll_round, examine, recheck,
}
use self_hosted_ci.LocalApproval.Polling.Selection.{Step-selected, stamp_within}

pub take_turn-Moves : (w : World) → Related Moves (take_turn w)
unfolding take_turn ◌>>=◌ update_rows
take_turn-Moves w = record { at = turn }
  where
    turn : (s : Store) → Moves s (take_turn w s).1
    turn s = elim (Option-cases (oldest (λ r. is_pending r.state) s.approvals)) [
      | inl e ↦ rw e (Step-refl s.approvals)
      | inr (q, e) ↦ elim (Bool-cases (leb (parse q.expires_at) w.now)) [
        | inl late ↦
            rw (e, late)
              (Step-selected (expire_as "ttl-expired") q s.approvals (λ r v t. ground arith) e)
        | inr early ↦
            rw (e, early)
              (Step-selected _ q s.approvals
                (λ r v t. ground (arith, stamp_within (w.now + minutes 1) q.expires_at)) e)
      ]
    ]

pub supersede-Moves : (row : ApprovalRow) → Related Moves (supersede row)
supersede-Moves row = search (related_rules, set_state-Moves) depth 12

accept-Moves : (request : Fields) → Related Moves (accept request)
accept-Moves request = search (related_rules, Related-modify, current)
  where
    current : (s : Store) → Moves s (record s { current_request = some request })
    current s = Step-refl s.approvals

recheck-Moves :
    (w : World) (row : ApprovalRow) (request : Fields) (current : Target)
    → Related Moves (recheck w row request current)
unfolding recheck
recheck-Moves w row request current =
    search (related_rules, supersede-Moves, accept-Moves, observe-Moves) depth 12

pub examine-Moves : (w : World) (row : ApprovalRow) → Related Moves (examine w row)
unfolding examine
examine-Moves w row = Related-bind _ _ (search related_rules) λ request.
    Related-if _ _ _ (λ e. accept-Moves request)
      (λ e. after request (w.resolve row.repository row.pr_number))
  where
    after :
        (request : Fields) (resolved : Option Target)
        → Related {E = Failure} {A = Round} Moves (elim resolved [
          | none ↦ do fail row.request_id "authority-reresolution-failed"; pure again
          | some current ↦ recheck w row request current
        ])
    after request none = search (related_rules, fail-Moves)
    after request (some current) = recheck-Moves w row request current

poll_round-Moves : (w : World) → Related Moves (poll_round w)
unfolding poll_round
poll_round-Moves w = search (related_rules, take_turn-Moves, after)
  where
    after :
        (turn : Turn)
        → Related {E = Failure} {A = Round} Moves (elim turn [
          | idle ↦ pure (finished none)
          | settled ↦ pure again
          | taken row ↦ examine w row
        ])
    after idle = search related_rules
    after settled = search related_rules
    after (taken row) = examine-Moves w row

after_round :
    (fuel : ℕ) (w : World)
    → Related Moves (rounds fuel w)
    → (round : Round)
    → Related {E = Failure} {A = Option Fields} Moves
        (elim round [ again ↦ rounds fuel w | finished result ↦ pure result ])
after_round fuel w rest again = rest
after_round fuel w rest (finished result) = search related_rules

rounds-Moves : (fuel : ℕ) (w : World) → Related Moves (rounds fuel w)
unfolding rounds
rounds-Moves zero w = search related_rules
rounds-Moves (suc fuel) w =
    let rest = rounds-Moves fuel w in
    Related-bind _ _ (poll_round-Moves w) (after_round fuel w rest)

pub poll-Moves : (fuel : ℕ) (w : World) → Related Moves (poll fuel w)
unfolding poll
poll-Moves fuel w = search (related_rules, rounds-Moves, Related-modify, cleared)
  where
    cleared : (s : Store) → Moves s (record s { current_request = none })
    cleared s = Step-refl s.approvals
