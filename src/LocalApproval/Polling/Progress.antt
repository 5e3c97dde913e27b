-- ===== src/LocalApproval/Polling/Progress.antt =====
-- A round that goes on leaves fewer pending approvals, and no round adds one.
use self_hosted_ci.Prelude.{
  ℕ, ◌≡◌, refl, String, Bool, true, false, Option, none, some, ltb, leb, nat_eq, string_eq, arith,
  inl, inr, Bool-cases, Option-cases,
}
use self_hosted_ci.Json.{Fields}
use self_hosted_ci.Effects.{Outcome, ok, err, continue, ◌>>=◌, ◌>>◌, pure}
use self_hosted_ci.Effects.Related.{
  Related, Related-bind, Related-if, related_rules, Related-modify,
}
use self_hosted_ci.LocalApproval.Rows.{
  failed, ApprovalRow, Store, Failure, Tx, parse, oldest, is_pending, update_rows,
}
use self_hosted_ci.LocalApproval.Requests.{World, Target}
use self_hosted_ci.LocalApproval.Approve.{observe}
use self_hosted_ci.LocalApproval.Claims.{fail}
use self_hosted_ci.LocalApproval.Polling.{
  Round, again, finished, Turn, idle, settled, taken, accept, supersede, take_turn, poll_round,
  examine, recheck,
}
use self_hosted_ci.LocalApproval.Polling.Counts.{
  pending_count, NoMore, NoMore-IsPreorder, matches-oldest, set_state-NoMore,
}

-- Examining a claimed request adds no pending approval

observe-NoMore : (target : Target) (n : ℕ) → Related NoMore (observe target n)
unfolding observe
observe-NoMore target n = record { at = λ s. NoMore-IsPreorder.reflexive s }

fail-NoMore : (id reason : String) → Related NoMore (fail id reason)
unfolding fail
fail-NoMore id reason = set_state-NoMore id failed (some reason) none refl

supersede-NoMore : (row : ApprovalRow) → Related NoMore (supersede row)
supersede-NoMore row = search (related_rules, set_state-NoMore) depth 12

accept-NoMore : (request : Fields) → Related NoMore (accept request)
accept-NoMore request = search (related_rules, Related-modify, current)
  where
    current : (s : Store) → NoMore s (record s { current_request = some request })
    current s = NoMore-IsPreorder.reflexive s

recheck-NoMore :
    (w : World) (row : ApprovalRow) (request : Fields) (current : Target)
    → Related NoMore (recheck w row request current)
unfolding recheck
recheck-NoMore w row request current =
    search (related_rules, supersede-NoMore, accept-NoMore, observe-NoMore) depth 12

examine-NoMore : (w : World) (row : ApprovalRow) → Related NoMore (examine w row)
unfolding examine
examine-NoMore w row = Related-bind _ _ (search related_rules) λ request.
    Related-if _ _ _ (λ e. accept-NoMore request)
      (λ e. after request (w.resolve row.repository row.pr_number))
  where
    after :
        (request : Fields) (resolved : Option Target)
        → Related {E = Failure} {A = Round} NoMore (elim resolved [
          | none ↦ do fail row.request_id "authority-reresolution-failed"; pure again
          | some current ↦ recheck w row request current
        ])
    after request none = search (related_rules, fail-NoMore)
    after request (some current) = recheck-NoMore w row request current

-- One round

abbrev is_idle : Turn → Bool
is_idle idle = true
is_idle settled = false
is_idle (taken row) = false

abbrev step_of : World → Turn → Tx Round
step_of w idle = pure (finished none)
step_of w settled = pure again
step_of w (taken row) = examine w row

take_turn-fewer :
    (w : World) (s : Store) (turn : Turn)
    → (take_turn w s).0 ≡ ok turn
    → is_idle turn ≡ false
    → ltb (pending_count (take_turn w s).1) (pending_count s) ≡ true
unfolding take_turn ◌>>=◌ update_rows
take_turn-fewer w s turn e h = elim (Option-cases (oldest (λ r. is_pending r.state) s.approvals)) [
  | inl empty ↦
      let is_over : (take_turn w s).0 ≡ ok idle = rw empty refl in absurd (ground (arith, is_over))
  | inr (q, found) ↦ elim (Bool-cases (leb (parse q.expires_at) w.now)) [
    | inl late ↦
        rw (found, late)
          (matches-oldest (λ r. is_pending r.state) _ (λ r. refl) s.approvals q found)
    | inr early ↦
        rw (found, early)
          (matches-oldest (λ r. is_pending r.state) _ (λ r. refl) s.approvals q found)
  ]
]

round_goes_on :
    (w : World) (s : Store) (turn : Outcome Failure Turn × Store)
    → ((t : Turn)
        → turn.0 ≡ ok t
        → is_idle t ≡ false
        → ltb (pending_count turn.1) (pending_count s) ≡ true)
    → (continue turn.0 (step_of w) turn.1).0 ≡ ok again
    → ltb (pending_count (continue turn.0 (step_of w) turn.1).1) (pending_count s) ≡ true
unfolding ◌>>=◌
round_goes_on w s (err e, t) h e' = absurd (ground arith)
round_goes_on w s (ok idle, t) h e' = absurd (ground arith)
round_goes_on w s (ok settled, t) h e' = h settled refl refl
round_goes_on w s (ok (taken row), t) h e' =
    ground (arith, h (taken row) refl refl, (examine-NoMore w row).at t)

-- A round that goes on leaves fewer pending approvals.
pub poll_round-fewer :
    (w : World) (s : Store)
    → (poll_round w s).0 ≡ ok again
    → ltb (pending_count (poll_round w s).1) (pending_count s) ≡ true
unfolding poll_round ◌>>=◌
poll_round-fewer w s = round_goes_on w s (take_turn w s) (take_turn-fewer w s)
