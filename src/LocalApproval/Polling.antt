-- ===== src/LocalApproval/Polling.antt =====
-- `LocalApprovalStore.poll`: rounds until a request is claimed or none is pending. Each round that
-- goes on has settled one pending approval.
pub mod Selection
pub mod Moves
pub mod Counts
pub mod Progress
pub mod Termination
use Prim.Native.Nat.{min}
use self_hosted_ci.Prelude.{
  ℕ, zero, suc, ◌+◌, String, Bool, true, false, not, ◌&&◌, ◌||◌, Option, none, some, leb, ◌==◌,
  if◌then◌else◌, is_some, nat_eq, string_eq,
}
use self_hosted_ci.Json.{Fields, get}
use self_hosted_ci.Timing.Deadlines.{minutes}
use self_hosted_ci.Effects.{
  Outcome, ok, err, ◌>>=◌, ◌>>◌, pure, raise, or_raise, gets, modify, atomic,
}
use self_hosted_ci.LocalApproval.Rows.{
  State, pending, claimed, expired, is_pending, stamp, parse, ApprovalRow, Store, Tx, decode_error,
  out_of_fuel, update_rows, oldest,
}
use self_hosted_ci.LocalApproval.Requests.{Target, World, request_matches}
use self_hosted_ci.LocalApproval.Approve.{observe, expire_as}
use self_hosted_ci.LocalApproval.Claims.{set_state, fail}

pub data Turn : Type 0 where
  idle settled : Turn
  taken : ApprovalRow → Turn

-- the transaction of one round; `taken` has the row as it was selected
unfoldable pub take_turn : World → Tx Turn
take_turn w = atomic (do
  found ← gets λ s. oldest (λ r. is_pending r.state) s.approvals
  elim found [
    | none ↦ pure idle
    | some row ↦
        if leb (parse row.expires_at) w.now
        then (do
          update_rows (λ r. r.request_id == row.request_id) (expire_as "ttl-expired")
          pure settled)
        else (do
          let claim_until = min (w.now + minutes 1) (parse row.expires_at)
          update_rows (λ r. r.request_id == row.request_id)
              (λ r. record r { state = claimed; claim_until = some (stamp claim_until) })
          pure (taken row))
  ])

pub data Round : Type 0 where
  again : Round
  finished : Option Fields → Round

abbrev pub accept : Fields → Tx Round
accept request = do
  modify λ s. record s { current_request = some request }
  pure (finished (some request))

abbrev pub supersede : ApprovalRow → Tx Round
supersede row = do
  set_state row.request_id expired (some "resolved-target-or-generation-changed") none
  pure again

-- a protocol package is resolved again
unfoldable pub recheck : World → ApprovalRow → Fields → Target → Tx Round
recheck w row request current =
    if not (request_matches w request current) || not (current.head_sha == row.head_sha)
    then supersede row
    else (do
      generation ← observe current current.pr_number
      if generation == row.head_generation then accept request else supersede row)

unfoldable pub examine : World → ApprovalRow → Tx Round
examine w row = do
  request ← or_raise (w.loads row.request_json) decode_error
  if is_some (get "pilot_package" request)
      then accept request
      else elim (w.resolve row.repository row.pr_number) [
        | none ↦ do fail row.request_id "authority-reresolution-failed"; pure again
        | some current ↦ recheck w row request current
      ]

unfoldable pub poll_round : World → Tx Round
poll_round w = do
  turn ← take_turn w
  elim turn [ idle ↦ pure (finished none) | settled ↦ pure again | taken row ↦ examine w row ]

-- the rounds, with fuel
unfoldable pub rounds : ℕ → World → Tx (Option Fields)
rounds zero w = raise out_of_fuel
rounds (suc fuel) w = do
  round ← poll_round w
  elim round [ again ↦ rounds fuel w | finished result ↦ pure result ]

unfoldable pub poll : ℕ → World → Tx (Option Fields)
poll fuel w = do modify λ s. record s { current_request = none }; rounds fuel w
