-- ===== src/LocalApproval/Approve/Moves.antt =====
-- `approve` makes steps of the table only.
use self_hosted_ci.Prelude.{
  ℕ, ◌≡◌, String, true, not, ◌&&◌, Option, none, some, ◌==◌, exists, nat_eq, string_eq, arith,
  eq_iff, inl, inr, Bool-cases,
}
use self_hosted_ci.Json.{Json, Fields}
use self_hosted_ci.Effects.{pure, ◌>>=◌}
use self_hosted_ci.Effects.Related.{Related, related_rules}
use self_hosted_ci.LocalApproval.Rows.{Failure, is_active, is_pending, ApprovalRow, Store}
use self_hosted_ci.LocalApproval.Requests.{
  World, Target, validate_request, validate_pilot, validate_protocol,
}
use self_hosted_ci.LocalApproval.Approve.{
  Approved, approve, observe, find_active, reconcile_active, create, insert_new, find_concurrent,
  new_row, expire_as, collides,
}
use self_hosted_ci.LocalApproval.Steps.{
  is_valid_row, Step-refl, Step-insert, Moves, Moves-IsPreorder, Permits,
}
use self_hosted_ci.LocalApproval.Moves.{update_rows-Moves}

pub observe-Moves : (target : Target) (n : ℕ) → Related Moves (observe target n)
unfolding observe
observe-Moves target n = record { at = λ s. Step-refl s.approvals }

reconcile_active-Moves :
    (w : World) (target : Target) (row : ApprovalRow)
    → Related Moves (reconcile_active w target row)
unfolding reconcile_active
reconcile_active-Moves w target row =
    search (related_rules, update_rows-Moves, by_time, by_target) depth 12
  where
    by_time :
        Permits
          (λ r. r.request_id == row.request_id && is_active r.state && not r.durable)
          (expire_as "ttl-expired")
    by_time r v t = ground arith

    by_target :
        Permits
          (λ r. r.request_id == row.request_id && is_pending r.state && not r.durable)
          (expire_as "resolved-target-changed")
    by_target r v t = ground arith

pub find_active-Moves :
    (w : World) (target : Target) (repository : String) (n : ℕ)
    → Related Moves (find_active w target repository n)
unfolding find_active
find_active-Moves w target repository n = search (related_rules, after)
  where
    after :
        (found : Option ApprovalRow)
        → Related {E = Failure} {A = Option Approved} Moves
            (elim found [ none ↦ pure none | some row ↦ reconcile_active w target row ])
    after none = search related_rules
    after (some row) = reconcile_active-Moves w target row

find_concurrent-Moves :
    (w : World) (target : Target) (repository : String) (n : ℕ)
    → Related Moves (find_concurrent w target repository n)
unfolding find_concurrent
find_concurrent-Moves w target repository n = search related_rules depth 12

-- The insertion tests for a collision in the same state.
pub insert_new-Moves :
    (w : World) (target : Target) (repository : String) (n : ℕ) (row : ApprovalRow)
    → is_valid_row row ≡ true
    → Related Moves (insert_new w target repository n row)
unfolding insert_new ◌>>=◌
insert_new-Moves w target repository n row valid = record { at = inserted }
  where
    inserted : (s : Store) → Moves s (insert_new w target repository n row s).1
    inserted s = elim (Bool-cases (exists (collides row) s.approvals)) [
      | inl e ↦ rw e ((find_concurrent-Moves w target repository n).at s)
      | inr e ↦ rw e (Step-insert row s.approvals valid e)
    ]

validate_pilot-Moves :
    (w : World) (raw : Json) (reservation : Fields) (target : Target)
    → Related Moves (validate_pilot w raw reservation target)
unfolding validate_pilot
validate_pilot-Moves w raw reservation target = search related_rules depth 12

validate_protocol-Moves :
    (w : World) (raw : Json) (reservation : Fields) (target : Target) (g : ℕ) (nonce : String)
    → Related Moves (validate_protocol w raw reservation target g nonce)
unfolding validate_protocol
validate_protocol-Moves w raw reservation target g nonce = search related_rules depth 12

pub validate_request-Moves :
    (w : World) (raw : Fields) (target : Target) (g : ℕ) (id nonce : String)
    → Related Moves (validate_request w raw target g id nonce)
unfolding validate_request
validate_request-Moves w raw target g id nonce =
    search (related_rules, validate_pilot-Moves, validate_protocol-Moves) depth 16

pub new_row_valid :
    (w : World) (target : Target) (repository : String) (n g : ℕ) (request : Fields)
    → is_valid_row (new_row w target repository n g request) ≡ true
new_row_valid w target repository n g request =
    ground (arith, eq_iff repository repository, eq_iff target.head_sha target.head_sha)

create-Moves :
    (w : World) (target : Target) (repository : String) (n g : ℕ)
    → Related Moves (create w target repository n g)
unfolding create
create-Moves w target repository n g =
    search (related_rules, validate_request-Moves, insert_new-Moves, new_row_valid) depth 12

pub approve-Moves :
    (w : World) (repository : String) (n : ℕ) → Related Moves (approve w repository n)
unfolding approve
approve-Moves w repository n =
    search (related_rules, observe-Moves, find_active-Moves, after) depth 12
  where
    after :
        (target : Target) (g : ℕ) (found : Option Approved)
        → Related Moves
            (elim found [ some before ↦ pure before | none ↦ create w target repository n g ])
    after target g none = create-Moves w target repository n g
    after target g (some before) = search related_rules
