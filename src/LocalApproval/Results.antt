-- ===== src/LocalApproval/Results.antt =====
-- The result of a completed approval.
use self_hosted_ci.Prelude.{
  ◌≡◌, refl, subst, ap, String, Bool, true, false, ◌&&◌, Option, none, some, List, [], ◌∷◌, ◌==◌,
  if◌then◌else◌, exists, lookup, nat_eq, string_eq, arith, eq_iff, inl, inr, Bool-cases,
  Option-cases,
}
use self_hosted_ci.Json.{Fields}
use self_hosted_ci.Effects.{Outcome, ok, err, raise_unless, ◌>>=◌}
use self_hosted_ci.LocalApproval.Rows.{
  completed, is_active, is_completed, ApprovalRow, row_key, Store, Failure, approval_error,
  update_where, matches, update_rows,
}
use self_hosted_ci.LocalApproval.Requests.{World}
use self_hosted_ci.LocalApproval.Approve.{collides}
use self_hosted_ci.LocalApproval.Claims.{complete, completed_row, same_result, set_state, settle_as}
use self_hosted_ci.LocalApproval.Calls.{Call, run}
use self_hosted_ci.LocalApproval.Steps.{IsValid}
use self_hosted_ci.LocalApproval.Moves.{complete-Moves}
use self_hosted_ci.LocalApproval.Histories.{run-Later}

-- Where no row collides with `r`, none of its request is counted.
collides-matches :
    (r : ApprovalRow) (test : ApprovalRow → Bool) (id : String) (rows : List ApprovalRow)
    → r.request_id ≡ id
    → exists (collides r) rows ≡ false
    → matches (λ q. q.request_id == id && test q) rows ≡ 0
unfolding matches
collides-matches r test id [] same free = refl
collides-matches r test id (q ∷ rows) same free =
    ground (arith, collides-matches r test id rows same)

-- An update that has changed a row of a request is found there.
lookup-update :
    (id : String) (test : ApprovalRow → Bool) (f : ApprovalRow → ApprovalRow)
    (rows : List ApprovalRow)
    → IsValid rows
    → ((r : ApprovalRow) → (f r).request_id ≡ r.request_id)
    → matches (λ r. r.request_id == id && test r) rows == 1 ≡ true
    → (q : ApprovalRow) × lookup row_key id
          (update_where (λ r. r.request_id == id && test r) f rows)
        ≡ some (f q)
unfolding matches update_where lookup
lookup-update id test f [] v keeps m = absurd (ground arith)
lookup-update id test f (r ∷ rows) v keeps m = elim (Bool-cases (r.request_id == id)) [
  | inl here ↦ elim (Bool-cases (test r)) [
    | inl passes ↦ (r, ground (arith, keeps r))
    | inr fails ↦
        absurd
          (ground (arith, collides-matches r test id rows ((eq_iff r.request_id id).0 here) v.1))
  ]
  | inr away ↦
      let (q, e) = lookup-update id test f rows v.2 keeps (ground arith) in (q, ground arith)
]

-- the approval is completed, with this result
abbrev HasResult : String → String → Store → Type 0
HasResult id result s =
    (t : ApprovalRow) × (lookup row_key id s.approvals ≡ some t)
    × (is_completed t.state ≡ true)
    × (t.result_json ≡ some result)

set_state-HasResult :
    (id result : String) (s : Store)
    → IsValid s.approvals
    → (set_state id completed none (some result) s).0 ≡ ok tt
    → HasResult id result (set_state id completed none (some result) s).1
unfolding set_state ◌>>=◌ update_rows
set_state-HasResult id result s v returns =
    let (q, e) =
      lookup-update id (λ r. is_active r.state) (settle_as completed none (some result)) s.approvals
        v (λ r. refl) (ground (arith, returns)) in
    (settle_as completed none (some result) q, e, refl, refl)

-- `complete`, by the completed row that it reads
by_row : World → String → Fields → Option ApprovalRow → Store → Outcome Failure (Unit {0}) × Store
by_row w id result o = elim o [
  | some r ↦ raise_unless (same_result r.result_json (w.dumps result)) approval_error
  | none ↦ set_state id completed none (some (w.dumps result))
]

complete-by_row :
    (w : World) (id : String) (result : Fields) (s : Store) (o : Option ApprovalRow)
    → completed_row (lookup row_key id s.approvals) ≡ o
    → complete w id result s ≡ by_row w id result o s
unfolding complete by_row ◌>>=◌
complete-by_row w id result s o e = ap (λ o. by_row w id result o s) e

completed_row-some :
    (t : ApprovalRow) → is_completed t.state ≡ true → completed_row (some t) ≡ some t
completed_row-some t e = ground arith

completed_row-some_facts :
    (o : Option ApprovalRow) (r : ApprovalRow)
    → completed_row o ≡ some r
    → (o ≡ some r) × (is_completed r.state ≡ true)
completed_row-some_facts none r e = absurd (ground arith)
completed_row-some_facts (some q) r e = ground arith

same_result_eq : (o : Option String) (known : String) → same_result o known ≡ true → o ≡ some known
same_result_eq none known e = absurd (ground arith)
same_result_eq (some t) known e = ap some ((eq_iff t known).0 e)

compared :
    (w : World) (id : String) (result : Fields) (s : Store) (r : ApprovalRow)
    → lookup row_key id s.approvals ≡ some r
    → is_completed r.state ≡ true
    → (by_row w id result (some r) s).0 ≡ ok tt
    → HasResult id (w.dumps result) (by_row w id result (some r) s).1
unfolding by_row ◌>>=◌
compared w id result s r e done returns =
    (r, e, done, same_result_eq r.result_json (w.dumps result) (ground (arith, returns)))

complete-HasResult :
    (w : World) (id : String) (result : Fields) (s : Store)
    → IsValid s.approvals
    → (complete w id result s).0 ≡ ok tt
    → HasResult id (w.dumps result) (complete w id result s).1
unfolding by_row
complete-HasResult w id result s v returns =
    elim (Option-cases (completed_row (lookup row_key id s.approvals))) [
      | inl e ↦ rw (complete-by_row w id result s none e) (
          set_state-HasResult id (w.dumps result) s v
            (subst (λ r. r.0 ≡ ok tt) (complete-by_row w id result s none e) returns))
      | inr (r, e) ↦
          let (here, done) = completed_row-some_facts (lookup row_key id s.approvals) r e in
          rw (complete-by_row w id result s (some r) e) (
            compared w id result s r here done
              (subst (λ r. r.0 ≡ ok tt) (complete-by_row w id result s (some r) e) returns))
    ]

-- a completion of a completed approval
complete-again :
    (w : World) (id known : String) (result : Fields) (s : Store)
    → HasResult id known s
    → complete w id result s ≡ (if known == w.dumps result then ok tt else err approval_error, s)
unfolding by_row ◌>>=◌
complete-again w id known result s (t, e, done, r) =
    let found : completed_row (lookup row_key id s.approvals) ≡ some t =
      rw e (completed_row-some t done) in
    rw (complete-by_row w id result s (some t) found, r) refl

run-HasResult :
    (cs : List (World × Call)) (id known : String) (s : Store)
    → IsValid s.approvals
    → HasResult id known s
    → HasResult id known (run cs s)
run-HasResult cs id known s v (t, e, done, r) =
    let (t', e', later) = run-Later cs s id t v e in
    (t', e', ground (arith, later.ended), ground (arith, later.ended))

-- Once `complete` has returned, from a valid table, a later `complete` of the same request, after any
-- history of calls, changes nothing: it returns where the result's text is the one recorded, and raises otherwise.
pub complete-once :
    (w w' : World) (cs : List (World × Call)) (id : String) (result result' : Fields) (s : Store)
    → IsValid s.approvals
    → (complete w id result s).0 ≡ ok tt
    → complete w' id result' (run cs (complete w id result s).1) ≡ (
      if w.dumps result == w'.dumps result' then ok tt else err approval_error,
      run cs (complete w id result s).1,
    )
complete-once w w' cs id result result' s v returns =
    let s' = (complete w id result s).1 in
    complete-again w' id (w.dumps result) result' (run cs s') (
      run-HasResult cs id (w.dumps result) s' (((complete-Moves w id result).at s).valid v)
        (complete-HasResult w id result s v returns))
