-- ===== src/LocalApproval/Recovery.antt =====
-- What `recover_claims` leaves.
use self_hosted_ci.Prelude.{
  ℕ, ◌≡◌, refl, String, Bool, true, false, not, ◌&&◌, some, List, [], ◌∷◌, ltb, leb, ◌==◌,
  if◌then◌else◌, lookup, nat_eq, string_eq, arith, inl, inr, Bool-cases, Option-cases,
}
use self_hosted_ci.Effects.{◌>>=◌}
use self_hosted_ci.GateStore.Rows.{Db}
use self_hosted_ci.LocalApproval.Rows.{
  stamp, is_claimed, ApprovalRow, row_key, Store, update_where, update_rows,
}
use self_hosted_ci.LocalApproval.Requests.{World}
use self_hosted_ci.LocalApproval.Claims.{recover_claims, is_over}
use self_hosted_ci.LocalApproval.Calls.{Call, run, empty}
use self_hosted_ci.LocalApproval.Steps.{is_valid_row, is_brief}
use self_hosted_ci.LocalApproval.Moves.{recover_claims-Moves}
use self_hosted_ci.LocalApproval.Histories.{run-Step}
use self_hosted_ci.LocalApproval.Uniqueness.{found}

-- A row after an update is the update of a row before it.
lookup-before :
    (test : ApprovalRow → Bool) (f : ApprovalRow → ApprovalRow) (rows : List ApprovalRow)
    (id : String) (r : ApprovalRow)
    → ((q : ApprovalRow) → (f q).request_id ≡ q.request_id)
    → lookup row_key id (update_where test f rows) ≡ some r
    → (q : ApprovalRow) × (lookup row_key id rows ≡ some q) × (r ≡ (if test q then f q else q))
unfolding update_where lookup
lookup-before test f [] id r keeps e = absurd (ground arith)
lookup-before test f (q ∷ rows) id r keeps e =
    elim (Bool-cases (row_key (if test q then f q else q) == id)) [
      | inl here ↦ (q, ground (arith, keeps q), ground arith)
      | inr away ↦
          let (p, there, r_is) = lookup-before test f rows id r keeps (ground arith) in
          (p, ground (arith, keeps q), r_is)
    ]

abbrev HoldsUntil : ℕ → ApprovalRow → Type 0
HoldsUntil now r =
    (t : ℕ) × (r.claim_until ≡ some t) × (ltb now t ≡ true) × (leb t r.expires_at ≡ true)

held :
    (r : ApprovalRow) (now : ℕ)
    → is_valid_row r ≡ true
    → is_brief r ≡ true
    → is_over r.claim_until now ≡ false
    → HoldsUntil now r
held r now v brief live = elim (Option-cases r.claim_until) [
  | inl e ↦ absurd (ground arith)
  | inr (t, e) ↦ (t, e, ground arith, ground arith)
]

recovered :
    (w : World) (rows : Store) (id : String) (r : ApprovalRow)
    → lookup row_key id (recover_claims w rows).1.approvals ≡ some r
    → is_brief r ≡ true
    → is_over r.claim_until (stamp w.now) ≡ false
unfolding recover_claims ◌>>=◌ update_rows
recovered w s id r e brief =
    let (q, there, r_is) = lookup-before _ _ _ id r (λ p. refl) e in
    let (p, before, q_is) = lookup-before _ _ _ id q (λ p. refl) there in ground (arith, r_is, q_is)

-- In every history of calls from a new store, after `recover_claims` at a time `now`: a claim that no
-- worker has made durable ends after `now`, and no later than its approval expires.
pub recover_claims-bounded :
    (cs : List (World × Call)) (gates : Db) (w : World) (id : String) (r : ApprovalRow)
    → lookup row_key id (recover_claims w (run cs (empty gates))).1.approvals ≡ some r
    → is_claimed r.state && not r.durable ≡ true
    → (t : ℕ) × (r.claim_until ≡ some t)
      × (ltb (stamp w.now) t ≡ true)
      × (leb t r.expires_at ≡ true)
recover_claims-bounded cs gates w id r e brief =
    let s = run cs (empty gates) in
    let valid = ((recover_claims-Moves w).at s).valid ((run-Step cs (empty gates)).valid tt) in
    held r (stamp w.now) (found (λ q. false) (recover_claims w s).1.approvals id r valid e).0 brief
      (recovered w s id r e brief)
