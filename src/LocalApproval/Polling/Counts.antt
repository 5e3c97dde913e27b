-- ===== src/LocalApproval/Polling/Counts.antt =====
-- The number of pending approvals: each round that goes on has one less.
use self_hosted_ci.Prelude.{
  ℕ, ◌≡◌, refl, String, Bool, true, false, Option, some, List, [], ◌∷◌, ltb, leb, ◌==◌, nat_eq,
  string_eq, arith, eq_iff, inl, inr, Bool-cases,
}
use self_hosted_ci.Effects.Related.{Related, IsPreorder, related_rules}
use self_hosted_ci.LocalApproval.Rows.{
  State, ApprovalRow, Store, is_pending, update_where, update_rows, matches, oldest,
}
use self_hosted_ci.LocalApproval.Claims.{set_state}

abbrev pub pending_count : Store → ℕ
pending_count s = matches (λ r. is_pending r.state) s.approvals

-- not more pending approvals than before
abbrev pub NoMore : Store → Store → Type 0
NoMore s t = leb (pending_count t) (pending_count s) ≡ true

pub at_most_refl : (n : ℕ) → leb n n ≡ true
at_most_refl n = ground arith

pub at_most_trans : (m n k : ℕ) → leb n m ≡ true → leb k n ≡ true → leb k m ≡ true
at_most_trans m n k h g = ground arith

instance abbrev pub NoMore-IsPreorder : IsPreorder NoMore
NoMore-IsPreorder = record {
  reflexive = λ s. at_most_refl (pending_count s);
  transitive = λ s t u. at_most_trans (pending_count s) (pending_count t) (pending_count u);
}

module _ (test : ApprovalRow → Bool) (f : ApprovalRow → ApprovalRow)
    (fails : (r : ApprovalRow) → test (f r) ≡ false) where
  -- An update to rows that fail the test
  pub matches-update :
      (which : ApprovalRow → Bool) (rows : List ApprovalRow)
      → leb (matches test (update_where which f rows)) (matches test rows) ≡ true
  unfolding matches update_where
  matches-update which [] = refl
  matches-update which (r ∷ rows) = elim (Bool-cases (which r)) [
    | inl e ↦ ground (arith, matches-update which rows, fails r)
    | inr e ↦ ground (arith, matches-update which rows)
  ]

  -- An update of the selected row to one that fails the test
  pub matches-oldest :
      (rows : List ApprovalRow) (q : ApprovalRow)
      → oldest test rows ≡ some q
      → ltb
          (matches test (update_where (λ r. r.request_id == q.request_id) f rows))
          (matches test rows)
        ≡ true
  unfolding matches update_where oldest
  matches-oldest [] q e = absurd (ground arith)
  matches-oldest (r ∷ rows) q e = ground (
    arith,
    fails r,
    matches-oldest rows q,
    matches-update (λ p. p.request_id == q.request_id) rows,
    eq_iff r.request_id q.request_id,
  )

pub update_rows-NoMore :
    (test : ApprovalRow → Bool) (f : ApprovalRow → ApprovalRow)
    → ((r : ApprovalRow) → is_pending (f r).state ≡ false)
    → Related NoMore (update_rows test f)
unfolding update_rows
update_rows-NoMore test f h = record {
  at = λ s. matches-update (λ r. is_pending r.state) f h test s.approvals;
}

pub set_state-NoMore :
    (id : String) (state : State) (reason result : Option String)
    → is_pending state ≡ false
    → Related NoMore (set_state id state reason result)
unfolding set_state
set_state-NoMore id state reason result h = search (related_rules, update_rows-NoMore)
