-- ===== src/AutoDispatch/Revocations.antt =====
-- What the planner of the automatic dispatch revokes.
use self_hosted_ci.AutoDispatch.Approvals.{
  sort_approvals-active, collect_heads-is_head, exists-append, is_open_at, holds, is_head,
  is_revocation_of,
}
use self_hosted_ci.AutoDispatch.{
  sorted_keys, sort_approvals, collect_heads, Fields, OpenPullRequest, plan, active_heads,
  revoke_first, head_of, Settled, Action, Active, mentions, revocations, Heads, new_approvals,
  stale_heads,
}
use Prim.Native.String.{String}
use self_hosted_ci.Prelude.{
  ℕ, refl, ◌≡◌, true, false, Option, none, some, List, [], ◌∷◌, arith, eq_iff, ◌==◌, string_eq,
  nat_eq, pair_eq, exists, Option-cases, inl, inr, ◌⊎◌,
}

-- The revocation is for an active head of the pull request that is not the current one.
stale_heads-first :
    (current : Option String) (hs : List String) (x : String) (rest : List String)
    → stale_heads current hs ≡ x ∷ rest
    → (mentions x hs ≡ true) × (elim current [ none ↦ false | some c ↦ x == c ] ≡ false)
unfolding stale_heads
stale_heads-first current [] x rest e = absurd (ground arith)
stale_heads-first current (h ∷ hs) x rest e =
    ground (arith, eq_iff x h, eq_iff h x, stale_heads-first current hs x rest)

new_approvals-is_revocation_of :
    (n : ℕ) (h : String) (heads : Heads) (active : Active) (settled : Settled) (ns : List ℕ)
    → exists (is_revocation_of n h) (new_approvals heads active settled ns) ≡ false
unfolding new_approvals
new_approvals-is_revocation_of n h heads active settled [] = refl
new_approvals-is_revocation_of n h heads active settled (m ∷ ns) =
    elim (Option-cases (head_of m heads)) [
      | inl closed ↦ ground (arith, new_approvals-is_revocation_of n h heads active settled ns)
      | inr (x, is_open) ↦
          ground (arith, new_approvals-is_revocation_of n h heads active settled ns)
    ]

revoke_first-is_revocation_of :
    (n m : ℕ) (h : String) (heads : Heads) (hs stale : List String) (rest : List Action)
    → stale_heads (head_of m heads) hs ≡ stale
    → exists (is_revocation_of n h) (revoke_first m (head_of m heads) stale rest) ≡ true
    → ((m ≡ n) × (mentions h hs ≡ true) × (is_head n h heads ≡ false))
      ⊎ (exists (is_revocation_of n h) rest ≡ true)
revoke_first-is_revocation_of n m h heads hs [] rest e found = inr found
revoke_first-is_revocation_of n m h heads hs (x ∷ stale) rest e found =
    let first = stale_heads-first (head_of m heads) hs x stale e in
    elim (Option-cases (head_of m heads)) [
      | inl closed ↦ ground (arith, eq_iff x h)
      | inr (c, is_open) ↦ ground (arith, eq_iff x h, eq_iff x c, eq_iff c h)
    ]

revocations-is_revocation_of :
    (n : ℕ) (h : String) (heads : Heads) (active : Active) (ns : List ℕ)
    → exists (is_revocation_of n h) (revocations heads active ns) ≡ true
    → (mentions h (active_heads n active) ≡ true) × (is_head n h heads ≡ false)
unfolding revocations
revocations-is_revocation_of n h heads active [] e = absurd (ground arith)
revocations-is_revocation_of n h heads active (m ∷ ns) e =
    let rest = revocations heads active ns in
    let hs = active_heads m active in
    elim (revoke_first-is_revocation_of n m h heads hs (stale_heads (head_of m heads) hs) rest refl
      e) [
        | inl (same, held, other) ↦ ground arith
        | inr later ↦ revocations-is_revocation_of n h heads active ns later
      ]

-- If the planner accepts its input and revokes a head of a pull request, then a stored row of this
-- head is active, and GitHub does not report the pull request open at this head.
pub plan_revokes :
    (ps : List OpenPullRequest) (rows : List Fields) (actions : List Action) (n : ℕ) (h : String)
    → plan ps rows ≡ some actions
    → exists (is_revocation_of n h) actions ≡ true
    → (exists (holds n h) rows ≡ true) × (exists (is_open_at n h) ps ≡ false)
unfolding plan
plan_revokes ps rows actions n h e found = elim (Option-cases (collect_heads ps [])) [
  | inl refused ↦ absurd (ground arith)
  | inr (heads, collected) ↦ elim (Option-cases (sort_approvals rows ([], []))) [
    | inl refused ↦ absurd (ground arith)
    | inr (sorted, read) ↦ ground (
      arith,
      exists-append (is_revocation_of n h) (revocations heads sorted.0 (sorted_keys sorted.0))
          (new_approvals heads sorted.0 sorted.1 (sorted_keys heads)),
      revocations-is_revocation_of n h heads sorted.0 (sorted_keys sorted.0),
      new_approvals-is_revocation_of n h heads sorted.0 sorted.1 (sorted_keys heads),
      collect_heads-is_head n h ps [] heads collected,
      sort_approvals-active n h rows ([], []) sorted read,
    )
  ]
]
