-- ===== src/AutoDispatch/Approvals.antt =====
-- What the planner of the automatic dispatch approves and revokes.
use Prim.Native.String.{String}
use self_hosted_ci.Prelude.{
  ◌∙◌, ℕ, ◌++◌, refl, ◌≡◌, Bool, true, false, ◌&&◌, ◌||◌, not, Option, none, some, List, [], ◌∷◌,
  arith, eq_iff, ◌==◌, string_eq, nat_eq, pair_eq, exists, Option-cases, inl, inr,
}
use self_hosted_ci.Json.{Fields}
use self_hosted_ci.AutoDispatch.{
  plan_actions, stale_heads, revocations, revoke_first, new_approvals, approve_head, sorted_keys,
  place_key, Action, revoke, approve, OpenPullRequest, Heads, Active, Settled, head_of,
  active_heads, append_head, read_approval, collect_heads, sort_approvals, sort_in, mentions,
  is_active_state, is_settled_state, plan,
}

-- an approval, a revocation of this head of this pull request
abbrev pub is_approval_of : ℕ → String → Action → Bool
is_approval_of n h a = elim a.kind [
  | approve ↦ a.pr_number == n && a.head_sha == h
  | revoke ↦ false
]

abbrev pub is_revocation_of : ℕ → String → Action → Bool
is_revocation_of n h a = elim a.kind [
  | approve ↦ false
  | revoke ↦ a.pr_number == n && a.head_sha == h
]

-- GitHub reports this open pull request at this head.
abbrev pub is_open_at : ℕ → String → OpenPullRequest → Bool
is_open_at n h p = p.number == n && p.head_sha == h

-- The stored row is one of this head, in a state of this kind.
abbrev pub is_row_of : (String → Bool) → ℕ → String → Fields → Bool
is_row_of test n h row = elim (read_approval row) [
  | none ↦ false
  | some a ↦ test a.state && (a.pr_number == n && a.head_sha == h)
]

abbrev pub is_head : ℕ → String → Heads → Bool
is_head n h heads = elim (head_of n heads) [ none ↦ false | some x ↦ x == h ]

pub collect_heads-is_head :
    (n : ℕ) (h : String) (ps : List OpenPullRequest) (heads final : Heads)
    → collect_heads ps heads ≡ some final
    → is_head n h final ≡ (is_head n h heads || exists (is_open_at n h) ps)
unfolding collect_heads
collect_heads-is_head n h [] heads final e = ground arith
collect_heads-is_head n h (p ∷ ps) heads final e = elim (Option-cases (head_of p.number heads)) [
  | inl fresh ↦ ground (arith, collect_heads-is_head n h ps ((p.number, p.head_sha) ∷ heads) final)
  | inr (x, taken) ↦ absurd (ground arith)
]

mentions-append :
    (h k : String) (hs : List String) → mentions h (hs ++ k ∷ []) ≡ (mentions h hs || h == k)
mentions-append h k [] = ground arith
mentions-append h k (x ∷ hs) = ground (arith, mentions-append h k hs)

mentions-append_head :
    (n m : ℕ) (h k : String) (active : Active)
    → mentions h (active_heads n (append_head m k active))
      ≡ (mentions h (active_heads n active) || (m == n && h == k))
unfolding append_head
mentions-append_head n m h k [] = ground arith
mentions-append_head n m h k ((i, hs) ∷ active) =
    ground (arith, mentions-append h k hs, mentions-append_head n m h k active)

pub sort_approvals-active :
    (n : ℕ) (h : String) (rows : List Fields) (sorted final : Active × Settled)
    → sort_approvals rows sorted ≡ some final
    → mentions h (active_heads n final.0)
      ≡ (mentions h (active_heads n sorted.0) || exists (is_row_of is_active_state n h) rows)
unfolding sort_approvals
sort_approvals-active n h [] sorted final e = ground arith
sort_approvals-active n h (row ∷ rows) sorted final e = elim (Option-cases (read_approval row)) [
  | inl refused ↦ absurd (ground arith)
  | inr (a, read) ↦ ground (
    arith,
    eq_iff a.head_sha h,
    eq_iff h a.head_sha,
    mentions-append_head n a.pr_number h a.head_sha sorted.0,
    sort_approvals-active n h rows (sort_in a sorted) final,
  )
]

abbrev is_settled : ℕ → String → Settled → Bool
is_settled n h = exists (λ done. (n, h) == done)

sort_approvals-settled :
    (n : ℕ) (h : String) (rows : List Fields) (sorted final : Active × Settled)
    → sort_approvals rows sorted ≡ some final
    → is_settled n h final.1 ≡ (
        is_settled n h sorted.1
        || exists (is_row_of (λ s. not (is_active_state s) && is_settled_state s) n h) rows)
unfolding sort_approvals
sort_approvals-settled n h [] sorted final e = ground arith
sort_approvals-settled n h (row ∷ rows) sorted final e = elim (Option-cases (read_approval row)) [
  | inl refused ↦ absurd (ground arith)
  | inr (a, read) ↦ ground (
    arith,
    eq_iff a.head_sha h,
    eq_iff h a.head_sha,
    sort_approvals-settled n h rows (sort_in a sorted) final,
  )
]

module _ {A : Type 0} (p : A → Bool) where
  pub exists-append : (xs ys : List A) → exists p (xs ++ ys) ≡ (exists p xs || exists p ys)
  exists-append [] ys = refl
  exists-append (x ∷ xs) ys = ground (arith, exists-append xs ys)

pub exists-place_key :
    (p : ℕ → Bool) (n : ℕ) (ns : List ℕ) → exists p (place_key n ns) ≡ (p n || exists p ns)
exists-place_key p n [] = refl
exists-place_key p n (m ∷ ns) = ground (arith, exists-place_key p n ns)

head_of-sorted_keys :
    (n : ℕ) (x : String) (heads : Heads)
    → head_of n heads ≡ some x
    → exists (λ m. m == n) (sorted_keys heads) ≡ true
unfolding sorted_keys
head_of-sorted_keys n x [] e = absurd (ground arith)
head_of-sorted_keys n x ((m, h) ∷ heads) e =
    ground
      (arith, exists-place_key (λ m. m == n) m (sorted_keys heads), head_of-sorted_keys n x heads)

-- the head is open and neither active nor settled
abbrev is_new : ℕ → String → Heads → Active → Settled → Bool
is_new n h heads active settled =
    is_head n h heads && (not (mentions h (active_heads n active)) && not (is_settled n h settled))

approve_head-is_approval_of :
    (n m : ℕ) (h : String) (heads : Heads) (active : Active) (settled : Settled)
    (rest : List Action)
    → exists (is_approval_of n h) (approve_head m active settled (head_of m heads) rest)
      ≡ (m == n && is_new n h heads active settled || exists (is_approval_of n h) rest)
approve_head-is_approval_of n m h heads active settled rest =
    elim (Option-cases (head_of m heads)) [
      | inl closed ↦ ground arith
      | inr (x, is_open) ↦ ground (arith, eq_iff x h)
    ]

new_approvals-is_approval_of :
    (n : ℕ) (h : String) (heads : Heads) (active : Active) (settled : Settled) (ns : List ℕ)
    → exists (is_approval_of n h) (new_approvals heads active settled ns)
      ≡ (exists (λ m. m == n) ns && is_new n h heads active settled)
unfolding new_approvals
new_approvals-is_approval_of n h heads active settled [] = refl
new_approvals-is_approval_of n h heads active settled (m ∷ ns) =
    let rest = new_approvals heads active settled ns in
    ground (
      arith,
      approve_head-is_approval_of n m h heads active settled rest,
      new_approvals-is_approval_of n h heads active settled ns,
    )

revoke_first-is_approval_of :
    (n m : ℕ) (h : String) (current : Option String) (hs : List String) (rest : List Action)
    → exists (is_approval_of n h) (revoke_first m current hs rest)
      ≡ exists (is_approval_of n h) rest
revoke_first-is_approval_of n m h current [] rest = refl
revoke_first-is_approval_of n m h current (x ∷ hs) rest = refl

revocations-is_approval_of :
    (n : ℕ) (h : String) (heads : Heads) (active : Active) (ns : List ℕ)
    → exists (is_approval_of n h) (revocations heads active ns) ≡ false
unfolding revocations
revocations-is_approval_of n h heads active [] = refl
revocations-is_approval_of n h heads active (m ∷ ns) =
    let stale = stale_heads (head_of m heads) (active_heads m active) in
    let rest = revocations heads active ns in
    revoke_first-is_approval_of n m h (head_of m heads) stale rest
    ∙ revocations-is_approval_of n h heads active ns

plan_actions-is_approval_of :
    (n : ℕ) (h : String) (heads : Heads) (active : Active) (settled : Settled)
    → exists (is_approval_of n h) (plan_actions heads active settled)
      ≡ is_new n h heads active settled
plan_actions-is_approval_of n h heads active settled = elim (Option-cases (head_of n heads)) [
  | inl closed ↦ ground (
    arith,
    exists-append (is_approval_of n h) (revocations heads active (sorted_keys active))
        (new_approvals heads active settled (sorted_keys heads)),
    revocations-is_approval_of n h heads active (sorted_keys active),
    new_approvals-is_approval_of n h heads active settled (sorted_keys heads),
  )
  | inr (x, is_open) ↦ ground (
    arith,
    exists-append (is_approval_of n h) (revocations heads active (sorted_keys active))
        (new_approvals heads active settled (sorted_keys heads)),
    revocations-is_approval_of n h heads active (sorted_keys active),
    new_approvals-is_approval_of n h heads active settled (sorted_keys heads),
    head_of-sorted_keys n x heads is_open,
  )
]

-- A stored row that owns, or may still own, the runner, and a stored row of a head that had its turn
abbrev pub holds : ℕ → String → Fields → Bool
holds = is_row_of is_active_state

abbrev pub had_its_turn : ℕ → String → Fields → Bool
had_its_turn = is_row_of (λ s. not (is_active_state s) && is_settled_state s)

-- If the planner accepts its input, it approves a head of a pull request exactly when GitHub reports
-- the pull request open at this head and no stored row of this head is active or settled.
pub plan_approves_iff :
    (ps : List OpenPullRequest) (rows : List Fields) (actions : List Action) (n : ℕ) (h : String)
    → plan ps rows ≡ some actions
    → exists (is_approval_of n h) actions ≡ (
        exists (is_open_at n h) ps
        && (not (exists (holds n h) rows) && not (exists (had_its_turn n h) rows)))
unfolding plan
plan_approves_iff ps rows actions n h e = elim (Option-cases (collect_heads ps [])) [
  | inl refused ↦ absurd (ground arith)
  | inr (heads, collected) ↦ elim (Option-cases (sort_approvals rows ([], []))) [
    | inl refused ↦ absurd (ground arith)
    | inr (sorted, read) ↦ ground (
      arith,
      plan_actions-is_approval_of n h heads sorted.0 sorted.1,
      collect_heads-is_head n h ps [] heads collected,
      sort_approvals-active n h rows ([], []) sorted read,
      sort_approvals-settled n h rows ([], []) sorted read,
    )
  ]
]
