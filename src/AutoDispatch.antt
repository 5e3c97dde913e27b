-- ===== src/AutoDispatch.antt =====
-- github_automation/pr_autodispatch.py: which local approvals to revoke and which heads of open pull
-- requests to approve.
mod Approvals
mod Revocations
mod Tests
use Prim.Native.String.{String}
use self_hosted_ci.Texts.{is_sha}
use self_hosted_ci.Prelude.{
  ◌++◌, false, is_some, pair_eq, string_eq, nat_eq, [], ◌∷◌, not, ◌&&◌, ◌||◌, exists, some, none,
  ltb, length, true, leb, ◌==◌, if◌then◌else◌, Option, List, Bool, ℕ,
}
use self_hosted_ci.Json.{Json, Fields, num, text, get}

-- `ACTIVE_STATES` and `SETTLED_STATES`
abbrev pub is_active_state : String → Bool
is_active_state s = s == "pending" || s == "claimed"

abbrev pub is_settled_state : String → Bool
is_settled_state s = s == "completed" || s == "failed" || s == "revoked" || s == "expired"

pub record OpenPullRequest : Type 0 where
  pub number : ℕ
  pub head_sha : String

-- `__post_init__`; `none` is the `AutoDispatchError`
unfoldable pub open_pull_request : ℕ → String → Option OpenPullRequest
open_pull_request number head_sha =
    if ltb number 1
    then none
    else if not (is_sha head_sha)
    then none
    else some (record { number = number; head_sha = head_sha })

pub data Kind : Type 0 where
  revoke approve : Kind

pub data Reason : Type 0 where
  closed superseded new_head : Reason

pub record Action : Type 0 where
  pub kind : Kind
  pub pr_number : ℕ
  pub head_sha : String
  pub reason : Reason

-- the dict `heads`
abbrev pub Heads : Type 0
Heads = List (ℕ × String)

abbrev pub head_of : ℕ → Heads → Option String
head_of n [] = none
head_of n ((m, head) ∷ heads) = if m == n then some head else head_of n heads

unfoldable pub collect_heads : List OpenPullRequest → Heads → Option Heads
collect_heads [] heads = some heads
collect_heads (p ∷ ps) heads =
    let rest = collect_heads ps ((p.number, p.head_sha) ∷ heads) in
    if is_some (head_of p.number heads) then none else rest

-- the dict `active`
abbrev pub Active : Type 0
Active = List (ℕ × List String)

-- `active.get(number, [])`
abbrev pub active_heads : ℕ → Active → List String
active_heads n [] = []
active_heads n ((m, heads) ∷ active) = if m == n then heads else active_heads n active

-- `active.setdefault(number, []).append(head)`
unfoldable pub append_head : ℕ → String → Active → Active
append_head n head [] = (n, head ∷ []) ∷ []
append_head n head ((m, heads) ∷ active) =
    if m == n then (m, heads ++ head ∷ []) ∷ active else (m, heads) ∷ append_head n head active

abbrev pub Settled : Type 0
Settled = List (ℕ × String)

pub record Approval : Type 0 where
  pub pr_number : ℕ
  pub head_sha : String
  pub state : String

-- the checks of one stored row; a number below 1 is refused, so the numbers are natural
unfoldable pub read_approval : Fields → Option Approval
read_approval row = elim (get "pr_number" row) [
  | some (num number) ↦ elim (get "head_sha" row) [
    | some (text head) ↦ elim (get "state" row) [
      | some (text state) ↦
          if ltb number 1 || not (is_sha head)
          then none
          else some (record { pr_number = number; head_sha = head; state = state })
      | _ ↦ none
    ]
    | _ ↦ none
  ]
  | _ ↦ none
]

abbrev pub sort_in : Approval → Active × Settled → Active × Settled
sort_in a (active, settled) =
    if is_active_state a.state
    then (append_head a.pr_number a.head_sha active, settled)
    else if is_settled_state a.state
    then (active, (a.pr_number, a.head_sha) ∷ settled)
    else (active, settled)

unfoldable pub sort_approvals : List Fields → Active × Settled → Option (Active × Settled)
sort_approvals [] sorted = some sorted
sort_approvals (row ∷ rows) sorted = elim (read_approval row) [
  | none ↦ none
  | some a ↦ sort_approvals rows (sort_in a sorted)
]

abbrev pub place_key : ℕ → List ℕ → List ℕ
place_key n [] = n ∷ []
place_key n (m ∷ ms) = if leb n m then n ∷ m ∷ ms else m ∷ place_key n ms

-- `sorted(d)`: the keys of a dict in order
unfoldable pub sorted_keys : {V : Type 0} → List (ℕ × V) → List ℕ
sorted_keys [] = []
sorted_keys ((n, v) ∷ d) = place_key n (sorted_keys d)

-- `[head for head in heads if head != current]`
unfoldable pub stale_heads : Option String → List String → List String
stale_heads current [] = []
stale_heads current (head ∷ heads) =
    let rest = stale_heads current heads in
    if elim current [ none ↦ false | some c ↦ head == c ] then rest else head ∷ rest

abbrev pub revoke_first : ℕ → Option String → List String → List Action → List Action
revoke_first n current [] rest = rest
revoke_first n current (head ∷ heads) rest =
    record {
      kind = revoke;
      pr_number = n;
      head_sha = head;
      reason = elim current [ none ↦ closed | some c ↦ superseded ];
    }
    ∷ rest

unfoldable pub revocations : Heads → Active → List ℕ → List Action
revocations heads active [] = []
revocations heads active (n ∷ ns) =
    revoke_first n (head_of n heads) (stale_heads (head_of n heads) (active_heads n active))
      (revocations heads active ns)

abbrev pub mentions : String → List String → Bool
mentions x = exists (λ y. x == y)

abbrev pub approve_head : ℕ → Active → Settled → Option String → List Action → List Action
approve_head n active settled none rest = rest
approve_head n active settled (some head) rest =
    if mentions head (active_heads n active) || exists (λ done. (n, head) == done) settled
    then rest
    else record { kind = approve; pr_number = n; head_sha = head; reason = new_head } ∷ rest

unfoldable pub new_approvals : Heads → Active → Settled → List ℕ → List Action
new_approvals heads active settled [] = []
new_approvals heads active settled (n ∷ ns) =
    approve_head n active settled (head_of n heads) (new_approvals heads active settled ns)

abbrev pub plan_actions : Heads → Active → Settled → List Action
plan_actions heads active settled =
    revocations heads active (sorted_keys active)
    ++ new_approvals heads active settled (sorted_keys heads)

unfoldable pub plan : List OpenPullRequest → List Fields → Option (List Action)
plan pull_requests approvals = elim (collect_heads pull_requests []) [
  | none ↦ none
  | some heads ↦ elim (sort_approvals approvals ([], [])) [
    | none ↦ none
    | some (active, settled) ↦ some (plan_actions heads active settled)
  ]
]
