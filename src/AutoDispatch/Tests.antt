-- ===== src/AutoDispatch/Tests.antt =====
-- The planner on two pull requests, one of which has moved on.
use Prim.Native.String.{String}
use self_hosted_ci.Prelude.{ℕ, ◌≡◌, refl, not, ◌&&◌, some, List, [], ◌∷◌, exists}
use self_hosted_ci.Json.{Fields, end, field, text, num, get}
use self_hosted_ci.AutoDispatch.{
  OpenPullRequest, Action, revoke, approve, superseded, new_head, plan, collect_heads,
  sort_approvals, read_approval, append_head, sorted_keys, revocations, stale_heads, new_approvals,
}
use self_hosted_ci.Texts.{is_sha}
use self_hosted_ci.AutoDispatch.Approvals.{
  plan_approves_iff, is_approval_of, is_open_at, holds, had_its_turn,
}

abbrev old_sha : String
old_sha = "0123456789abcdef0123456789abcdef01234567"

abbrev new_sha : String
new_sha = "89abcdef0123456789abcdef0123456789abcdef"

abbrev pull_requests : List OpenPullRequest
pull_requests =
    record { number = 7; head_sha = new_sha } ∷ record { number = 3; head_sha = old_sha } ∷ []

abbrev stored : String → ℕ → String → Fields
stored sha n state =
    field "pr_number" (num n) (field "head_sha" (text sha) (field "state" (text state) end))

abbrev rows : List Fields
rows = stored old_sha 7 "claimed" ∷ stored old_sha 3 "completed" ∷ []

abbrev actions : List Action
actions =
    record { kind = revoke; pr_number = 7; head_sha = old_sha; reason = superseded }
    ∷ record { kind = approve; pr_number = 7; head_sha = new_sha; reason = new_head }
    ∷ []

planned : plan pull_requests rows ≡ some actions
unfolding plan collect_heads sort_approvals read_approval is_sha append_head sorted_keys revocations
    stale_heads new_approvals get
planned = refl

plan_approves_iff_example : exists (is_approval_of 7 new_sha) actions ≡ (
    exists (is_open_at 7 new_sha) pull_requests
    && (not (exists (holds 7 new_sha) rows) && not (exists (had_its_turn 7 new_sha) rows)))
plan_approves_iff_example = plan_approves_iff pull_requests rows actions 7 new_sha planned
