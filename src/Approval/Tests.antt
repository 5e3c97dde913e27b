-- ===== src/Approval/Tests.antt =====
-- A request to sign one head.
use self_hosted_ci.Prelude.{String, ◌≡◌, refl, true, false, none, nat_eq, string_eq}
use self_hosted_ci.Texts.{is_digest, is_positive_decimal, is_repository, is_sha}
use self_hosted_ci.Json.{text, num, Fields, end, field, get}
use self_hosted_ci.Approval.{
  validate, ProceduralApprovalContext, evaluate_signing_request, ResolvedSigningTarget, Observed,
  resolve_signing_target, request_of,
}
use self_hosted_ci.Approval.Laws.{Names, resolve_signing_target-Names}

abbrev head : String
head = "0123456789abcdef0123456789abcdef01234567"

abbrev raw : Fields
raw = field "repository_id" (text "7") (
    field "repository" (text "acme/app") (
      field "pr_number" (num 4) (
        field "head_sha" (text head) (
          field "request_linkage_hash"
            (text "0123456789abcdef0123456789abcdef0123456789abcdef0123456789abcdef")
            (field "expected_head_generation" (text "12") end)))))

abbrev context : ProceduralApprovalContext
context = record {
  explicit_same_thread_request = true;
  requested_target_count = 1;
  requested_scope = "exact-pr-head";
  references_future_head = false;
}

abbrev observed : Observed
observed = record { repository_id = "7"; repository = "acme/app"; pr_number = 4; head_sha = head }

abbrev target : ResolvedSigningTarget
target = record {
  repository_id = "7";
  repository = "acme/app";
  pr_number = 4;
  head_sha = head;
  head_generation = "12";
}

resolve_signing_target-Names_example :
    Names raw target
    × (target ≡ target)
    × (context.explicit_same_thread_request ≡ true)
    × (context.requested_target_count ≡ 1)
    × (context.requested_scope ≡ "exact-pr-head")
    × (context.references_future_head ≡ false)
unfolding evaluate_signing_request validate resolve_signing_target get is_digest is_positive_decimal
    is_repository is_sha
resolve_signing_target-Names_example =
    resolve_signing_target-Names raw context (request_of raw) observed "12" target refl refl

-- another generation than the one that was asked for is refused
other_generation : resolve_signing_target (request_of raw) observed "13" ≡ none
unfolding resolve_signing_target get is_positive_decimal
other_generation = refl
