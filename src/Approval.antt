-- ===== src/Approval.antt =====
-- github_automation/approval.py: what the signing helper may be asked to sign. An
-- `ApprovalContractError` is none.
pub mod Laws
mod Tests
use self_hosted_ci.Prelude.{
  ℕ, String, Bool, true, false, not, ◌&&◌, ◌||◌, Option, none, some, List, [], ◌∷◌, ◌==◌,
  if◌then◌else◌, is_none, is_some, nat_eq, string_eq,
}
use self_hosted_ci.Texts.{is_digest, is_positive_decimal, is_repository, is_sha}
use self_hosted_ci.Json.{Json, num, text, Fields, get}
use self_hosted_ci.Registry.{all_known, is_null, is_positive, is_text_with}

pub record BoundedSigningRequest : Type 0 where
  pub repository_id : String
  pub repository : String
  pub pr_number : ℕ
  pub head_sha : String
  pub request_linkage_hash : String
  pub expected_head_generation : Option String

-- the values that the checks let through
abbrev pub text_value : Option Json → String
text_value (some (text s)) = s
text_value _ = ""

abbrev pub num_value : Option Json → ℕ
num_value (some (num n)) = n
num_value _ = 0

abbrev pub optional_text : Option Json → Option String
optional_text (some (text s)) = some s
optional_text _ = none

abbrev pub has_fields : Fields → Bool
has_fields raw =
    is_some (get "repository_id" raw)
    && is_some (get "repository" raw)
    && is_some (get "pr_number" raw)
    && is_some (get "head_sha" raw)
    && is_some (get "request_linkage_hash" raw)
    && all_known
        ("repository_id" ∷ "repository" ∷ "pr_number" ∷ "head_sha" ∷ "request_linkage_hash"
          ∷ "expected_head_generation" ∷ [])
        raw

abbrev pub is_generation : Option Json → Bool
is_generation o = is_null o || is_text_with is_positive_decimal o

abbrev pub checks : Fields → Bool
checks raw =
    is_text_with is_positive_decimal (get "repository_id" raw)
    && is_text_with is_repository (get "repository" raw)
    && is_positive (get "pr_number" raw)
    && is_text_with is_sha (get "head_sha" raw)
    && is_text_with is_digest (get "request_linkage_hash" raw)
    && is_generation (get "expected_head_generation" raw)

abbrev pub request_of : Fields → BoundedSigningRequest
request_of raw = record {
  repository_id = text_value (get "repository_id" raw);
  repository = text_value (get "repository" raw);
  pr_number = num_value (get "pr_number" raw);
  head_sha = text_value (get "head_sha" raw);
  request_linkage_hash = text_value (get "request_linkage_hash" raw);
  expected_head_generation = optional_text (get "expected_head_generation" raw);
}

-- `BoundedSigningRequest.validate`
unfoldable pub validate : Fields → Option BoundedSigningRequest
validate raw = if has_fields raw && checks raw then some (request_of raw) else none

pub record ProceduralApprovalContext : Type 0 where
  pub explicit_same_thread_request : Bool
  pub requested_target_count : ℕ
  pub requested_scope : String
  pub references_future_head : Bool

-- the target that an audit record names is that of its request
pub record ApprovalAuditRecord : Type 0 where
  pub request_linkage_hash : Option String
  pub target : Option BoundedSigningRequest
  pub outcome : String
  pub reason : String

pub record ApprovalDecision : Type 0 where
  pub allowed : Bool
  pub request : Option BoundedSigningRequest
  pub audit : ApprovalAuditRecord

abbrev pub denial : ProceduralApprovalContext → Option String
denial c =
    if not c.explicit_same_thread_request
    then some "no_explicit_same_thread_request"
    else if not (c.requested_target_count == 1)
    then some "request_is_not_one_exact_target"
    else if not (c.requested_scope == "exact-pr-head")
    then some "blanket_or_non_exact_scope"
    else if c.references_future_head
    then some "future_head_request"
    else none

abbrev linkage : Option Json → Option String
linkage o = if is_text_with is_digest o then some (text_value o) else none

abbrev audited : BoundedSigningRequest → String → String → ApprovalAuditRecord
audited r outcome reason = record {
  request_linkage_hash = some r.request_linkage_hash;
  target = some r;
  outcome = outcome;
  reason = reason;
}

abbrev decide : BoundedSigningRequest → Option String → ApprovalDecision
decide r (some reason) = record {
  allowed = false;
  request = none;
  audit = audited r "denied" reason;
}
decide r none = record {
  allowed = true;
  request = some r;
  audit = audited r "accepted" "bounded_exact_target_accepted";
}

unfoldable pub evaluate_signing_request : Fields → ProceduralApprovalContext → ApprovalDecision
evaluate_signing_request raw context = elim (validate raw) [
  | none ↦ record {
    allowed = false;
    request = none;
    audit = record {
      request_linkage_hash = linkage (get "request_linkage_hash" raw);
      target = none;
      outcome = "denied";
      reason = "invalid_bounded_request";
    };
  }
  | some r ↦ decide r (denial context)
]

pub record ResolvedSigningTarget : Type 0 where
  pub repository_id : String
  pub repository : String
  pub pr_number : ℕ
  pub head_sha : String
  pub head_generation : String

-- what GitHub shows
pub record Observed : Type 0 where
  pub repository_id : String
  pub repository : String
  pub pr_number : ℕ
  pub head_sha : String

abbrev pub fits : Option String → String → Bool
fits none t = true
fits (some s) t = s == t

unfoldable pub resolve_signing_target :
    BoundedSigningRequest → Observed → String → Option ResolvedSigningTarget
resolve_signing_target r o generation =
    if not (
      o.repository_id == r.repository_id
      && o.repository == r.repository
      && o.pr_number == r.pr_number
      && o.head_sha == r.head_sha)
    then none
    else if not (is_positive_decimal generation)
    then none
    else if not (fits r.expected_head_generation generation)
    then none
    else some (record {
      repository_id = o.repository_id;
      repository = o.repository;
      pr_number = o.pr_number;
      head_sha = o.head_sha;
      head_generation = generation;
    })
