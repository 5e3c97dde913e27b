-- ===== src/LocalApproval/Requests.antt =====
-- Work requests: `_request_matches_target` and `_validate_request`.
use self_hosted_ci.Prelude.{
  ℕ, String, Bool, false, not, ◌&&◌, ◌||◌, Option, none, some, ◌==◌, if◌then◌else◌, is_some, nat_eq,
  string_eq,
}
use self_hosted_ci.Json.{
  same_text, count, Json, Fields, obj, text, end, field, get, is_text, is_num, or_null,
}
use self_hosted_ci.CheckDelivery.{is_truthy}
use self_hosted_ci.Effects.{◌>>=◌, ◌>>◌, pure, raise_unless, or_raise}
use self_hosted_ci.LocalApproval.Rows.{Tx, approval_error, other}

-- `ResolvedApprovalTarget`
pub record Target : Type 0 where
  pub repository_id : String
  pub repository : String
  pub pr_number : ℕ
  pub head_sha : String
  pub default_branch : String
  pub workflow_ref : String
  pub base_sha : String
  pub tested_merge_sha : String

-- what `_validate_request` reads of a `JitPilotPackageV1`
pub record PilotPackage : Type 0 where
  pub repository_id : ℕ
  pub repository : String
  pub pr_number : ℕ
  pub head_sha : String
  pub base_sha : String
  pub tested_merge_sha : String
  pub allocation_id : String
  pub runner_label : String

-- What one call is given: the clock, the resolver, the builder, `uuid4` and the nonce, the TTL of the
-- store, the JSON codec, Python's `str` and `int`, and the validators of jit_pilot.py, github.py and
-- runner_jit.py. `none` is an exception. `classify` is the resolver's own `supersession_reason`, if
-- it has one.
pub record World : Type 0 where
  pub now : ℕ
  pub resolve : String → ℕ → Option Target
  pub build : Target → ℕ → String → String → Option Fields
  pub uuid : String
  pub nonce : String
  pub ttl : ℕ
  pub dumps : Fields → String
  pub loads : String → Option Fields
  pub str : Option Json → String
  pub int : String → Option ℕ
  pub reservation_valid : Json → ℕ → Bool
  pub pilot_package : Json → ℕ → Option PilotPackage
  pub protocol_package : Json → Option Fields
  pub classify : Option (Fields → Option (Option String))

-- `request.get("pilot_package") or request.get("protocol_package")`
abbrev pub package_of : Fields → Option Json
package_of request =
    if is_truthy (get "pilot_package" request)
    then get "pilot_package" request
    else get "protocol_package" request

abbrev pub or_else : Option Json → Option Json → Option Json
or_else none d = d
or_else (some v) d = some v

unfoldable pub package_matches : World → Fields → Fields → Target → Bool
package_matches w fields reservation target =
    w.str (get "repository_id" fields) == target.repository_id
    && is_text (get "repository" fields) target.repository
    && is_num (get "pr_number" fields) target.pr_number
    && is_text (get "head_sha" fields) target.head_sha
    && is_text (or_else (get "base_branch" fields) (get "default_branch" fields))
        target.default_branch
    && is_text (get "workflow_ref" reservation) target.workflow_ref
    && is_text (get "base_sha" fields) target.base_sha
    && is_text (get "tested_merge_sha" fields) target.tested_merge_sha

abbrev pub as_fields : Option Json → Option Fields
as_fields (some (obj fs)) = some fs
as_fields _ = none

-- `_request_matches_target`
unfoldable pub request_matches : World → Fields → Target → Bool
request_matches w request target = elim (as_fields (package_of request)) [
  | none ↦ false
  | some fields ↦ elim (as_fields (get "reservation" request)) [
    | none ↦ false
    | some reservation ↦ package_matches w fields reservation target
  ]
]

-- `set(raw) == {"request_id", kind, "reservation"}`
abbrev has_exactly : String → Fields → Bool
has_exactly kind raw =
    count raw == 3
    && is_some (get "request_id" raw)
    && is_some (get kind raw)
    && is_some (get "reservation" raw)

-- the fields that `expected` names
unfoldable pub reservation_matches : Fields → Target → String → Bool
reservation_matches reservation target nonce =
    is_text (get "repository_id" reservation) target.repository_id
    && is_text (get "repository" reservation) target.repository
    && is_text (get "head_sha" reservation) target.head_sha
    && is_text (get "workflow_ref" reservation) target.workflow_ref
    && is_text (get "nonce" reservation) nonce
    && (not (is_num (get "allocation_reservation_version" reservation) 2)
        || is_num (get "pr_number" reservation) target.pr_number
          && is_text (get "base_sha" reservation) target.base_sha)

abbrev pilot_matches : PilotPackage → Target → ℕ → Bool
pilot_matches p target repository_id =
    p.repository_id == repository_id
    && p.repository == target.repository
    && p.pr_number == target.pr_number
    && p.head_sha == target.head_sha
    && p.base_sha == target.base_sha
    && p.tested_merge_sha == target.tested_merge_sha

-- `raw["pilot_package"]` and its checks
unfoldable pub validate_pilot : World → Json → Fields → Target → Tx (Unit {0})
validate_pilot w raw reservation target = do
  p ← or_raise (w.pilot_package raw w.now) other
  repository_id ← or_raise (w.int target.repository_id) other
  raise_unless (pilot_matches p target repository_id) approval_error
  raise_unless
      (is_text (get "allocation_id" reservation) p.allocation_id
        && is_text (get "scale_set_name" reservation) p.runner_label)
      approval_error

-- `raw["protocol_package"]` and its checks
unfoldable pub validate_protocol : World → Json → Fields → Target → ℕ → String → Tx Fields
validate_protocol w raw reservation target generation nonce = do
  values ← or_raise (w.protocol_package raw) other
  repository_id ← or_raise (w.int target.repository_id) other
  raise_unless
      (is_num (get "repository_id" values) repository_id
        && is_text (get "repository" values) target.repository
        && is_num (get "pr_number" values) target.pr_number
        && is_text (get "head_sha" values) target.head_sha
        && is_num (get "generation" values) generation)
      approval_error
  raise_unless
      (same_text (get "allocation_id" reservation) (get "allocation_id" values)
        && is_text (get "allocation_nonce" values) nonce
        && same_text (get "scale_set_name" reservation) (get "runner_label" values))
      approval_error
  pure values

-- `_validate_request`
unfoldable pub validate_request : World → Fields → Target → ℕ → String → String → Tx Fields
validate_request w raw target generation request_id nonce = do
  raise_unless (has_exactly "protocol_package" raw || has_exactly "pilot_package" raw)
      approval_error
  raise_unless (is_text (get "request_id" raw) request_id) approval_error
  raise_unless (w.reservation_valid (or_null (get "reservation" raw)) w.now) other
  reservation ← or_raise (as_fields (get "reservation" raw)) other
  raise_unless (reservation_matches reservation target nonce) approval_error
  if is_some (get "pilot_package" raw)
      then (do
        validate_pilot w (or_null (get "pilot_package" raw)) reservation target
        pure (
            field "request_id" (text request_id) (
              field "pilot_package" (or_null (get "pilot_package" raw))
                (field "reservation" (obj reservation) end))))
      else (do
        values ←
            validate_protocol w (or_null (get "protocol_package" raw)) reservation target generation
              nonce
        pure (
            field "request_id" (text request_id)
              (field "protocol_package" (obj values) (field "reservation" (obj reservation) end))))
