-- ===== src/CheckDelivery/Transport.antt =====
-- github_automation/github_adapter.py: `GitHubCheckTransport`, the concrete transport of one App token;
-- of github_automation/github.py the authority that it checks.
use Prim.Native.String.{◌++◌ as append}
use self_hosted_ci.Prelude.{
  ℕ, String, Bool, not, ◌&&◌, ◌||◌, Option, none, some, ◌==◌, is_some, ltb, leb, if◌then◌else◌,
  nat_eq, string_eq,
}
use self_hosted_ci.Json.{
  Json, Fields, obj, text, end, field, get, count, or_null, is_num, same_json,
}
use self_hosted_ci.Effects.{Act, ◌>>=◌, ◌>>◌, pure, raise_if, raise_unless, or_raise, translate}
use self_hosted_ci.Effects
use self_hosted_ci.CheckDelivery.{Outcome, ok, err, ambiguous_write, transport, CheckTransport}

-- `AmbiguousCheckWrite`, `GitHubAdapterError`, `ControlFailure`, and what else a call raises
pub data AdapterError : Type 0 where
  ambiguous adapter_error control_failure other : AdapterError

-- what of `AppAuthorityV1` the transport reads
pub record AppAuthority : Type 0 where
  pub repository : String
  pub repository_id : ℕ
  pub installation_id : ℕ
  pub permissions : Fields
  pub key_state : String

-- `InstallationToken`; the expiry is in microseconds
pub record InstallationToken : Type 0 where
  pub value : String
  pub expires_at : ℕ
  pub repository : String
  pub repository_id : ℕ
  pub installation_id : ℕ
  pub permissions : Fields

pub record HttpResponse : Type 0 where
  pub status : ℕ
  pub body : String

-- The adapter on states of type `S`: its token and authority, `HTTPTransport.request` with the method,
-- the URL, the headers and the body, the clock, `json.loads` that rejects duplicate keys, and the text
-- of a number.
pub record GitHubCheckTransport (S : Type 0) : Type 0 where
  pub token : InstallationToken
  pub authority : AppAuthority
  pub request : String → String → Fields → Option Fields → Act AdapterError S HttpResponse
  pub clock : S → ℕ
  pub loads : String → Option Json
  pub decimal : ℕ → String

-- `InstallationToken.assert_current` passes.
unfoldable pub is_current : InstallationToken → AppAuthority → ℕ → Bool
is_current t a now = not (
    leb t.expires_at now
    || not (t.repository == a.repository)
    || not (t.repository_id == a.repository_id)
    || not (t.installation_id == a.installation_id)
    || not (same_json (obj t.permissions) (obj a.permissions))
    || not (a.key_state == "active"))

-- `AppAuthorityV1.permits`
unfoldable pub permits : AppAuthority → String → String → ℕ → Bool
permits a operation repository installation_id =
    a.key_state == "active"
    && not (not (repository == a.repository) || not (installation_id == a.installation_id))
    && (operation == "checks:create"
        || operation == "checks:update"
        || operation == "metadata:read")

module _ {S : Type 0} (g : GitHubCheckTransport S) where
  unfoldable pub authorize : String → Act AdapterError S (Unit {0})
  authorize operation s =
      if not (is_current g.token g.authority (g.clock s))
      then (Effects.err control_failure, s)
      else if not (permits g.authority operation g.token.repository g.token.installation_id)
      then (Effects.err control_failure, s)
      else (Effects.ok tt, s)

  abbrev pub url : String → String
  url path = append "https://api.github.com" (append "/repos/" (append g.authority.repository path))

  abbrev pub headers : Fields
  headers = field "Accept" (text "application/vnd.github+json") (
      field "Authorization" (text (append "Bearer " g.token.value))
        (field "X-GitHub-Api-Version" (text "2026-03-10") end))

  abbrev pub check_path : ℕ → String
  check_path id = append "/check-runs/" (g.decimal id)

  abbrev pub as_mapping : Option Json → Option Fields
  as_mapping (some (obj fs)) = some fs
  as_mapping _ = none

  -- `_expected_json` with `_json_mapping`
  unfoldable pub expected_json : HttpResponse → ℕ → Act AdapterError S Fields
  expected_json response status = do
    raise_unless (response.status == status) adapter_error
    or_raise (as_mapping (g.loads response.body)) adapter_error

  -- `_check_id` of an integer
  abbrev pub check_id : ℕ → Act AdapterError S (Unit {0})
  check_id id = raise_if (ltb id 1) control_failure

  unfoldable pub send : String → String → Fields → ℕ → Act AdapterError S Fields
  send method path payload status = do
    authorize (if method == "POST" then "checks:create" else "checks:update")
    response ← g.request method (url path) headers (some payload)
    expected_json response status

  abbrev is_update : Fields → Bool
  is_update payload =
      count payload == 3
      && is_some (get "conclusion" payload)
      && is_some (get "head_sha" payload)
      && is_some (get "external_id" payload)

  abbrev pub wire_payload : Fields → Fields
  wire_payload payload =
      field "external_id" (or_null (get "external_id" payload))
        (field "conclusion" (or_null (get "conclusion" payload)) end)

  abbrev same_field : String → Fields → Fields → Bool
  same_field k payload observed = same_json (or_null (get k payload)) (or_null (get k observed))

  -- The response shows the fields that were expected.
  abbrev pub is_expected : ℕ → Fields → Fields → Bool
  is_expected id payload observed =
      is_num (get "id" observed) id
      && same_field "head_sha" payload observed
      && same_field "external_id" payload observed
      && same_field "conclusion" payload observed

  -- `except GitHubAdapterError`
  abbrev pub as_ambiguous : AdapterError → AdapterError
  as_ambiguous adapter_error = ambiguous
  as_ambiguous e = e

  unfoldable pub patch_exact : ℕ → Fields → Act AdapterError S (Unit {0})
  patch_exact id payload = do
    raise_unless (is_update payload) control_failure
    check_id id
    observed ← translate as_ambiguous (send "PATCH" (check_path id) (wire_payload payload) 200)
    raise_unless (is_expected id payload observed) ambiguous

  unfoldable pub get_exact : ℕ → Act AdapterError S Fields
  get_exact id = do
    authorize "metadata:read"
    check_id id
    response ← g.request "GET" (url (check_path id)) headers none
    observed ← expected_json response 200
    raise_unless (is_num (get "id" observed) id) adapter_error
    pure observed

  -- what `deliver_exact` tells apart: an `AmbiguousCheckWrite` from all else
  abbrev pub lowered : {A : Type 0} → Effects.Outcome AdapterError A → Outcome A
  lowered (Effects.ok a) = ok a
  lowered (Effects.err ambiguous) = err ambiguous_write
  lowered (Effects.err adapter_error) = err transport
  lowered (Effects.err control_failure) = err transport
  lowered (Effects.err other) = err transport

  abbrev pub check_transport : CheckTransport S
  check_transport = record {
    patch_exact = λ s id payload. let (r, t) = patch_exact id payload s in (lowered r, t);
    get_exact = λ s id. let (r, t) = get_exact id s in (lowered r, t);
  }
