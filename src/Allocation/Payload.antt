-- ===== src/Allocation/Payload.antt =====
-- Allocations and reservations: `validate_allocation_payload`, `validate_allocation_reservation`,
-- `reservation_projection`, `sign_allocation` and `verify_allocation`. They read and write no state.
mod Checks
pub use Checks.*
use Prim.Native.String.{◌++◌ as ◌+++◌}
use self_hosted_ci.Prelude.{
  ℕ, ◌+◌, ◌*◌, String, Bool, true, false, not, ◌&&◌, ◌||◌, Option, none, some, List, [], ◌∷◌, ◌++◌,
  ltb, leb, ◌==◌, if◌then◌else◌, is_some, exists, string_eq, nat_eq,
}
use self_hosted_ci.Json.{
  Json, num, text, arr, obj, nil, cons, Fields, end, field, get, put, is_num, is_text, is_true,
  or_null, same_json,
}
use self_hosted_ci.Texts.{is_digest, is_positive_decimal, is_repository, is_sha}
use self_hosted_ci.Registry.{all_known, is_null, is_positive, is_text_with}
use self_hosted_ci.Effects.{
  Outcome, ok, err, Act, ◌>>=◌, ◌>>◌, pure, raise, raise_if, raise_unless, or_raise,
}
use self_hosted_ci.Allocation.{
  Failure, jit_error, approval_expired, claim_expired, temporal_error, other, Services,
}
use self_hosted_ci.Allocation.Formats.{
  is_workflow_ref, is_nonce, is_transient_label, is_label, is_job_name, is_runner_group, take_text,
  parse_time,
}

module _ {S : Type 0} where
  -- `_validate_uuid` and the nonce's check, then the label
  unfoldable pub allocation_scale_set_name : Services → Fields → Act Failure S String
  allocation_scale_set_name sv payload = do
    raise_unless (is_text_with sv.is_uuid (get "allocation_id" payload)) jit_error
    raise_unless (is_text_with is_nonce (get "nonce" payload)) jit_error
    body ←
        or_raise
          (sv.canonicalize (
            field "allocation_id" (or_null (get "allocation_id" payload))
              (field "nonce" (or_null (get "nonce" payload)) end)))
          other
    pure ("wsl-jit-" +++ take_text 32 (sv.sha256 body))

  -- `_parse_time`
  unfoldable pub read_time : Services → Option Json → Act Failure S ℕ
  read_time sv (some (text s)) = or_raise (parse_time sv.from_isoformat s) jit_error
  read_time sv _ = raise jit_error

module _ {S : Type 0} where
  -- the end of the period in which an allocation may be claimed
  unfoldable pub read_deadline : Services → Fields → ℕ → Act Failure S ℕ
  unfolding read_time
  read_deadline sv payload issued =
      if is_num (get "runner_allocation_version" payload) 1
      then (do
        deadline ← read_time sv (get "expires_at" payload)
        raise_unless (lasts issued deadline 5) temporal_error
        pure deadline)
      else (do
        approval_issued ← read_time sv (get "approval_issued_at" payload)
        approval_expires ← read_time sv (get "approval_expires_at" payload)
        raise_unless (lasts approval_issued approval_expires 5) temporal_error
        deadline ← read_time sv (get "claim_deadline" payload)
        raise_unless (lasts issued deadline 15) temporal_error
        pure deadline)

  unfoldable pub validate_allocation_payload : Services → Fields → ℕ → Act Failure S (Unit {0})
  validate_allocation_payload sv payload now = do
    raise_if (is_unhashable (get "runner_allocation_version" payload)) other
    raise_unless (is_version (get "runner_allocation_version" payload)) jit_error
    raise_unless
        (has_exactly (payload_fields (is_num (get "runner_allocation_version" payload) 1)) payload)
        jit_error
    raise_unless (is_identity sv payload) jit_error
    name ← allocation_scale_set_name sv payload
    raise_unless (has_label name payload && is_single_job payload) jit_error
    issued ← read_time sv (get "issued_at" payload)
    deadline ← read_deadline sv payload issued
    raise_if (ltb (now + 30 * 1000000) issued || leb deadline now) claim_expired
    body ← or_raise (sv.canonicalize payload) other
    pure tt

-- the fields that are not named
unfoldable pub without : List String → Fields → Fields
without names end = end
without names (field k v fields) =
    if exists (λ n. n == k) names then without names fields else field k v (without names fields)

-- the payload that stands for a reservation, of the first version
abbrev pub synthetic : Fields → Fields
synthetic reservation =
    let bound =
      without
        ("allocation_reservation_version" ∷ "pr_number" ∷ "base_sha" ∷ "approval_issued_at"
          ∷ "approval_expires_at" ∷ [])
        reservation in
    let timed =
      if is_num (get "allocation_reservation_version" reservation) 2
      then put "expires_at" (or_null (get "approval_expires_at" reservation))
          (put "issued_at" (or_null (get "approval_issued_at" reservation)) bound)
      else bound in
    put "tested_sha" (or_null (get "head_sha" reservation)) (
      put "dispatch_sha" (or_null (get "head_sha" reservation)) (
        put "job_id" (text "1") (
          put "run_attempt" (num 1)
            (put "run_id" (text "1") (put "runner_allocation_version" (num 1) timed)))))

-- an object, and the version of an allocation that has been validated
abbrev pub as_object : Option Json → Option Fields
as_object (some (obj fs)) = some fs
as_object _ = none

abbrev pub version_of : Fields → ℕ
version_of payload = if is_num (get "runner_allocation_version" payload) 1 then 1 else 2

abbrev is_temporal : Failure → Bool
is_temporal approval_expired = true
is_temporal claim_expired = true
is_temporal temporal_error = true
is_temporal _ = false

-- `except RunnerJitTemporalError`
abbrev expires : {A : Type 0} → Outcome Failure A → Outcome Failure A
expires (ok a) = ok a
expires (err e) = err (if is_temporal e then approval_expired else e)

module _ {S : Type 0} where
  unfoldable pub validate_synthetic : Services → Fields → ℕ → Act Failure S (Unit {0})
  validate_synthetic sv reservation now s =
      let (r, t) = validate_allocation_payload sv (synthetic reservation) now s in (expires r, t)

  unfoldable pub validate_allocation_reservation : Services → Fields → ℕ → Act Failure S (Unit {0})
  validate_allocation_reservation sv reservation now = do
    let version = get "allocation_reservation_version" reservation
    raise_if (is_unhashable version) other
    raise_unless
        (is_version version
          && has_exactly
              (if is_num version 1 then legacy_reservation_fields else reservation_v2_fields)
              reservation)
        jit_error
    raise_unless (not (is_num version 2) || is_pull reservation) jit_error
    validate_synthetic sv reservation now

  unfoldable pub verify_allocation : Services → Fields → String → ℕ → Act Failure S Fields
  verify_allocation sv envelope pinned_fingerprint now = do
    raise_unless (has_exactly ("payload" ∷ "signer_fingerprint" ∷ "signature" ∷ []) envelope)
        jit_error
    raise_unless
        (is_digest pinned_fingerprint
          && is_text (get "signer_fingerprint" envelope) pinned_fingerprint
          && sv.fingerprint == pinned_fingerprint)
        jit_error
    payload ← or_raise (as_object (get "payload" envelope)) jit_error
    validate_allocation_payload sv payload now
    raise_unless (sv.verify payload (or_null (get "signature" envelope)) (version_of payload))
        jit_error
    pure payload

  unfoldable pub sign_allocation : Services → Fields → ℕ → Act Failure S Fields
  sign_allocation sv payload now = do
    validate_allocation_payload sv payload now
    pure (
        field "payload" (obj payload) (
          field "signer_fingerprint" (text sv.fingerprint)
            (field "signature" (sv.sign payload (version_of payload)) end)))

-- what of a payload its reservation already says
unfoldable pub reservation_projection : Fields → Fields
unfolding without
reservation_projection payload =
    put "allocation_reservation_version" (or_null (get "runner_allocation_version" payload)) (
      without
        (if is_num (get "runner_allocation_version" payload) 2
          then "issued_at" ∷ "claim_deadline" ∷ run_fields
          else "claim_deadline" ∷ run_fields)
        payload)
