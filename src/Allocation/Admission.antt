-- ===== src/Allocation/Admission.antt =====
-- `SqliteAllocationLedger.admit`, `reserve`, `finalize`, `bind_scale_set`, and what reads the same
-- columns: `payload`, `reservation`, `scale_set_binding` and `recoverable_allocation_ids`.
use Prim.Native.Nat.{Ordering}
use Prim.Native.String.{compare as compare_text}
use self_hosted_ci.Prelude.{
  ◌||◌, ℕ, String, Bool, false, not, ◌&&◌, Option, none, some, List, [], ◌∷◌, ◌==◌, if◌then◌else◌,
  exists, lookup, update, string_eq,
}
use self_hosted_ci.Json.{Json, obj, Fields, end, field, get, or_null, same_json}
use self_hosted_ci.Texts.{is_positive_decimal}
use self_hosted_ci.Approval.{text_value, optional_text}
use self_hosted_ci.Effects.{
  ◌>>=◌, ◌>>◌, pure, raise, raise_if, raise_unless, or_raise, gets, modify,
}
use self_hosted_ci.Allocation.{jit_error, other, Services}
use self_hosted_ci.Allocation.Payload.{
  as_object, validate_allocation_reservation, verify_allocation, reservation_projection,
}
use self_hosted_ci.Allocation.Rows.{
  State, reserved, issued, is_reserved, AllocationRow, row_key, Tx, is_value,
}

-- what `_digests` returns: those of the nonce and of the whole object
pub record Digests : Type 0 where
  pub binding : String
  pub body : String

-- `_digests`; the object has been validated
unfoldable pub digests : Services → Fields → Tx Digests
digests sv payload = do
  body ← or_raise (sv.canonicalize payload) other
  nonce ← or_raise (sv.canonicalize (field "nonce" (or_null (get "nonce" payload)) end)) other
  pure (record { binding = sv.sha256 nonce; body = sv.sha256 body })

-- `d.get(k, d.get(j))`
abbrev pub get_or : String → String → Fields → Option Json
get_or k j fields = elim (get k fields) [ some v ↦ some v | none ↦ get j fields ]

-- `payload["allocation_id"]`
abbrev pub id_of : Fields → String
id_of payload = text_value (get "allocation_id" payload)

-- the row of a new allocation, with the columns' defaults
abbrev pub new_row : Fields → Digests → State → AllocationRow
new_row payload d state = record {
  allocation_id = id_of payload;
  binding_digest = d.binding;
  payload_digest = d.body;
  state = state;
  outcome = none;
  jobs_started = 0;
  cleanup_complete = false;
  issued_at = none;
  expires_at = optional_text (get_or "approval_expires_at" "expires_at" payload);
  claim_deadline = none;
  recovery_required = false;
  cleanup_pending = false;
  cleanup_idempotency_key = none;
  cleanup_evidence_digest = none;
  payload_json = none;
  scale_set_name = optional_text (get "scale_set_name" payload);
  garm_scale_set_id = none;
  reservation_json = none;
}

abbrev pub issued_row : Fields → Digests → String → AllocationRow
issued_row payload d body = record (new_row payload d issued) {
  issued_at = optional_text (get "issued_at" payload);
  claim_deadline = optional_text (get_or "claim_deadline" "expires_at" payload);
  payload_json = some body;
}

abbrev pub reserved_row : Fields → Digests → String → AllocationRow
reserved_row reservation d body = record (new_row reservation d reserved) {
  issued_at = optional_text (get_or "approval_issued_at" "issued_at" reservation);
  reservation_json = some body;
}

-- Two rows that the table cannot hold both: `allocation_id` is its key, and `binding_digest` is unique.
abbrev pub collides : AllocationRow → AllocationRow → Bool
collides r q = r.allocation_id == q.allocation_id || r.binding_digest == q.binding_digest

-- `INSERT INTO runner_allocations`; an `IntegrityError` otherwise
unfoldable pub insert_row : AllocationRow → Tx (Unit {0})
insert_row row = do
  raise_if (← gets λ s. exists (collides row) s.allocations) other
  modify λ s. record s { allocations = row ∷ s.allocations }

-- an insertion, where the nonce is new
unfoldable pub insert_fresh : AllocationRow → Tx (Unit {0})
unfolding insert_row
insert_fresh row = do
  raise_if (← gets λ s. exists (λ r. r.binding_digest == row.binding_digest) s.allocations)
      jit_error
  insert_row row

unfoldable pub admit : Services → Fields → String → ℕ → Tx String
admit sv envelope pinned_fingerprint now = do
  payload ← verify_allocation sv envelope pinned_fingerprint now
  d ← digests sv payload
  row ← gets λ s. lookup row_key (id_of payload) s.allocations
  elim row [
    | some r ↦
        if r.binding_digest == d.binding && r.payload_digest == d.body
        then pure "idempotent"
        else raise jit_error
    | none ↦ (do
      body ← or_raise (sv.canonicalize payload) other
      insert_fresh (issued_row payload d body)
      pure "issued")
  ]

unfoldable pub reserve : Services → Fields → ℕ → Tx String
reserve sv reservation now = do
  validate_allocation_reservation sv reservation now
  d ← digests sv reservation
  body ← or_raise (sv.canonicalize reservation) other
  row ← gets λ s. lookup row_key (id_of reservation) s.allocations
  elim row [
    | some r ↦
        if r.binding_digest == d.binding && is_value r.reservation_json body
        then pure "idempotent"
        else raise jit_error
    | none ↦ (do insert_fresh (reserved_row reservation d body); pure "reserved")
  ]

-- `json.loads(row[1]) if row[1] else None`
unfoldable pub stored_object : Services → Option String → Tx Json
stored_object sv none = pure Json.null
stored_object sv (some s) = if s == "" then pure Json.null else or_raise (sv.loads s) other

-- an allocation that has its payload
abbrev pub finalized : Fields → String → String → AllocationRow → AllocationRow
finalized payload digest body r = record r {
  payload_digest = digest;
  payload_json = some body;
  state = issued;
  issued_at = optional_text (get "issued_at" payload);
  claim_deadline = optional_text (get_or "claim_deadline" "expires_at" payload);
}

unfoldable pub finalize : Services → Fields → String → ℕ → Tx String
unfolding stored_object
finalize sv envelope pinned_fingerprint now = do
  payload ← verify_allocation sv envelope pinned_fingerprint now
  body ← or_raise (sv.canonicalize payload) other
  row ← or_raise (← gets λ s. lookup row_key (id_of payload) s.allocations) jit_error
  elim row.payload_json [
    | some known ↦ if known == body then pure "idempotent" else raise jit_error
    | none ↦ (do
      reservation ← stored_object sv row.reservation_json
      raise_unless
          (is_reserved row.state && same_json (obj (reservation_projection payload)) reservation)
          jit_error
      modify λ s. record s {
        allocations =
            update row_key (id_of payload) (finalized payload (sv.sha256 body) body) s.allocations;
      }
      pure "issued")
  ]

-- a column that holds an object
unfoldable pub read_object : Services → Option String → Tx Fields
read_object sv none = raise jit_error
read_object sv (some s) = do
  raise_if (s == "") jit_error
  value ← or_raise (sv.loads s) other
  or_raise (as_object (some value)) jit_error

unfoldable pub payload : Services → String → Tx Fields
unfolding read_object
payload sv allocation_id = do
  row ← or_raise (← gets λ s. lookup row_key allocation_id s.allocations) jit_error
  read_object sv row.payload_json

unfoldable pub reservation : Services → String → Tx Fields
unfolding read_object
reservation sv allocation_id = do
  row ← or_raise (← gets λ s. lookup row_key allocation_id s.allocations) jit_error
  read_object sv row.reservation_json

unfoldable pub bind_scale_set : String → String → String → Tx String
bind_scale_set allocation_id scale_set_id scale_set_name = do
  raise_unless (is_positive_decimal scale_set_id) jit_error
  row ← or_raise (← gets λ s. lookup row_key allocation_id s.allocations) jit_error
  raise_unless (is_value row.scale_set_name scale_set_name) jit_error
  elim row.garm_scale_set_id [
    | some known ↦ if known == scale_set_id then pure "idempotent" else raise jit_error
    | none ↦ (do
      modify λ s. record s {
        allocations =
            update row_key allocation_id (λ r. record r { garm_scale_set_id = some scale_set_id })
              s.allocations;
      }
      pure "bound")
  ]

-- a text that is not empty
abbrev pub has_text : Option String → Bool
has_text none = false
has_text (some s) = not (s == "")

abbrev pub text_of : Option String → String
text_of none = ""
text_of (some s) = s

-- the scale set's name and id
unfoldable pub scale_set_binding : String → Tx (String × String)
scale_set_binding allocation_id = do
  row ← or_raise (← gets λ s. lookup row_key allocation_id s.allocations) jit_error
  raise_unless (has_text row.scale_set_name && has_text row.garm_scale_set_id) jit_error
  pure (text_of row.scale_set_name, text_of row.garm_scale_set_id)

-- `ORDER BY allocation_id`
unfoldable pub insert_sorted : String → List String → List String
insert_sorted k [] = k ∷ []
insert_sorted k (j ∷ js) =
    let rest = insert_sorted k js in
    elim (compare_text k j) [ Ordering.gt ↦ j ∷ rest | _ ↦ k ∷ j ∷ js ]

unfoldable pub recoverable : List AllocationRow → List String
unfolding insert_sorted
recoverable [] = []
recoverable (r ∷ rows) =
    if r.cleanup_complete
    then recoverable rows
    else insert_sorted r.allocation_id (recoverable rows)

unfoldable pub recoverable_allocation_ids : Tx (List String)
unfolding recoverable
recoverable_allocation_ids = gets λ s. recoverable s.allocations
