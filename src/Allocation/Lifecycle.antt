-- ===== src/Allocation/Lifecycle.antt =====
-- `SqliteAllocationLedger.transition` and `get`: the life of an allocation.
mod Actions
unfoldable pub use Actions.*
use self_hosted_ci.Prelude.{
  ℕ, ◌+◌, ◌*◌, String, Bool, true, false, not, ◌&&◌, ◌||◌, Option, none, some, [], ◌∷◌, ltb, leb,
  ◌==◌, if◌then◌else◌, is_none, lookup, update, nat_eq, string_eq,
}
use self_hosted_ci.Json.{Json, text, Fields, end, field, get, is_num, is_text, is_true}
use self_hosted_ci.Registry.{is_null}
use self_hosted_ci.Effects.{
  ◌>>=◌, ◌>>◌, pure, raise, raise_if, raise_unless, or_raise, gets, modify,
}
use self_hosted_ci.Allocation.{jit_error, claim_expired, invalid_transition, other, Services}
use self_hosted_ci.Allocation.Formats.{parse_time}
use self_hosted_ci.Allocation.Payload.{has_exactly}
use self_hosted_ci.Allocation.Rows.{
  State, running, terminal, recovery_required, cleaned, is_reserved, is_issued, is_running,
  is_terminal, is_recovery_required, is_cleaned, AllocationRow, row_key, Tx, is_terminal_outcome,
  is_value, same_value,
}

pub record AllocationRecord : Type 0 where
  pub allocation_id : String
  pub columns : Columns
  pub issued_at : ℕ
  pub expires_at : ℕ
  pub claim_deadline : ℕ

-- `claim_deadline_text or expires_text`
abbrev pub or_else : Option String → String → String
or_else none t = t
or_else (some s) t = if s == "" then t else s

pub record Times : Type 0 where
  pub issued_at : ℕ
  pub expires_at : ℕ
  pub claim_deadline : ℕ

unfoldable pub read_times : Services → AllocationRow → Tx Times
read_times sv r = do
  issued_text ← or_raise r.issued_at jit_error
  expires_text ← or_raise r.expires_at jit_error
  issued_at ← or_raise (parse_time sv.from_isoformat issued_text) jit_error
  expires_at ← or_raise (parse_time sv.from_isoformat expires_text) jit_error
  claim_deadline ←
      or_raise (parse_time sv.from_isoformat (or_else r.claim_deadline expires_text)) jit_error
  pure (record { issued_at = issued_at; expires_at = expires_at; claim_deadline = claim_deadline })

abbrev pub record_of : String → Columns → Times → AllocationRecord
record_of allocation_id c t = record {
  allocation_id = allocation_id;
  columns = c;
  issued_at = t.issued_at;
  expires_at = t.expires_at;
  claim_deadline = t.claim_deadline;
}

-- what the action has decided, made durable
unfoldable pub write : String → AllocationRow → Times → Option Columns → Tx AllocationRecord
write allocation_id r t none = pure (record_of allocation_id (columns_of r) t)
write allocation_id r t (some c) = do
  modify λ s. record s { allocations = update row_key allocation_id (with_columns c) s.allocations }
  pure (record_of allocation_id c t)

abbrev lacks_now : Action → Arguments → Bool
lacks_now admit_job q = is_none q.now
lacks_now _ q = false

unfoldable pub transition : Services → String → String → Arguments → Tx AllocationRecord
unfolding decide read_times write
transition sv allocation_id name q = do
  action ← or_raise (action_of name) jit_error
  raise_if (lacks_now action q) jit_error
  row ← or_raise (← gets λ s. lookup row_key allocation_id s.allocations) jit_error
  t ← read_times sv row
  change ← decide sv action q row t.issued_at t.claim_deadline
  write allocation_id row t change

-- `get`
unfoldable pub get_record : Services → String → Tx AllocationRecord
unfolding read_times
get_record sv allocation_id = do
  row ← or_raise (← gets λ s. lookup row_key allocation_id s.allocations) jit_error
  t ← read_times sv row
  pure (record_of allocation_id (columns_of row) t)
