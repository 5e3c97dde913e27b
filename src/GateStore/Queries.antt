-- ===== src/GateStore/Queries.antt =====
-- The statements and the private helpers that the methods share.
use self_hosted_ci.Prelude.{
  ℕ, String, Bool, false, ◌&&◌, ◌||◌, Option, none, some, List, [], ◌∷◌, ltb, leb, ◌==◌,
  if◌then◌else◌, is_none, is_some, exists, lookup, update, pair_eq, nat_eq, string_eq,
}
use self_hosted_ci.GateStore.Rows.{
  GateRow, NonceRow, AdmissionRow, OutboxRow, gate_key, nonce_key, admission_key, outbox_row_key,
}
use self_hosted_ci.GateStore.Monad.{
  Tx, gets, modify, or_raise, raise_if, raise_unless, ◌>>=◌, ◌>>◌, fenced, control_failure,
  integrity,
}

-- the greater of a generation and those seen so far
abbrev pub later : ℕ → Option ℕ → ℕ
later g none = g
later g (some h) = if ltb h g then g else h

-- `SELECT MAX(generation) FROM gates WHERE logical_key=?`
unfoldable pub max_generation : String → List GateRow → Option ℕ
max_generation key [] = none
max_generation key (r ∷ rows) =
    let rest = max_generation key rows in
    if r.logical_key == key then some (later r.generation rest) else rest

unfoldable pub select_gate : String → ℕ → List GateRow → Option GateRow
select_gate key generation = lookup gate_key (key, generation)

-- `… WHERE logical_key=? ORDER BY generation DESC LIMIT 1`
unfoldable pub latest_gate : String → List GateRow → Option GateRow
latest_gate key rows = elim (max_generation key rows) [
  | none ↦ none
  | some g ↦ select_gate key g rows
]

unfoldable pub update_gate : String → ℕ → (GateRow → GateRow) → Tx (Unit {0})
update_gate key generation f =
    modify λ db. record db { gates = update gate_key (key, generation) f db.gates }

-- `INSERT INTO gates`: the CHECK constraints and the primary key
unfoldable pub insert_gate : GateRow → Tx (Unit {0})
insert_gate row = do
  raise_unless (ltb 0 row.generation && ltb 0 row.head_generation && ltb 0 row.lease_epoch)
      integrity
  raise_if (is_some (← gets λ db. select_gate row.logical_key row.generation db.gates)) integrity
  modify λ db. record db { gates = row ∷ db.gates }

unfoldable pub insert_nonce : NonceRow → Tx (Unit {0})
insert_nonce row = do
  raise_if (is_some (← gets λ db. lookup nonce_key (nonce_key row) db.nonce_bindings)) integrity
  modify λ db. record db { nonce_bindings = row ∷ db.nonce_bindings }

-- Does a row hold one of the values that the new row may not repeat?
abbrev clashes : AdmissionRow → AdmissionRow → Bool
clashes row r =
    admission_key r == admission_key row
    || r.admission_id == row.admission_id
    || r.admission_digest == row.admission_digest
    || r.marker_digest == row.marker_digest

-- `INSERT INTO admissions`: the primary key, the UNIQUE columns and the foreign key
unfoldable pub insert_admission : AdmissionRow → Tx (Unit {0})
insert_admission row = do
  raise_if (← gets λ db. exists (clashes row) db.admissions) integrity
  raise_if (is_none (← gets λ db. select_gate row.logical_key row.generation db.gates)) integrity
  modify λ db. record db { admissions = row ∷ db.admissions }

-- `INSERT INTO outbox`: the primary key and the foreign key
unfoldable pub insert_outbox : OutboxRow → Tx (Unit {0})
insert_outbox row = do
  raise_if (is_some (← gets λ db. lookup outbox_row_key row.outbox_key db.outbox)) integrity
  raise_if (is_none (← gets λ db. select_gate row.logical_key row.generation db.gates)) integrity
  modify λ db. record db { outbox = row ∷ db.outbox }

-- what a caller says that it holds
pub record Lease : Type 0 where
  pub logical_key : String
  pub generation : ℕ
  pub owner : String
  pub lease_epoch : ℕ

abbrev is_current : Option ℕ → ℕ → Bool
is_current none generation = false
is_current (some g) generation = g == generation

-- `GateStore._owned`
unfoldable pub owned : Lease → ℕ → Tx GateRow
owned l now = do
  raise_unless (is_current (← gets λ db. max_generation l.logical_key db.gates) l.generation) fenced
  row ← or_raise (← gets λ db. select_gate l.logical_key l.generation db.gates) fenced
  raise_unless (row.owner == l.owner && row.lease_epoch == l.lease_epoch) fenced
  raise_if (leb row.lease_expires_at now) fenced
  gets λ _. row

-- `GateStore._require_admission`
unfoldable pub require_admission : String → ℕ → String → String → Tx AdmissionRow
require_admission key generation id digest = do
  row ← or_raise (← gets λ db. lookup admission_key (key, generation) db.admissions) control_failure
  raise_unless (row.admission_id == id && row.admission_digest == digest) control_failure
  gets λ _. row
