-- ===== src/GateStore/Rows.antt =====
-- The tables of `GateStore._initialize` and the dataclasses `Gate`, `Admission`, `Completion`.
-- An instant is its UTC time in microseconds; texts are compared whole.
use self_hosted_ci.Prelude.{
  ℕ, String, ◌≡◌, ◌↔◌, Bool, true, false, Option, List, Eq, pair_eq, arith,
}

pub data Winner : Type 0 where
  local github : Winner

pub data ResultKind : Type 0 where
  success functional_failure : ResultKind

pub data Delivery : Type 0 where
  pending delivered : Delivery

abbrev pub winner_beq : Winner → Winner → Bool
winner_beq local local = true
winner_beq github github = true
winner_beq _ _ = false

pub winner_beq_iff : (a b : Winner) → (winner_beq a b ≡ true) ↔ (a ≡ b)
winner_beq_iff a b = (λ h. ground arith, λ h. ground arith)

instance abbrev pub winner_eq : Eq Winner
winner_eq = record { beq = winner_beq; beq_iff = winner_beq_iff }

abbrev pub result_kind_beq : ResultKind → ResultKind → Bool
result_kind_beq success success = true
result_kind_beq functional_failure functional_failure = true
result_kind_beq _ _ = false

pub result_kind_beq_iff : (a b : ResultKind) → (result_kind_beq a b ≡ true) ↔ (a ≡ b)
result_kind_beq_iff a b = (λ h. ground arith, λ h. ground arith)

instance abbrev pub result_kind_eq : Eq ResultKind
result_kind_eq = record { beq = result_kind_beq; beq_iff = result_kind_beq_iff }

-- the values of the columns `winner` and `result_kind`
abbrev pub winner_text : Winner → String
winner_text local = "local"
winner_text github = "github"

abbrev pub result_kind_text : ResultKind → String
result_kind_text success = "success"
result_kind_text functional_failure = "functional_failure"

pub record HeadRow : Type 0 where
  pub repository_id : String
  pub pr_number : ℕ
  pub head_sha : String
  pub head_generation : ℕ

pub record GateRow : Type 0 where
  pub logical_key : String
  pub generation : ℕ
  pub head_generation : ℕ
  pub base_sha : String
  pub tested_merge_sha : String
  pub owner : String
  pub lease_epoch : ℕ
  pub lease_expires_at : ℕ
  pub check_run_id : ℕ
  pub winner : Option Winner
  pub result_kind : Option ResultKind
  pub evidence_digest : Option String
  pub terminal_json : Option String
  pub created_at : ℕ
  pub updated_at : ℕ

pub record NonceRow : Type 0 where
  pub attestation_id : String
  pub nonce_hash : String
  pub logical_key : String
  pub generation : ℕ
  pub head_generation : ℕ
  pub envelope_digest : String
  pub target_digest : String
  pub bound_at : ℕ

pub record AdmissionRow : Type 0 where
  pub logical_key : String
  pub generation : ℕ
  pub admission_id : String
  pub admission_digest : String
  pub marker_core_digest : String
  pub marker_digest : String
  pub authority_json : String
  pub execution_json : String
  pub started_at : ℕ
  pub execution_deadline : ℕ

pub record OutboxRow : Type 0 where
  pub outbox_key : String
  pub logical_key : String
  pub generation : ℕ
  pub winner : Winner
  pub evidence_digest : String
  pub check_run_id : ℕ
  pub payload_json : String
  pub state : Delivery
  pub attempts : ℕ
  pub created_at : ℕ
  pub delivered_at : Option ℕ

-- the database
pub record Db : Type 0 where
  pub heads : List HeadRow
  pub gates : List GateRow
  pub nonce_bindings : List NonceRow
  pub admissions : List AdmissionRow
  pub outbox : List OutboxRow

-- the primary keys
abbrev pub GateKey : Type 0
GateKey = String × ℕ

abbrev pub head_key : HeadRow → String × ℕ
head_key r = (r.repository_id, r.pr_number)

abbrev pub gate_key : GateRow → GateKey
gate_key r = (r.logical_key, r.generation)

abbrev pub nonce_key : NonceRow → String × String
nonce_key r = (r.attestation_id, r.nonce_hash)

abbrev pub admission_key : AdmissionRow → GateKey
admission_key r = (r.logical_key, r.generation)

abbrev pub outbox_row_key : OutboxRow → String
outbox_row_key r = r.outbox_key

pub record Gate : Type 0 where
  pub logical_key : String
  pub generation : ℕ
  pub head_generation : ℕ
  pub owner : String
  pub lease_epoch : ℕ
  pub lease_expires_at : ℕ
  pub base_sha : String
  pub tested_merge_sha : String
  pub check_run_id : ℕ
  pub winner : Option Winner
  pub result_kind : Option ResultKind
  pub evidence_digest : Option String

pub record Admission : Type 0 where
  pub admission_id : String
  pub admission_digest : String
  pub marker_digest : String
  pub started_at : ℕ
  pub execution_deadline : ℕ

pub data CompletionStatus : Type 0 where
  committed idempotent : CompletionStatus

pub record Completion : Type 0 where
  pub status : CompletionStatus
  pub winner : Winner
  pub result_kind : ResultKind
  pub evidence_digest : String
  pub outbox_key : String

abbrev pub gate_from_row : GateRow → Gate
gate_from_row r = record {
  logical_key = r.logical_key;
  generation = r.generation;
  head_generation = r.head_generation;
  owner = r.owner;
  lease_epoch = r.lease_epoch;
  lease_expires_at = r.lease_expires_at;
  base_sha = r.base_sha;
  tested_merge_sha = r.tested_merge_sha;
  check_run_id = r.check_run_id;
  winner = r.winner;
  result_kind = r.result_kind;
  evidence_digest = r.evidence_digest;
}

abbrev pub admission_from_row : AdmissionRow → Admission
admission_from_row r = record {
  admission_id = r.admission_id;
  admission_digest = r.admission_digest;
  marker_digest = r.marker_digest;
  started_at = r.started_at;
  execution_deadline = r.execution_deadline;
}
