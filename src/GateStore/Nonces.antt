-- ===== src/GateStore/Nonces.antt =====
-- `GateStore.bind_attestation_nonce`.
use self_hosted_ci.Prelude.{
  ℕ, String, Bool, ◌&&◌, none, some, ◌==◌, if◌then◌else◌, lookup, pair_eq, nat_eq, string_eq,
}
use self_hosted_ci.Json.{Fields}
use self_hosted_ci.GateStore.Rows.{NonceRow, nonce_key}
use self_hosted_ci.GateStore.Monad.{
  Tx, Services, pure, raise, gets, or_raise, raise_unless, transaction, ◌>>=◌, ◌>>◌, fenced, replay,
}
use self_hosted_ci.GateStore.Queries.{select_gate, insert_nonce}

pub record Binding : Type 0 where
  pub attestation_id : String
  pub nonce_hash : String
  pub logical_key : String
  pub generation : ℕ
  pub expected_head_generation : ℕ
  pub envelope_digest : String
  pub target : Fields

pub data BindStatus : Type 0 where
  bound idempotent : BindStatus

abbrev pub binding_row : Services → Binding → ℕ → NonceRow
binding_row env b now = record {
  attestation_id = b.attestation_id;
  nonce_hash = b.nonce_hash;
  logical_key = b.logical_key;
  generation = b.generation;
  head_generation = b.expected_head_generation;
  envelope_digest = b.envelope_digest;
  target_digest = env.sha256 (env.dumps b.target);
  bound_at = now;
}

-- `persisted == candidate`
abbrev pub same_candidate : NonceRow → NonceRow → Bool
same_candidate r c =
    r.logical_key == c.logical_key
    && r.generation == c.generation
    && r.head_generation == c.head_generation
    && r.envelope_digest == c.envelope_digest
    && r.target_digest == c.target_digest

unfoldable pub bind_in : Binding → NonceRow → Tx BindStatus
bind_in b row = do
  gate ← or_raise (← gets λ db. select_gate b.logical_key b.generation db.gates) fenced
  raise_unless (gate.head_generation == b.expected_head_generation) fenced
  found ← gets λ db. lookup nonce_key (b.attestation_id, b.nonce_hash) db.nonce_bindings
  elim found [
    | some existing ↦ if same_candidate existing row then pure idempotent else raise replay
    | none ↦ do insert_nonce row; pure bound
  ]

unfoldable pub bind_attestation_nonce : Services → Binding → ℕ → Tx BindStatus
bind_attestation_nonce env b now = transaction (bind_in b (binding_row env b now))
