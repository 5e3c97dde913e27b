-- ===== src/GateStore/Leases.antt =====
-- `GateStore.acquire` and `GateStore.heartbeat`. A `timedelta` is an integer of microseconds.
use self_hosted_ci.Prelude.{
  ℕ, ◌+◌, String, Bool, false, not, ◌&&◌, ◌||◌, Option, none, some, ltb, ◌==◌, if◌then◌else◌,
  is_some, ℤ, pos, negsuc, add_ℤ, nat_eq, string_eq,
}
use self_hosted_ci.GateStore.Rows.{GateRow, Gate, gate_from_row}
use self_hosted_ci.GateStore.Monad.{
  Tx, pure, gets, or_raise, raise_if, transaction, ◌>>=◌, ◌>>◌, value_error, conflict, type_error,
}
use self_hosted_ci.GateStore.Queries.{
  Lease, select_gate, latest_gate, update_gate, insert_gate, owned,
}

pub record Acquisition : Type 0 where
  pub logical_key : String
  pub head_generation : ℕ
  pub base_sha : String
  pub tested_merge_sha : String
  pub owner : String
  pub check_run_id : ℕ
  pub lease_ttl : ℤ

-- `lease_ttl <= timedelta(0)`
abbrev pub is_positive : ℤ → Bool
is_positive (pos d) = ltb 0 d
is_positive (negsuc d) = false

abbrev pub same_tuple : Acquisition → GateRow → Bool
same_tuple a r =
    r.head_generation == a.head_generation
    && r.base_sha == a.base_sha
    && r.tested_merge_sha == a.tested_merge_sha

abbrev pub new_gate : Acquisition → ℕ → ℕ → GateRow
new_gate a now generation = record {
  logical_key = a.logical_key;
  generation = generation;
  head_generation = a.head_generation;
  base_sha = a.base_sha;
  tested_merge_sha = a.tested_merge_sha;
  owner = a.owner;
  lease_epoch = 1;
  lease_expires_at = add_ℤ now a.lease_ttl;
  check_run_id = a.check_run_id;
  winner = none;
  result_kind = none;
  evidence_digest = none;
  terminal_json = none;
  created_at = now;
  updated_at = now;
}

-- `GateStore._gate`
unfoldable pub read_gate : String → ℕ → Tx Gate
read_gate key generation = do
  row ← or_raise (← gets λ db. select_gate key generation db.gates) type_error
  pure (gate_from_row row)

-- a first generation, or the one after the latest
unfoldable pub open_generation : Acquisition → ℕ → ℕ → Tx Gate
open_generation a now generation = do
  insert_gate (new_gate a now generation)
  read_gate a.logical_key generation

-- the same tuple again: by its owner, or by another once the lease is over
unfoldable pub take_generation : Acquisition → ℕ → GateRow → Tx Gate
take_generation a now latest = do
  let lease_live = ltb now latest.lease_expires_at
  raise_if (not (latest.owner == a.owner) && lease_live) conflict
  raise_if (is_some latest.winner && not (latest.owner == a.owner)) conflict
  let epoch =
      if not (latest.owner == a.owner) || not lease_live
      then latest.lease_epoch + 1
      else latest.lease_epoch
  update_gate a.logical_key latest.generation (λ r. record r {
    owner = a.owner;
    lease_epoch = epoch;
    lease_expires_at = add_ℤ now a.lease_ttl;
    updated_at = now;
  })
  read_gate a.logical_key latest.generation

unfoldable pub acquire_in : Acquisition → ℕ → Option GateRow → Tx Gate
acquire_in a now none = open_generation a now 1
acquire_in a now (some latest) =
    if same_tuple a latest
    then take_generation a now latest
    else open_generation a now (latest.generation + 1)

unfoldable pub acquire : Acquisition → ℕ → Tx Gate
acquire a now = do
  raise_if (not (is_positive a.lease_ttl)) value_error
  transaction (do acquire_in a now (← gets λ db. latest_gate a.logical_key db.gates))

unfoldable pub renew_lease : Lease → ℤ → ℕ → Tx Gate
renew_lease l lease_ttl now = do
  row ← owned l now
  update_gate l.logical_key l.generation
      (λ r. record r { lease_expires_at = add_ℤ now lease_ttl; updated_at = now })
  pure (gate_from_row (record row { lease_expires_at = add_ℤ now lease_ttl }))

unfoldable pub heartbeat : Lease → ℤ → ℕ → Tx Gate
heartbeat l lease_ttl now = transaction (renew_lease l lease_ttl now)
