-- ===== src/GateStore/Tables.antt =====
-- What the methods on gates, admissions and the outbox leave alone.
use self_hosted_ci.Json.{Fields}
use self_hosted_ci.GateStore.Lemmas.{owned_db}
use self_hosted_ci.GateStore.Verdicts.{
  normalized, hosted_kind, LocalFailure, LocalSuccess, HostedResult, select_in, host_in, choose,
  fail_in, succeed_in, complete_hosted_winner, select_github_winner, complete_local_failure,
  complete_local_success,
}
use self_hosted_ci.GateStore.Completions.{commit_result, complete}
use self_hosted_ci.GateStore.Admissions.{
  AdmissionRequest, insert_and_read, admit_in, create_local_admission,
}
use self_hosted_ci.GateStore.Leases.{
  Acquisition, read_gate, take_generation, open_generation, renew_lease, acquire_in, heartbeat,
  acquire,
}
use self_hosted_ci.GateStore.Rows.{
  ResultKind, functional_failure, success, Winner, github, local, Db,
}
use self_hosted_ci.GateStore.Monad.{fault, Services, transaction}
use self_hosted_ci.GateStore.Queries.{
  insert_outbox, insert_gate, insert_admission, Lease, require_admission, update_gate,
}
use self_hosted_ci.Prelude.{ℤ, pair_eq, nat_eq, string_eq, arith, ◌≡◌, String, ℕ}

-- The heads and the bindings stay as they were.
abbrev pub SameTables : Db → Db → Type 0
SameTables db after = (after.heads ≡ db.heads) × (after.nonce_bindings ≡ db.nonce_bindings)

pub acquire_tables : (a : Acquisition) (now : ℕ) (db : Db) → SameTables db (acquire a now db).1
unfolding acquire acquire_in open_generation take_generation insert_gate update_gate read_gate
    transaction
acquire_tables a now db = ground arith

pub heartbeat_tables :
    (l : Lease) (ttl : ℤ) (now : ℕ) (db : Db) → SameTables db (heartbeat l ttl now db).1
unfolding heartbeat renew_lease update_gate transaction
heartbeat_tables l ttl now db = ground (arith, owned_db l now db)

pub admit_tables :
    (env : Services) (q : AdmissionRequest) (uuid : String) (now : ℕ) (db : Db)
    → SameTables db (create_local_admission env q uuid now db).1
unfolding create_local_admission admit_in insert_and_read insert_admission fault transaction
admit_tables env q uuid now db = ground (arith, owned_db q.lease now db)

complete_tables :
    (env : Services) (key : String) (g : ℕ) (w : Winner) (kind : ResultKind) (ev : Fields) (now : ℕ)
    (db : Db)
    → SameTables db (complete env key g w kind ev now db).1
unfolding complete commit_result update_gate fault insert_outbox
complete_tables env key g w kind ev now db = ground arith

pub succeed_tables :
    (env : Services) (q : LocalSuccess) (now : ℕ) (db : Db)
    → SameTables db (complete_local_success env q now db).1
unfolding complete_local_success succeed_in require_admission transaction
succeed_tables env q now db = ground (
  arith,
  owned_db q.lease now db,
  complete_tables env q.lease.logical_key q.lease.generation local success q.evidence now db,
)

pub fail_tables :
    (env : Services) (q : LocalFailure) (now : ℕ) (db : Db)
    → SameTables db (complete_local_failure env q now db).1
unfolding complete_local_failure fail_in require_admission transaction
fail_tables env q now db = ground (
  arith,
  owned_db q.lease now db,
  complete_tables env q.lease.logical_key q.lease.generation local functional_failure
      (normalized env q) now db,
)

pub select_tables :
    (env : Services) (l : Lease) (now : ℕ) (db : Db)
    → SameTables db (select_github_winner env l now db).1
unfolding select_github_winner choose select_in update_gate fault transaction
select_tables env l now db = ground (arith, owned_db l now db)

pub host_tables :
    (env : Services) (q : HostedResult) (now : ℕ) (db : Db)
    → SameTables db (complete_hosted_winner env q now db).1
unfolding complete_hosted_winner host_in transaction
host_tables env q now db = ground (
  arith,
  owned_db q.lease now db,
  complete_tables env q.lease.logical_key q.lease.generation github (hosted_kind q.evidence)
      q.evidence now db,
)
