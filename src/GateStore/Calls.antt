-- ===== src/GateStore/Calls.antt =====
-- Every method that writes as one call, and histories of calls by concurrent coordinators, which
-- SQLite serialises.
use self_hosted_ci.Prelude.{ℕ, String, ℤ, List, [], ◌∷◌, Option, none, some}
use self_hosted_ci.GateStore.Rows.{Db}
use self_hosted_ci.GateStore.Monad.{Services, Error, Result, ok, err}
use self_hosted_ci.GateStore.Queries.{Lease}
use self_hosted_ci.GateStore.Heads.{observe_head}
use self_hosted_ci.GateStore.Leases.{Acquisition, acquire, heartbeat}
use self_hosted_ci.GateStore.Nonces.{Binding, bind_attestation_nonce}
use self_hosted_ci.GateStore.Admissions.{AdmissionRequest, create_local_admission}
use self_hosted_ci.GateStore.Verdicts.{
  LocalSuccess, LocalFailure, HostedResult, complete_local_success, complete_local_failure,
  select_github_winner, complete_hosted_winner,
}
use self_hosted_ci.GateStore.Outbox.{mark_outbox_delivered, record_outbox_attempt}

pub data Call : Type 0 where
  observes : String → ℕ → String → Call
  acquires : Acquisition → Call
  renews : Lease → ℤ → Call
  binds : Binding → Call
  admits : AdmissionRequest → String → Call
  succeeds : LocalSuccess → Call
  fails : LocalFailure → Call
  selects : Lease → Call
  hosts : HostedResult → Call
  delivers : String → String → Call
  attempts : String → Call

-- the error that a call raised, and the database after it
abbrev pub outcome : {A : Type 0} → Result A × Db → Option Error × Db
outcome (r, db) = (elim r [ ok _ ↦ none | err e ↦ some e ], db)

unfoldable pub call : Services → Call → ℕ → Db → Option Error × Db
call env (observes repository_id pr_number head_sha) now db =
    outcome (observe_head repository_id pr_number head_sha db)
call env (acquires a) now db = outcome (acquire a now db)
call env (renews l ttl) now db = outcome (heartbeat l ttl now db)
call env (binds b) now db = outcome (bind_attestation_nonce env b now db)
call env (admits q uuid) now db = outcome (create_local_admission env q uuid now db)
call env (succeeds q) now db = outcome (complete_local_success env q now db)
call env (fails q) now db = outcome (complete_local_failure env q now db)
call env (selects l) now db = outcome (select_github_winner env l now db)
call env (hosts q) now db = outcome (complete_hosted_winner env q now db)
call env (delivers key digest) now db = outcome (mark_outbox_delivered key digest now db)
call env (attempts key) now db = outcome (record_outbox_attempt key db)

-- Each call comes with the time that its clock read and with its own hook.
unfoldable pub run : List (Services × ℕ × Call) → Db → Db
run [] db = db
run ((env, now, c) ∷ cs) db = run cs (call env c now db).1

unfoldable pub empty : Db
empty = record { heads = []; gates = []; nonce_bindings = []; admissions = []; outbox = [] }
