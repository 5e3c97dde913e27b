-- ===== src/GateStore/Replays.antt =====
-- A nonce is bound once, to one candidate, for good.
use self_hosted_ci.GateStore.Tables.{
  host_tables, select_tables, fail_tables, succeed_tables, admit_tables, heartbeat_tables,
  acquire_tables,
}
use self_hosted_ci.GateStore.Outbox.{
  attempt_in, record_outbox_attempt, deliver_in, mark_outbox_delivered,
}
use self_hosted_ci.GateStore.Heads.{record_head, observe_head}
use self_hosted_ci.GateStore.Rows.{nonce_key, Db, NonceRow}
use self_hosted_ci.GateStore.Monad.{ok, Services, transaction}
use self_hosted_ci.GateStore.Queries.{insert_nonce}
use self_hosted_ci.GateStore.Calls.{
  attempts, delivers, hosts, selects, fails, succeeds, admits, renews, run, acquires, observes,
  binds, Call, call,
}
use self_hosted_ci.GateStore.Nonces.{
  same_candidate, idempotent, bound, BindStatus, binding_row, bind_attestation_nonce, Binding,
  bind_in,
}
use self_hosted_ci.Prelude.{
  true, refl, eq_iff, [], ◌∷◌, List, pair_eq, nat_eq, string_eq, pair_beq_iff, arith, some, ◌≡◌,
  String, lookup, ℕ,
}

-- What an insert in front of a list does to a lookup of another key or of its own.
bind_nonces :
    (b : Binding) (row : NonceRow) (db : Db) (k : String × String) (r : NonceRow)
    → nonce_key row ≡ (b.attestation_id, b.nonce_hash)
    → lookup nonce_key k db.nonce_bindings ≡ some r
    → lookup nonce_key k (bind_in b row db).1.nonce_bindings ≡ some r
unfolding bind_in insert_nonce lookup
bind_nonces b row db k r e h = ground (arith, pair_beq_iff string_eq string_eq (nonce_key row) k)

call_nonces :
    (env : Services) (c : Call) (now : ℕ) (db : Db) (k : String × String) (r : NonceRow)
    → lookup nonce_key k db.nonce_bindings ≡ some r
    → lookup nonce_key k (call env c now db).1.nonce_bindings ≡ some r
unfolding call transaction
call_nonces env (binds b) now db k r h =
    unfold bind_attestation_nonce in
    ground (arith, bind_nonces b (binding_row env b now) db k r refl h)
call_nonces env (observes repository_id pr_number head_sha) now db k r h =
    unfold observe_head record_head in ground arith
call_nonces env (acquires a) now db k r h = rw ((acquire_tables a now db).1) h
call_nonces env (renews l ttl) now db k r h = rw ((heartbeat_tables l ttl now db).1) h
call_nonces env (admits q uuid) now db k r h = rw ((admit_tables env q uuid now db).1) h
call_nonces env (succeeds q) now db k r h = rw ((succeed_tables env q now db).1) h
call_nonces env (fails q) now db k r h = rw ((fail_tables env q now db).1) h
call_nonces env (selects l) now db k r h = rw ((select_tables env l now db).1) h
call_nonces env (hosts q) now db k r h = rw ((host_tables env q now db).1) h
call_nonces env (delivers key digest) now db k r h =
    unfold mark_outbox_delivered deliver_in in ground arith
call_nonces env (attempts key) now db k r h =
    unfold record_outbox_attempt attempt_in in ground arith

run_nonces :
    (cs : List (Services × ℕ × Call)) (db : Db) (k : String × String) (r : NonceRow)
    → lookup nonce_key k db.nonce_bindings ≡ some r
    → lookup nonce_key k (run cs db).nonce_bindings ≡ some r
unfolding run
run_nonces [] db k r h = h
run_nonces ((env, now, c) ∷ cs) db k r h =
    run_nonces cs (call env c now db).1 k r (call_nonces env c now db k r h)

bound_row :
    (env : Services) (b : Binding) (now : ℕ) (db db' : Db)
    → bind_attestation_nonce env b now db ≡ (ok bound, db')
    → lookup nonce_key (b.attestation_id, b.nonce_hash) db'.nonce_bindings
      ≡ some (binding_row env b now)
unfolding bind_attestation_nonce bind_in insert_nonce lookup transaction
bound_row env b now db db' h =
    ground (arith, eq_iff b.attestation_id b.attestation_id, eq_iff b.nonce_hash b.nonce_hash)

-- the gate tuple, the envelope and the target's digest that a call names
abbrev pub SameCandidate : Services → Binding → Services → Binding → Type 0
SameCandidate env b env' b' =
    (b'.logical_key ≡ b.logical_key)
    × (b'.generation ≡ b.generation)
    × (b'.expected_head_generation ≡ b.expected_head_generation)
    × (b'.envelope_digest ≡ b.envelope_digest)
    × (env'.sha256 (env'.dumps b'.target) ≡ env.sha256 (env.dumps b.target))

rebind :
    (env' : Services) (b' : Binding) (t : ℕ) (db after : Db) (status : BindStatus) (r : NonceRow)
    → lookup nonce_key (b'.attestation_id, b'.nonce_hash) db.nonce_bindings ≡ some r
    → bind_attestation_nonce env' b' t db ≡ (ok status, after)
    → (same_candidate r (binding_row env' b' t) ≡ true) × (status ≡ idempotent) × (after ≡ db)
unfolding bind_attestation_nonce bind_in transaction
rebind env' b' t db after status r found h = ground arith

same_candidate-SameCandidate :
    (env env' : Services) (b b' : Binding) (now t : ℕ)
    → same_candidate (binding_row env b now) (binding_row env' b' t) ≡ true
    → SameCandidate env b env' b'
same_candidate-SameCandidate env env' b b' now t h = ground (
  arith,
  eq_iff b.logical_key b'.logical_key,
  eq_iff b.envelope_digest b'.envelope_digest,
  eq_iff (env.sha256 (env.dumps b.target)) (env'.sha256 (env'.dumps b'.target)),
)

-- A nonce that has been bound is never bound again: in any later history a call with the same
-- attestation and nonce that returns names the same candidate, says so, and writes nothing.
pub nonce_bound_once :
    (env env' : Services) (b b' : Binding) (now t : ℕ) (db db' after : Db) (status : BindStatus)
    (cs : List (Services × ℕ × Call))
    → bind_attestation_nonce env b now db ≡ (ok bound, db')
    → b'.attestation_id ≡ b.attestation_id
    → b'.nonce_hash ≡ b.nonce_hash
    → bind_attestation_nonce env' b' t (run cs db') ≡ (ok status, after)
    → SameCandidate env b env' b' × (status ≡ idempotent) × (after ≡ run cs db')
nonce_bound_once env env' b b' now t db db' after status cs h e f again =
    let kept =
      run_nonces cs db' (b.attestation_id, b.nonce_hash) (binding_row env b now)
        (bound_row env b now db db' h) in
    let (same, repeated, unchanged) =
      rebind env' b' t (run cs db') after status (binding_row env b now) (rw (e, f) kept) again in
    (same_candidate-SameCandidate env env' b b' now t same, repeated, unchanged)
