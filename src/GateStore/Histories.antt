-- ===== src/GateStore/Histories.antt =====
-- Histories of calls: every call makes a move on the gates, so what a move keeps is kept for good.
use self_hosted_ci.GateStore.Verdicts.{
  host_in, choose, fail_in, succeed_in, complete_hosted_winner, select_github_winner,
  complete_local_failure, complete_local_success,
}
use self_hosted_ci.GateStore.Leases.{acquire_in, acquire, heartbeat, renew_lease}
use self_hosted_ci.GateStore.Permanence.{
  Move-frozen, Move-Grows, Move-Kept, Grows-some, Grows-trans, Kept-trans, Kept-refl, Grows-refl,
  Grows, Kept,
}
use self_hosted_ci.GateStore.Outbox.{
  attempt_in, record_outbox_attempt, deliver_in, mark_outbox_delivered,
}
use self_hosted_ci.GateStore.Effects.Verdicts.{
  complete_hosted_winner-Move, select_github_winner-Move, complete_local_failure-Move,
  complete_local_success-Move,
}
use self_hosted_ci.GateStore.Nonces.{binding_row, bind_in, bind_attestation_nonce}
use self_hosted_ci.GateStore.Effects.{heartbeat-Move, acquire-Move}
use self_hosted_ci.GateStore.Heads.{record_head, observe_head}
use self_hosted_ci.GateStore.Lemmas.{owned-cases}
use self_hosted_ci.GateStore.Moves.{stay, Move}
use self_hosted_ci.GateStore.Queries.{
  latest_gate, select_gate, max_generation, insert_nonce, insert_admission,
}
use self_hosted_ci.GateStore.Rows.{Db}
use self_hosted_ci.GateStore.Monad.{
  ◌>>◌, raise_unless, raise_if, Error, Tx, fault, transaction, Services,
}
use self_hosted_ci.GateStore.Admissions.{
  AdmissionRequest, insert_and_read, create_local_admission, admit_in,
}
use self_hosted_ci.Prelude.{
  true, false, refl, ◌∙◌, subst, Bool, [], ◌∷◌, ◌<◌, some, List, inr, inl, arith, String, ℕ, ◌≡◌,
}
use self_hosted_ci.GateStore.Calls.{outcome, Call, call, run}
use self_hosted_ci.GateStore.Calls.{
  observes, acquires, renews, binds, admits, succeeds, fails, selects, hosts, delivers, attempts,
}

admit_gates :
    (env : Services) (q : AdmissionRequest) (uuid : String) (now : ℕ) (db : Db)
    → (admit_in env q uuid now db).1.gates ≡ db.gates
unfolding admit_in insert_and_read insert_admission fault
admit_gates env q uuid now db = elim (owned-cases q.lease now db) [
  | inl refused ↦ ground arith
  | inr (r, e, o) ↦ ground arith
]

create_local_admission_gates :
    (env : Services) (q : AdmissionRequest) (uuid : String) (now : ℕ) (db : Db)
    → (create_local_admission env q uuid now db).1.gates ≡ db.gates
unfolding create_local_admission transaction
create_local_admission_gates env q uuid now db = ground (arith, admit_gates env q uuid now db)

-- Every call makes one move, or none.
pub call-Move :
    (env : Services) (c : Call) (now : ℕ) (db : Db) → Move db.gates (call env c now db).1.gates
unfolding call
call-Move env (observes repository_id pr_number head_sha) now db =
    stay (unfold observe_head transaction record_head in ground arith)
call-Move env (acquires a) now db = acquire-Move a now db
call-Move env (renews l ttl) now db = heartbeat-Move l ttl now db
call-Move env (binds b) now db =
    stay (unfold bind_attestation_nonce transaction bind_in insert_nonce in ground arith)
call-Move env (admits q uuid) now db = stay (create_local_admission_gates env q uuid now db)
call-Move env (succeeds q) now db = complete_local_success-Move env q now db
call-Move env (fails q) now db = complete_local_failure-Move env q now db
call-Move env (selects l) now db = select_github_winner-Move env l now db
call-Move env (hosts q) now db = complete_hosted_winner-Move env q now db
call-Move env (delivers key digest) now db =
    stay (unfold mark_outbox_delivered transaction deliver_in in ground arith)
call-Move env (attempts key) now db =
    stay (unfold record_outbox_attempt transaction attempt_in in ground arith)

-- In every history of calls, by any coordinators at any times and with faults anywhere, a row of the
-- gates is only ever replaced by a later state of it: the same tuple and Check Run, an epoch that
-- never falls and that rises when the owner changes, and the same winner, result, evidence digest
-- and terminal text once it has them.
pub run-Kept :
    (cs : List (Services × ℕ × Call)) (db : Db) (key : String) (g : ℕ)
    → Kept (select_gate key g db.gates) (select_gate key g (run cs db).gates)
unfolding run
run-Kept [] db key g = Kept-refl (select_gate key g db.gates)
run-Kept ((env, now, c) ∷ cs) db key g =
    let next = (call env c now db).1 in
    Kept-trans (select_gate key g db.gates) (select_gate key g next.gates) _
      (Move-Kept db.gates next.gates (call-Move env c now db) key g) (run-Kept cs next key g)

pub run-Grows :
    (cs : List (Services × ℕ × Call)) (db : Db) (key : String)
    → Grows (max_generation key db.gates) (max_generation key (run cs db).gates)
unfolding run
run-Grows [] db key = Grows-refl (max_generation key db.gates)
run-Grows ((env, now, c) ∷ cs) db key =
    let next = (call env c now db).1 in
    Grows-trans (max_generation key db.gates) (max_generation key next.gates) _
      (Move-Grows db.gates next.gates (call-Move env c now db) key) (run-Grows cs next key)

-- Once a key has a newer generation, no history changes anything in the row of an older one.
pub run_frozen :
    (cs : List (Services × ℕ × Call)) (db : Db) (key : String) (g m : ℕ)
    → max_generation key db.gates ≡ some m
    → g < m
    → select_gate key g (run cs db).gates ≡ select_gate key g db.gates
unfolding run
run_frozen [] db key g m newest h = refl
run_frozen ((env, now, c) ∷ cs) db key g m newest h =
    let next = (call env c now db).1 in
    let moved = call-Move env c now db in
    let (n, newer, le) = Grows-some m (max_generation key next.gates) (
      subst (λ o. Grows o (max_generation key next.gates)) newest
        (Move-Grows db.gates next.gates moved key)) in
    run_frozen cs next key g n newer (omega arith)
    ∙ Move-frozen db.gates next.gates moved key g m newest h

transaction_atomic :
    {A : Type 0} (m : Tx A) (db : Db) (x : Error)
    → (outcome (transaction m db)).0 ≡ some x
    → (transaction m db).1 ≡ db
unfolding transaction
transaction_atomic m db x h = ground arith

guarded_atomic :
    {A : Type 0} (test : Bool) (e : Error) (m : Tx A) (db : Db) (x : Error)
    → (outcome ((raise_if test e >> transaction m) db)).0 ≡ some x
    → ((raise_if test e >> transaction m) db).1 ≡ db
guarded_atomic true e m db x h = refl
guarded_atomic false e m db x h = transaction_atomic m db x h

required_atomic :
    {A : Type 0} (test : Bool) (e : Error) (m : Tx A) (db : Db) (x : Error)
    → (outcome ((raise_unless test e >> transaction m) db)).0 ≡ some x
    → ((raise_unless test e >> transaction m) db).1 ≡ db
required_atomic false e m db x h = refl
required_atomic true e m db x h = transaction_atomic m db x h

-- A call that raises, by a guard, by a constraint of the database or by the fault hook at any of its
-- stages, leaves every table as it was.
pub call_atomic :
    (env : Services) (c : Call) (now : ℕ) (db : Db) (x : Error)
    → (call env c now db).0 ≡ some x
    → (call env c now db).1 ≡ db
unfolding call observe_head acquire heartbeat bind_attestation_nonce create_local_admission
    complete_local_success complete_local_failure select_github_winner complete_hosted_winner
    mark_outbox_delivered record_outbox_attempt
call_atomic env (observes repository_id pr_number head_sha) now db x h =
    guarded_atomic _ _ (record_head repository_id pr_number head_sha) db x h
call_atomic env (acquires a) now db x h =
    guarded_atomic _ _ (λ d. acquire_in a now (latest_gate a.logical_key d.gates) d) db x h
call_atomic env (renews l ttl) now db x h = transaction_atomic (renew_lease l ttl now) db x h
call_atomic env (binds b) now db x h = transaction_atomic (bind_in b (binding_row env b now)) db x h
call_atomic env (admits q uuid) now db x h = required_atomic _ _ (admit_in env q uuid now) db x h
call_atomic env (succeeds q) now db x h = guarded_atomic _ _ (succeed_in env q now) db x h
call_atomic env (fails q) now db x h = transaction_atomic (fail_in env q now) db x h
call_atomic env (selects l) now db x h = transaction_atomic (choose env l now) db x h
call_atomic env (hosts q) now db x h = required_atomic _ _ (host_in env q now) db x h
call_atomic env (delivers key digest) now db x h =
    transaction_atomic (deliver_in key digest now) db x h
call_atomic env (attempts key) now db x h = transaction_atomic (attempt_in key) db x h
