-- ===== src/GateStore/SingleWinner.antt =====
-- One generation, one verdict.
use self_hosted_ci.Json.{Fields}
use self_hosted_ci.GateStore.Lemmas.{owned-cases, Owns}
use self_hosted_ci.GateStore.Rows.{
  functional_failure, local, admission_key, ResultKind, Winner, GateRow, AdmissionRow, Completion,
  Db,
}
use self_hosted_ci.GateStore.Verdicts.{
  normalized, fail_in, complete_local_failure, is_functional_failure, execution_matches,
  LocalFailure,
}
use self_hosted_ci.GateStore.Completions.{commit_result, complete}
use self_hosted_ci.GateStore.Queries.{owned, insert_outbox, update_gate, require_admission}
use self_hosted_ci.GateStore.Monad.{transaction, ok, fault, Services}
use self_hosted_ci.Prelude.{
  Option-cases, inr, inl, ◌≤◌, pair_eq, string_eq, nat_eq, true, eq_iff, some, arith, lookup, ◌≡◌,
  String, ℕ,
}

-- What `complete_local_failure` has checked when it returns.
pub record FailureChecked (env : Services) (q : LocalFailure) (now : ℕ) (db : Db) (c : Completion)
    : Type 0 where
  pub holder : (r : GateRow) × Owns q.lease now db.gates r
  pub admission :
      (a : AdmissionRow) × (execution : Fields) × (lookup admission_key
          (q.lease.logical_key, q.lease.generation)
          db.admissions
        ≡ some a)
      × (a.admission_id ≡ q.admission_id)
      × (a.admission_digest ≡ q.admission_digest)
      × (env.loads a.execution_json ≡ some execution)
      × (execution_matches q execution ≡ true)
      × (q.terminal_at ≤ a.execution_deadline)
  pub evidence : is_functional_failure q.evidence ≡ true
  pub verdict : (c.winner ≡ local) × (c.result_kind ≡ functional_failure)

complete-verdict :
    (env : Services) (key : String) (g : ℕ) (w : Winner) (kind : ResultKind) (ev : Fields) (now : ℕ)
    (db db' : Db) (c : Completion)
    → complete env key g w kind ev now db ≡ (ok c, db')
    → (c.winner ≡ w) × (c.result_kind ≡ kind)
unfolding complete commit_result update_gate fault insert_outbox
complete-verdict env key g w kind ev now db db' c h = ground arith

fail_in-checks :
    (env : Services) (q : LocalFailure) (now : ℕ) (db db' : Db) (c : Completion) (r : GateRow)
    (a : AdmissionRow) (x : Fields)
    → owned q.lease now db ≡ (ok r, db)
    → lookup admission_key (q.lease.logical_key, q.lease.generation) db.admissions ≡ some a
    → env.loads a.execution_json ≡ some x
    → fail_in env q now db ≡ (ok c, db')
    → ((a.admission_id ≡ q.admission_id) × (a.admission_digest ≡ q.admission_digest))
      × ((execution_matches q x ≡ true)
          × (q.terminal_at ≤ a.execution_deadline)
          × (is_functional_failure q.evidence ≡ true)
          × ((c.winner ≡ local) × (c.result_kind ≡ functional_failure)))
unfolding fail_in require_admission
fail_in-checks env q now db db' c r a x e stored parsed h = ground (
  arith,
  eq_iff a.admission_id q.admission_id,
  eq_iff a.admission_digest q.admission_digest,
  complete-verdict env q.lease.logical_key q.lease.generation local functional_failure
      (normalized env q) now db db' c,
)

-- `complete_local_failure` returns only for the holder of the newest generation's live lease, with
-- the stored admission, whose parsed execution agrees with the evidence's, with evidence of a
-- functional failure, and an end no later than the stored deadline; what it returns is a local
-- functional failure.
pub complete_local_failure-Checked :
    (env : Services) (q : LocalFailure) (now : ℕ) (db db' : Db) (c : Completion)
    → complete_local_failure env q now db ≡ (ok c, db')
    → FailureChecked env q now db c
complete_local_failure-Checked env q now db db' c h = elim (owned-cases q.lease now db) [
  | inl refused ↦ absurd (unfold complete_local_failure fail_in transaction in ground arith)
  | inr (r, e, o) ↦
      elim (Option-cases
        (lookup admission_key (q.lease.logical_key, q.lease.generation) db.admissions)) [
          | inl missing ↦
              absurd (
                unfold complete_local_failure fail_in transaction require_admission in ground arith)
          | inr (a, stored) ↦ elim (Option-cases (env.loads a.execution_json)) [
            | inl bad ↦ absurd (
                unfold complete_local_failure fail_in transaction require_admission in ground arith)
            | inr (x, parsed) ↦
                let (ids, rest) =
                  fail_in-checks env q now db db' c r a x e stored parsed
                    (unfold complete_local_failure transaction in ground arith) in
                record {
                  holder = (r, o);
                  admission = (a, x, stored, ids.0, ids.1, parsed, rest.0, rest.1);
                  evidence = rest.2;
                  verdict = rest.3;
                }
          ]
        ]
]
