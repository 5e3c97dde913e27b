-- ===== src/GateStore/Agreement.antt =====
-- All completions of one generation agree.
use self_hosted_ci.GateStore.Effects.Verdicts.{finished}
use self_hosted_ci.GateStore.Lemmas.{owned-cases}
use self_hosted_ci.GateStore.Histories.{run-Kept}
use self_hosted_ci.Json.{Fields}
use self_hosted_ci.GateStore.Permanence.{Kept}
use self_hosted_ci.GateStore.Queries.{require_admission, select_gate, insert_outbox, update_gate}
use self_hosted_ci.GateStore.Completions.{evidence_hash, commit_result, complete}
use self_hosted_ci.GateStore.Rows.{
  github, functional_failure, success, local, gate_key, idempotent, committed, ResultKind, GateRow,
  Winner, Db, Completion,
}
use self_hosted_ci.GateStore.Verdicts.{
  hosted_kind, normalized, host_in, fail_in, succeed_in, complete_hosted_winner,
  complete_local_failure, complete_local_success,
}
use self_hosted_ci.GateStore.Calls.{run, hosts, fails, succeeds, Call}
use self_hosted_ci.GateStore.Monad.{transaction, ok, fault, Services}
use self_hosted_ci.Prelude.{
  refl, pair_eq, string_eq, nat_eq, inr, inl, subst, eq_iff, lookup-update_self, arith, none, some,
  ◌≡◌, List, Option, String, ℕ,
}

-- A call that completes a generation returned this, and left this database.
abbrev pub Completes : Services → ℕ → Db → Completion → Db → Call → Type 0
Completes env now db c db' (succeeds q) = complete_local_success env q now db ≡ (ok c, db')
Completes env now db c db' (fails q) = complete_local_failure env q now db ≡ (ok c, db')
Completes env now db c db' (hosts q) = complete_hosted_winner env q now db ≡ (ok c, db')
Completes env now db c db' _ = ⊥

-- the generation that such a call is about
abbrev pub target : Call → String × ℕ
target (succeeds q) = (q.lease.logical_key, q.lease.generation)
target (fails q) = (q.lease.logical_key, q.lease.generation)
target (hosts q) = (q.lease.logical_key, q.lease.generation)
target _ = ("", 0)

abbrev Inner : Services → ℕ → Db → Completion → Db → String × ℕ → Type 0
Inner env now db c db' (key, g) =
    (w : Winner) × (kind : ResultKind) × (ev : Fields) × (complete env key g w kind ev now db
      ≡ (ok c, db'))

Completes-Inner :
    (env : Services) (now : ℕ) (db : Db) (c : Completion) (db' : Db) (k : Call)
    → Completes env now db c db' k
    → Inner env now db c db' (target k)
unfolding complete_local_success complete_local_failure complete_hosted_winner succeed_in fail_in
    host_in require_admission transaction
Completes-Inner env now db c db' (succeeds q) h = elim (owned-cases q.lease now db) [
  | inl refused ↦ absurd (ground arith)
  | inr (r, e, o) ↦ (local, success, q.evidence, ground arith)
]
Completes-Inner env now db c db' (fails q) h = elim (owned-cases q.lease now db) [
  | inl refused ↦ absurd (ground arith)
  | inr (r, e, o) ↦ (local, functional_failure, normalized env q, ground arith)
]
Completes-Inner env now db c db' (hosts q) h = elim (owned-cases q.lease now db) [
  | inl refused ↦ absurd (ground arith)
  | inr (r, e, o) ↦ (github, hosted_kind q.evidence, q.evidence, ground arith)
]
Completes-Inner env now db c db' _ h = absurd h

-- The row of the generation carries the verdict.
abbrev pub Carries : Completion → Option GateRow → Type 0
Carries c none = ⊥
Carries c (some s) =
    (s.winner ≡ some c.winner)
    × (s.result_kind ≡ some c.result_kind)
    × (s.evidence_digest ≡ some c.evidence_digest)

complete-Carries :
    (env : Services) (key : String) (g : ℕ) (w : Winner) (kind : ResultKind) (ev : Fields) (now : ℕ)
    (db db' : Db) (c : Completion)
    → complete env key g w kind ev now db ≡ (ok c, db')
    → c.status ≡ committed
    → Carries c (select_gate key g db'.gates)
unfolding complete commit_result update_gate fault insert_outbox select_gate
complete-Carries env key g w kind ev now db db' c h first = ground (
  arith,
  lookup-update_self gate_key (key, g) (finished env key g w kind ev now) db.gates (λ s. refl),
)

Kept-Carries : (c : Completion) (o p : Option GateRow) → Kept o p → Carries c o → Carries c p
Kept-Carries c none p k h = absurd h
Kept-Carries c (some r) none k h = absurd k
Kept-Carries c (some r) (some s) k h = ground arith

-- A committed verdict is in the row of its generation, and stays there through every later history.
pub verdict_for_good :
    (env : Services) (k : Call) (now : ℕ) (db db' : Db) (c : Completion)
    (cs : List (Services × ℕ × Call))
    → Completes env now db c db' k
    → c.status ≡ committed
    → Carries c (select_gate (target k).0 (target k).1 (run cs db').gates)
verdict_for_good env k now db db' c cs h first =
    let (w, kind, ev, e) = Completes-Inner env now db c db' k h in
    Kept-Carries c (select_gate (target k).0 (target k).1 db'.gates) _
      (run-Kept cs db' (target k).0 (target k).1)
      (complete-Carries env (target k).0 (target k).1 w kind ev now db db' c e first)

complete_agrees :
    (env : Services) (key : String) (g : ℕ) (w : Winner) (kind : ResultKind) (ev : Fields) (now : ℕ)
    (db db' : Db) (c d : Completion)
    → Carries c (select_gate key g db.gates)
    → complete env key g w kind ev now db ≡ (ok d, db')
    → (d.status ≡ idempotent)
      × (d.winner ≡ c.winner)
      × (d.result_kind ≡ c.result_kind)
      × (d.evidence_digest ≡ c.evidence_digest)
      × (db' ≡ db)
unfolding complete
complete_agrees env key g w kind ev now db db' c d carried h =
    ground (arith, eq_iff c.evidence_digest (evidence_hash env ev))

-- After a committed verdict, whatever happens in between, every further completion of the same
-- generation that returns at all reports the same winner, result and evidence digest as an idempotent
-- repetition, and writes nothing.
pub completions_agree :
    (env env' : Services) (k k' : Call) (now t : ℕ) (db db' after : Db) (c d : Completion)
    (cs : List (Services × ℕ × Call))
    → Completes env now db c db' k
    → c.status ≡ committed
    → target k' ≡ target k
    → Completes env' t (run cs db') d after k'
    → (d.status ≡ idempotent)
      × (d.winner ≡ c.winner)
      × (d.result_kind ≡ c.result_kind)
      × (d.evidence_digest ≡ c.evidence_digest)
      × (after ≡ run cs db')
completions_agree env env' k k' now t db db' after c d cs h first same again =
    let (w, kind, ev, e) =
      subst (Inner env' t (run cs db') d after) same
        (Completes-Inner env' t (run cs db') d after k' again) in
    complete_agrees env' (target k).0 (target k).1 w kind ev t (run cs db') after c d
      (verdict_for_good env k now db db' c cs h first) e
