-- ===== src/GateStore/Effects/Verdicts.antt =====
-- The moves of the methods that decide a generation.
use self_hosted_ci.GateStore.Effects.{sym, owned_rewrites, stay, transaction-Move}
use self_hosted_ci.GateStore.Lemmas.{owned-cases, Owns}
use self_hosted_ci.GateStore.Verdicts.{
  normalized, hosted_kind, HostedResult, choose, LocalFailure, LocalSuccess, complete_hosted_winner,
  host_in, select_github_winner, select_in, complete_local_failure, fail_in, complete_local_success,
  succeed_in,
}
use self_hosted_ci.Prelude.{
  refl, subst, inr, inl, Option-cases, List, ℕ, String, ◌≡◌, ◌⊎◌, false, none, some, arith, update,
  pair_eq, nat_eq, string_eq,
}
use self_hosted_ci.Json.{Fields}
use self_hosted_ci.GateStore.Rows.{
  functional_failure, success, github, local, Db, GateRow, gate_key, Winner, ResultKind, winner_eq,
}
use self_hosted_ci.GateStore.Monad.{Services, fault}
use self_hosted_ci.GateStore.Queries.{
  require_admission, Lease, select_gate, update_gate, insert_outbox,
}
use self_hosted_ci.GateStore.Completions.{
  complete, commit_result, terminal, evidence_hash, other_winner,
}
use self_hosted_ci.GateStore.Moves.{Move, Keeps}

module _ (env : Services) (key : String) (g : ℕ) (w : Winner) (kind : ResultKind) (ev : Fields)
    (now : ℕ) where
  abbrev pub finished : GateRow → GateRow
  finished = terminal w kind (evidence_hash env ev) (env.dumps ev) now

  commit_result_gates :
      (gate : GateRow) (db : Db)
      → (commit_result env gate key g w kind ev now db).1.gates
        ≡ update gate_key (key, g) finished db.gates
  unfolding commit_result update_gate fault insert_outbox
  commit_result_gates gate db = ground arith

  -- A completion changes no gate, or gives an open row its winner and its result.
  complete_gates :
      (db : Db) (r : GateRow)
      → select_gate key g db.gates ≡ some r
      → ((complete env key g w kind ev now db).1.gates ≡ db.gates)
        ⊎ (((complete env key g w kind ev now db).1.gates
              ≡ update gate_key (key, g) finished db.gates)
            × (other_winner r.winner w ≡ false)
            × (r.result_kind ≡ none))
  unfolding complete
  complete_gates db r found = ground (arith, commit_result_gates r db)

  finished-Keeps :
      (r : GateRow) → other_winner r.winner w ≡ false → r.result_kind ≡ none → Keeps r (finished r)
  finished-Keeps r h e = ground arith

-- A completion by the owner of the row.
complete-Move :
    (env : Services) (l : Lease) (w : Winner) (kind : ResultKind) (ev : Fields) (now : ℕ) (db : Db)
    (r : GateRow)
    → Owns l now db.gates r
    → Move db.gates (complete env l.logical_key l.generation w kind ev now db).1.gates
complete-Move env l w kind ev now db r o =
    elim (complete_gates env l.logical_key l.generation w kind ev now db r o.found) [
      | inl same ↦ stay same
      | inr (changed, open_winner, open_result) ↦
          owned_rewrites l now db r (finished env l.logical_key l.generation w kind ev now) _ o
            (λ s. refl)
            (finished-Keeps env l.logical_key l.generation w kind ev now r open_winner open_result)
            changed
    ]

-- The table is as it was, or as the completion left it.
either-Move :
    (before done after : List GateRow)
    → Move before done
    → (after ≡ before) ⊎ (after ≡ done)
    → Move before after
either-Move before done after m (inl e) = stay e
either-Move before done after m (inr e) = subst (Move before) (sym e) m

succeed_in-Move :
    (env : Services) (q : LocalSuccess) (now : ℕ) (db : Db)
    → Move db.gates (succeed_in env q now db).1.gates
unfolding succeed_in require_admission
succeed_in-Move env q now db = elim (owned-cases q.lease now db) [
  | inl refused ↦ stay (ground arith)
  | inr (r, e, o) ↦
      either-Move db.gates _ _ (complete-Move env q.lease local success q.evidence now db r o)
        (ground arith)
]

pub complete_local_success-Move :
    (env : Services) (q : LocalSuccess) (now : ℕ) (db : Db)
    → Move db.gates (complete_local_success env q now db).1.gates
unfolding complete_local_success
complete_local_success-Move env q now db =
    let done = transaction-Move (succeed_in env q now) db (succeed_in-Move env q now db) in
    either-Move db.gates _ _ done (ground arith)

fail_in-Move :
    (env : Services) (q : LocalFailure) (now : ℕ) (db : Db)
    → Move db.gates (fail_in env q now db).1.gates
unfolding fail_in require_admission
fail_in-Move env q now db = elim (owned-cases q.lease now db) [
  | inl refused ↦ stay (ground arith)
  | inr (r, e, o) ↦
      either-Move db.gates _ _
        (complete-Move env q.lease local functional_failure (normalized env q) now db r o)
        (ground arith)
]

pub complete_local_failure-Move :
    (env : Services) (q : LocalFailure) (now : ℕ) (db : Db)
    → Move db.gates (complete_local_failure env q now db).1.gates
unfolding complete_local_failure
complete_local_failure-Move env q now db =
    transaction-Move (fail_in env q now) db (fail_in-Move env q now db)

select_in-Move :
    (env : Services) (l : Lease) (now : ℕ) (db : Db) (r : GateRow)
    → Owns l now db.gates r
    → Move db.gates (select_in env l now r.winner db).1.gates
unfolding select_in update_gate fault
select_in-Move env l now db r o = elim (Option-cases r.winner) [
  | inl e ↦
      owned_rewrites l now db r (λ s. record s { winner = some github; updated_at = now }) _ o
        (λ s. refl) (ground arith) (ground arith)
  | inr (w, e) ↦ stay (ground arith)
]

pub select_github_winner-Move :
    (env : Services) (l : Lease) (now : ℕ) (db : Db)
    → Move db.gates (select_github_winner env l now db).1.gates
unfolding select_github_winner choose
select_github_winner-Move env l now db =
    transaction-Move (choose env l now) db (elim (owned-cases l now db) [
      | inl refused ↦ stay (ground arith)
      | inr (r, e, o) ↦ either-Move db.gates _ _ (select_in-Move env l now db r o) (ground arith)
    ])

host_in-Move :
    (env : Services) (q : HostedResult) (now : ℕ) (db : Db)
    → Move db.gates (host_in env q now db).1.gates
unfolding host_in
host_in-Move env q now db = elim (owned-cases q.lease now db) [
  | inl refused ↦ stay (ground arith)
  | inr (r, e, o) ↦
      either-Move db.gates _ _
        (complete-Move env q.lease github (hosted_kind q.evidence) q.evidence now db r o)
        (ground arith)
]

pub complete_hosted_winner-Move :
    (env : Services) (q : HostedResult) (now : ℕ) (db : Db)
    → Move db.gates (complete_hosted_winner env q now db).1.gates
unfolding complete_hosted_winner
complete_hosted_winner-Move env q now db =
    let done = transaction-Move (host_in env q now) db (host_in-Move env q now db) in
    either-Move db.gates _ _ done (ground arith)
