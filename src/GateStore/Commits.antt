-- ===== src/GateStore/Commits.antt =====
-- When a completion commits its verdict, and what it writes then.
use Prim.Native.String.{◌++◌ as append}
use self_hosted_ci.GateStore.Queries.{select_gate, insert_outbox, update_gate}
use self_hosted_ci.GateStore.Completions.{commit_result, complete, outbox_key}
use self_hosted_ci.Json.{Fields, end, field, num, text, obj}
use self_hosted_ci.GateStore.Rows.{
  gate_key, committed, outbox_row_key, Db, pending, OutboxRow, Completion, GateRow, ResultKind,
  Winner, winner_beq_iff, winner_text, result_kind_text,
}
use self_hosted_ci.GateStore.Monad.{Result, ok, err, Stage, fault, Services}
use self_hosted_ci.Prelude.{
  refl, false, pair_eq, string_eq, nat_eq, lookup-update_self, arith, ◌∷◌, update, lookup, some,
  ◌≡◌, ◌↔◌, ◌⊎◌, none, String, ℕ, Option-cases, inl, inr,
}

abbrev pub IsCommitted : Result Completion → Type 0
IsCommitted (ok done) = done.status ≡ committed
IsCommitted (err e) = ⊥

module _ (env : Services) (key : String) (g : ℕ) (w : Winner) (kind : ResultKind) (ev : Fields)
    (now : ℕ) where
  abbrev json_digest : String
  json_digest = env.sha256 (env.dumps ev)

  abbrev message_key : String
  message_key = append key (
      append ":"
        (append (env.decimal g) (append ":" (append (winner_text w) (append ":" json_digest)))))

  -- The generation exists and is undecided, its message is new, and nothing is injected.
  abbrev pub CanCommit : Db → Type 0
  CanCommit db =
      (r : GateRow) × (select_gate key g db.gates ≡ some r)
      × ((r.winner ≡ none) ⊎ (r.winner ≡ some w))
      × (r.result_kind ≡ none)
      × (lookup outbox_row_key message_key db.outbox ≡ none)
      × (env.raises Stage.after_winner ≡ false)
      × (env.raises Stage.after_terminal ≡ false)
      × (env.raises Stage.after_outbox ≡ false)

  -- the row of the generation with its verdict
  abbrev pub decided : GateRow → GateRow
  decided r = record r {
    winner = some w;
    result_kind = some kind;
    evidence_digest = some json_digest;
    terminal_json = some (env.dumps ev);
    updated_at = now;
  }

  -- the message for the Check Run of the generation
  abbrev pub message : GateRow → OutboxRow
  message r = record {
    outbox_key = message_key;
    logical_key = key;
    generation = g;
    winner = w;
    evidence_digest = json_digest;
    check_run_id = r.check_run_id;
    payload_json = env.dumps (
        field "logical_key" (text key) (
          field "generation" (num g) (
            field "winner" (text (winner_text w)) (
              field "result_kind" (text (result_kind_text kind))
                (field "evidence_digest" (text json_digest) (field "evidence" (obj ev) end))))));
    state = pending;
    attempts = 0;
    created_at = now;
    delivered_at = none;
  }

  -- The verdict is in the row, the message in the outbox, and nothing else has changed.
  abbrev pub Writes : Db → Db → Type 0
  Writes db db' =
      (r : GateRow) × (select_gate key g db.gates ≡ some r)
      × (select_gate key g db'.gates ≡ some (decided r))
      × (db' ≡ record db {
        gates = update gate_key (key, g) decided db.gates;
        outbox = message r ∷ db.outbox;
      })

  finishes :
      (db : Db) (r : GateRow)
      → select_gate key g db.gates ≡ some r
      → (r.winner ≡ none) ⊎ (r.winner ≡ some w)
      → r.result_kind ≡ none
      → lookup outbox_row_key message_key db.outbox ≡ none
      → env.raises Stage.after_winner ≡ false
      → env.raises Stage.after_terminal ≡ false
      → env.raises Stage.after_outbox ≡ false
      → complete env key g w kind ev now db ≡ (
        ok (record {
          status = committed;
          winner = w;
          result_kind = kind;
          evidence_digest = json_digest;
          outbox_key = message_key;
        }),
        record db {
          gates = update gate_key (key, g) decided db.gates;
          outbox = message r ∷ db.outbox;
        },
      )
  unfolding complete commit_result update_gate fault insert_outbox select_gate outbox_key
  finishes db r found free undecided fresh calm_winner calm_terminal calm_outbox =
      ground (
        arith,
        winner_beq_iff w w,
        lookup-update_self gate_key (key, g) decided db.gates (λ s. refl),
      )

  needs : (db : Db) → IsCommitted (complete env key g w kind ev now db).0 → CanCommit db
  unfolding complete commit_result update_gate fault insert_outbox select_gate outbox_key
  needs db h = elim (Option-cases (lookup gate_key (key, g) db.gates)) [
    | inl e ↦ absurd (ground arith)
    | inr (r, e) ↦ elim (Option-cases r.winner) [
      | inl vacant ↦
          (r, e, inl vacant, ground arith, ground arith, ground arith, ground arith, ground arith)
      | inr (v, won) ↦ (
        r,
        e,
        inr (ground (arith, winner_beq_iff v w)),
        ground arith,
        ground arith,
        ground arith,
        ground arith,
        ground arith,
      )
    ]
  ]

  written : (db : Db) → CanCommit db → Writes db (complete env key g w kind ev now db).1
  unfolding select_gate
  written db (r, found, free, undecided, fresh, calm_winner, calm_terminal, calm_outbox) =
      rw (finishes db r found free undecided fresh calm_winner calm_terminal calm_outbox) (
        r,
        found,
        ground (arith, lookup-update_self gate_key (key, g) decided db.gates (λ s. refl)),
        refl,
      )

  -- `_complete` reports a committed verdict exactly where the generation exists, has no other winner
  -- and no result yet, its outbox key is free and no fault is injected; and then the row of the
  -- generation holds the winner, the kind, the digest and the JSON of the evidence, one pending
  -- message for its Check Run is added, and nothing else changes.
  pub commits :
      (db : Db)
      → (IsCommitted (complete env key g w kind ev now db).0 ↔ CanCommit db)
        × (IsCommitted (complete env key g w kind ev now db).0
            → Writes db (complete env key g w kind ev now db).1)
  commits db = (
    (
      needs db,
      λ (r, found, free, undecided, fresh, calm_winner, calm_terminal, calm_outbox).
          rw (finishes db r found free undecided fresh calm_winner calm_terminal calm_outbox) refl,
    ),
    λ h. written db (needs db h),
  )
