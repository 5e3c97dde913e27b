-- ===== src/GateStore/Completions.antt =====
-- `GateStore._complete`: the terminal result and its outbox row, in one transaction.
use Prim.Native.String.{◌++◌ as append}
use self_hosted_ci.Prelude.{
  ℕ, String, Bool, true, false, not, ◌&&◌, Option, none, some, ◌==◌, if◌then◌else◌, is_some, nat_eq,
  string_eq,
}
use self_hosted_ci.Json.{Fields, end, field, num, text, obj}
use self_hosted_ci.GateStore.Rows.{
  GateRow, Winner, winner_eq, winner_text, ResultKind, result_kind_eq, result_kind_text, pending,
  Completion, committed, idempotent,
}
use self_hosted_ci.GateStore.Monad.{
  Tx, Services, Stage, pure, raise, gets, or_raise, raise_if, fault, ◌>>=◌, ◌>>◌, fenced, conflict,
  type_error,
}
use self_hosted_ci.GateStore.Queries.{select_gate, update_gate, insert_outbox}

-- `GateStore._outbox_key`
unfoldable pub outbox_key : Services → String → ℕ → Winner → String → String
outbox_key env key generation winner digest = append key (
    append ":" (
      append (env.decimal generation)
        (append ":" (append (winner_text winner) (append ":" digest)))))

abbrev pub payload : String → ℕ → Winner → ResultKind → String → Fields → Fields
payload key generation winner kind digest evidence = field "logical_key" (text key) (
    field "generation" (num generation) (
      field "winner" (text (winner_text winner)) (
        field "result_kind" (text (result_kind_text kind))
          (field "evidence_digest" (text digest) (field "evidence" (obj evidence) end)))))

abbrev pub evidence_hash : Services → Fields → String
evidence_hash env evidence = env.sha256 (env.dumps evidence)

abbrev pub differs : {A : Type 0} → (A → A → Bool) → Option A → A → Bool
differs beq none a = true
differs beq (some b) a = not (beq b a)

-- `winner is not None and winner != w`
abbrev pub other_winner : Option Winner → Winner → Bool
other_winner none w = false
other_winner (some v) w = not (v == w)

abbrev pub same_result : GateRow → ResultKind → String → Bool
same_result gate kind digest =
    not (differs (λ a b. a == b) gate.result_kind kind)
    && not (differs (λ a b. a == b) gate.evidence_digest digest)

abbrev pub terminal : Winner → ResultKind → String → String → ℕ → GateRow → GateRow
terminal winner kind digest json now r = record r {
  winner = some winner;
  result_kind = some kind;
  evidence_digest = some digest;
  terminal_json = some json;
  updated_at = now;
}

-- the writes of a first completion
unfoldable pub commit_result :
    Services → GateRow → String → ℕ → Winner → ResultKind → Fields → ℕ → Tx Completion
commit_result env gate key generation winner kind evidence now = do
  let digest = evidence_hash env evidence
  update_gate key generation (terminal winner kind digest (env.dumps evidence) now)
  fault env Stage.after_winner
  fault env Stage.after_terminal
  insert_outbox (record {
    outbox_key = outbox_key env key generation winner digest;
    logical_key = key;
    generation = generation;
    winner = winner;
    evidence_digest = digest;
    check_run_id = gate.check_run_id;
    payload_json = env.dumps (payload key generation winner kind digest evidence);
    state = pending;
    attempts = 0;
    created_at = now;
    delivered_at = none;
  })
  fault env Stage.after_outbox
  pure (record {
    status = committed;
    winner = winner;
    result_kind = kind;
    evidence_digest = digest;
    outbox_key = outbox_key env key generation winner digest;
  })

-- `GateStore._complete`
unfoldable pub complete : Services → String → ℕ → Winner → ResultKind → Fields → ℕ → Tx Completion
complete env key generation winner kind evidence now = do
  let digest = evidence_hash env evidence
  gate ← or_raise (← gets λ db. select_gate key generation db.gates) type_error
  raise_if (other_winner gate.winner winner) fenced
  if is_some gate.result_kind
      then (if same_result gate kind digest
          then pure (record {
            status = idempotent;
            winner = winner;
            result_kind = kind;
            evidence_digest = digest;
            outbox_key = outbox_key env key generation winner digest;
          })
          else raise conflict)
      else commit_result env gate key generation winner kind evidence now
