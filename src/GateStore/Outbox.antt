-- ===== src/GateStore/Outbox.antt =====
-- The delivery side: `pending_outbox`, `mark_outbox_delivered`, `record_outbox_attempt`, and the
-- reads `get_gate` and `get_admission`.
use Prim.Native.Nat.{Ordering}
use Prim.Native.String.{compare as compare_text}
use self_hosted_ci.Prelude.{
  ℕ, ◌+◌, String, Bool, true, false, ◌&&◌, ◌||◌, Option, none, some, List, [], ◌∷◌, ltb, ◌==◌,
  if◌then◌else◌, is_none, lookup, update, nat_eq, string_eq, pair_eq,
}
use self_hosted_ci.GateStore.Rows.{
  Db, Gate, Admission, OutboxRow, Delivery, pending, delivered, outbox_row_key, admission_key,
  gate_from_row, admission_from_row,
}
use self_hosted_ci.GateStore.Monad.{
  Tx, pure, gets, modify, or_raise, raise_if, raise_unless, transaction, ◌>>=◌, ◌>>◌,
  control_failure, conflict,
}
use self_hosted_ci.GateStore.Queries.{select_gate, latest_gate}

pub data DeliveryStatus : Type 0 where
  idempotent delivered_now : DeliveryStatus

abbrev pub is_pending : Delivery → Bool
is_pending pending = true
is_pending delivered = false

-- `ORDER BY created_at, outbox_key`: may `a` stand before `b`?
unfoldable pub precedes : OutboxRow → OutboxRow → Bool
precedes a b =
    ltb a.created_at b.created_at
    || (a.created_at == b.created_at
        && elim (compare_text a.outbox_key b.outbox_key) [ Ordering.gt ↦ false | _ ↦ true ])

unfoldable pub place : OutboxRow → List OutboxRow → List OutboxRow
place a [] = a ∷ []
place a (b ∷ rows) = if precedes a b then a ∷ b ∷ rows else b ∷ place a rows

-- `SELECT * FROM outbox WHERE state='pending' ORDER BY …`
unfoldable pub pending_outbox : List OutboxRow → List OutboxRow
pending_outbox [] = []
pending_outbox (a ∷ rows) =
    let rest = pending_outbox rows in if is_pending a.state then place a rest else rest

unfoldable pub deliver_in : String → String → ℕ → Tx DeliveryStatus
deliver_in key digest now = do
  row ← or_raise (← gets λ db. lookup outbox_row_key key db.outbox) control_failure
  raise_unless (row.evidence_digest == digest) conflict
  if is_pending row.state
      then (do
        modify λ db. record db {
          outbox =
              update outbox_row_key key
                (λ r. record r {
                  state = delivered;
                  attempts = r.attempts + 1;
                  delivered_at = some now;
                })
                db.outbox;
        }
        pure delivered_now)
      else pure idempotent

unfoldable pub mark_outbox_delivered : String → String → ℕ → Tx DeliveryStatus
mark_outbox_delivered key digest now = transaction (deliver_in key digest now)

-- an UPDATE that must have changed one row
unfoldable pub attempt_in : String → Tx (Unit {0})
attempt_in key = do
  found ← gets λ db. lookup outbox_row_key key db.outbox
  modify λ db. record db {
    outbox = update outbox_row_key key (λ r. record r { attempts = r.attempts + 1 }) db.outbox;
  }
  raise_if (is_none found) control_failure

unfoldable pub record_outbox_attempt : String → Tx (Unit {0})
record_outbox_attempt key = transaction (attempt_in key)

unfoldable pub get_gate : String → Option ℕ → Db → Option Gate
get_gate key none db = elim (latest_gate key db.gates) [
  | none ↦ none
  | some r ↦ some (gate_from_row r)
]
get_gate key (some g) db = elim (select_gate key g db.gates) [
  | none ↦ none
  | some r ↦ some (gate_from_row r)
]

unfoldable pub get_admission : String → ℕ → Db → Option Admission
get_admission key generation db = elim (lookup admission_key (key, generation) db.admissions) [
  | none ↦ none
  | some r ↦ some (admission_from_row r)
]
