-- ===== src/GateStore/Effects.antt =====
-- Each method makes a move on the table of gates.
pub mod Verdicts
use self_hosted_ci.Prelude.{
  eq_iff, ◌∙◌, ℕ, ◌+◌, ℤ, ◌≡◌, refl, sym, ap, ◌⊎◌, inl, inr, List, ◌∷◌, arith, not, ◌||◌,
  if◌then◌else◌, add_ℤ, ltb, ◌==◌, Bool-cases, update, pair_eq, nat_eq, string_eq,
}
use self_hosted_ci.GateStore.Rows.{Db, GateRow, gate_key}
use self_hosted_ci.GateStore.Monad.{Tx, Result, ok, err, transaction}
use self_hosted_ci.GateStore.Queries.{Lease, max_generation, latest_gate, update_gate, insert_gate}
use self_hosted_ci.GateStore.Leases.{
  read_gate, is_positive, Acquisition, acquire, heartbeat, renew_lease, acquire_in, open_generation,
  take_generation, new_gate, same_tuple,
}
use self_hosted_ci.GateStore.Lemmas.{latest_gate-cases, select_gate-key, owned-cases, Owns}
use self_hosted_ci.GateStore.Moves.{next_generation, Move, stay, opens, rewrites, Keeps}

pub transaction-Move :
    {A : Type 0} (m : Tx A) (db : Db)
    → Move db.gates (m db).1.gates
    → Move db.gates (transaction m db).1.gates
unfolding transaction
transaction-Move {A} m db h = go (m db) refl
  where
    go : (x : Result A × Db) → m db ≡ x → Move db.gates (transaction m db).1.gates
    go (ok a, db') e = rw (e, transaction) h
    go (err x, db') e = rw (e, transaction) (stay refl)

open_generation_gates :
    (a : Acquisition) (now g : ℕ) (db : Db)
    → ((open_generation a now g db).1.gates ≡ db.gates)
      ⊎ ((open_generation a now g db).1.gates ≡ new_gate a now g ∷ db.gates)
unfolding open_generation insert_gate read_gate
open_generation_gates a now g db = ground arith

open_generation-Move :
    (a : Acquisition) (now g : ℕ) (db : Db)
    → g ≡ next_generation (max_generation a.logical_key db.gates)
    → Move db.gates (open_generation a now g db).1.gates
open_generation-Move a now g db e = elim (open_generation_gates a now g db) [
  | inl same ↦ stay same
  | inr added ↦ opens (new_gate a now g) e refl refl refl added
]

abbrev pub taken : Acquisition → ℕ → GateRow → GateRow → GateRow
taken a now latest r = record r {
  owner = a.owner;
  lease_epoch =
      if not (latest.owner == a.owner) || not (ltb now latest.lease_expires_at)
      then latest.lease_epoch + 1
      else latest.lease_epoch;
  lease_expires_at = add_ℤ now a.lease_ttl;
  updated_at = now;
}

take_generation_gates :
    (a : Acquisition) (now : ℕ) (r : GateRow) (db : Db)
    → ((take_generation a now r db).1.gates ≡ db.gates)
      ⊎ ((take_generation a now r db).1.gates
          ≡ update gate_key (a.logical_key, r.generation) (taken a now r) db.gates)
unfolding take_generation update_gate read_gate
take_generation_gates a now r db = ground arith

taken-Keeps : (a : Acquisition) (now : ℕ) (r : GateRow) → Keeps r (taken a now r r)
taken-Keeps a now r = ground (arith, eq_iff r.owner a.owner)

acquire_in-Move :
    (a : Acquisition) (now : ℕ) (db : Db)
    → Move db.gates (acquire_in a now (latest_gate a.logical_key db.gates) db).1.gates
unfolding acquire_in
acquire_in-Move a now db = elim (latest_gate-cases a.logical_key db.gates) [
  | inl (e, newest) ↦ rw e (open_generation-Move a now 1 db (rw newest))
  | inr (r, e, same_key, found, newest) ↦ rw e (elim (Bool-cases (same_tuple a r)) [
    | inl same ↦ rw same (elim (take_generation_gates a now r db) [
      | inl kept ↦ stay kept
      | inr changed ↦
          rewrites r (taken a now r) found newest (λ s. refl) (taken-Keeps a now r)
            (changed
              ∙ ap (λ k. update gate_key (k, r.generation) (taken a now r) db.gates) (sym same_key))
    ])
    | inr other ↦
        rw other (open_generation-Move a now (r.generation + 1) db (rw (← same_key, newest)))
  ])
]

pub acquire-Move : (a : Acquisition) (now : ℕ) (db : Db) → Move db.gates (acquire a now db).1.gates
unfolding acquire
acquire-Move a now db = elim (Bool-cases (is_positive a.lease_ttl)) [
  | inl fine ↦ rw fine (
      transaction-Move (λ d. acquire_in a now (latest_gate a.logical_key d.gates) d) db
        (acquire_in-Move a now db))
  | inr bad ↦ rw bad (stay refl)
]

-- A rewrite of the row that `_owned` returned.
owned_rewrites :
    (l : Lease) (now : ℕ) (db : Db) (r : GateRow) (f : GateRow → GateRow) (after : List GateRow)
    → Owns l now db.gates r
    → ((s : GateRow) → gate_key (f s) ≡ gate_key s)
    → Keeps r (f r)
    → after ≡ update gate_key (l.logical_key, l.generation) f db.gates
    → Move db.gates after
owned_rewrites l now db r f after o keys keeps e =
    let (same_key, same_generation) =
      select_gate-key l.logical_key l.generation db.gates r o.found in
    rewrites r f (cc (o.found)) (cc (o.current)) keys keeps (cc)

renew_lease-Move :
    (l : Lease) (ttl : ℤ) (now : ℕ) (db : Db) → Move db.gates (renew_lease l ttl now db).1.gates
unfolding renew_lease update_gate
renew_lease-Move l ttl now db = elim (owned-cases l now db) [
  | inl refused ↦ stay (ground arith)
  | inr (r, e, o) ↦
      owned_rewrites l now db r
        (λ s. record s { lease_expires_at = add_ℤ now ttl; updated_at = now }) _ o (λ s. refl)
        (ground arith) (ground arith)
]

pub heartbeat-Move :
    (l : Lease) (ttl : ℤ) (now : ℕ) (db : Db) → Move db.gates (heartbeat l ttl now db).1.gates
unfolding heartbeat
heartbeat-Move l ttl now db =
    transaction-Move (renew_lease l ttl now) db (renew_lease-Move l ttl now db)
