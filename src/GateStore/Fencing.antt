-- ===== src/GateStore/Fencing.antt =====
-- Leases as fencing tokens: who may act, and who may not any more.
use self_hosted_ci.GateStore.Lemmas.{latest_gate-cases, max_generation-update}
use self_hosted_ci.GateStore.Effects.{taken}
use self_hosted_ci.GateStore.Moves.{next_generation}
use mathlib.Core.Option.{some}
use self_hosted_ci.GateStore.Monad.{conflict, err, transaction, ok}
use self_hosted_ci.GateStore.Queries.{
  latest_gate, update_gate, owned, max_generation, select_gate, Lease, insert_gate,
}
use self_hosted_ci.GateStore.Leases.{
  same_tuple, acquire_in, acquire, take_generation, is_positive, new_gate, read_gate,
  open_generation, Acquisition,
}
use self_hosted_ci.GateStore.Rows.{gate_key, gate_from_row, Db, GateRow, Gate}
use self_hosted_ci.Prelude.{
  ◌≢◌, ◌<◌, refl, pair_eq, string_eq, nat_eq, ◌+◌, inr, inl, inr, lookup-update_self, Bool-cases,
  update, sym, eq_iff, true, arith, ◌∷◌, lookup, ◌≡◌, ℕ,
}

abbrev pub lease_of : Gate → Lease
lease_of gate = record {
  logical_key = gate.logical_key;
  generation = gate.generation;
  owner = gate.owner;
  lease_epoch = gate.lease_epoch;
}

-- The gate answers the call: it is the caller's, for the key and the tuple asked for.
abbrev pub Answers : Acquisition → Gate → Type 0
Answers a gate =
    (gate.logical_key ≡ a.logical_key)
    × (gate.owner ≡ a.owner)
    × (gate.head_generation ≡ a.head_generation)
    × (gate.base_sha ≡ a.base_sha)
    × (gate.tested_merge_sha ≡ a.tested_merge_sha)

-- The call has put its caller in charge: `_owned` accepts the lease that the returned gate names,
-- with the row that the gate was read from.
abbrev pub InCharge : Acquisition → ℕ → Gate → Db → Type 0
InCharge a now gate db =
    (r : GateRow) × (owned (lease_of gate) now db ≡ (ok r, db))
    × (gate_from_row r ≡ gate)
    × Answers a gate

opened_owned :
    (a : Acquisition) (now g : ℕ) (db : Db)
    → is_positive a.lease_ttl ≡ true
    → g ≡ next_generation (max_generation a.logical_key db.gates)
    → let after = record db { gates = new_gate a now g ∷ db.gates } in
      owned (lease_of (gate_from_row (new_gate a now g))) now after ≡ (ok (new_gate a now g), after)
unfolding owned select_gate lookup max_generation
opened_owned a now g db p e =
    ground (arith, eq_iff a.logical_key a.logical_key, eq_iff a.owner a.owner)

opened_result :
    (a : Acquisition) (now g : ℕ) (db db' : Db) (gate : Gate)
    → open_generation a now g db ≡ (ok gate, db')
    → (gate ≡ gate_from_row (new_gate a now g))
      × (db' ≡ record db { gates = new_gate a now g ∷ db.gates })
unfolding open_generation insert_gate read_gate select_gate lookup
opened_result a now g db db' gate h = ground (arith, eq_iff a.logical_key a.logical_key)

opened-InCharge :
    (a : Acquisition) (now g : ℕ) (db db' : Db) (gate : Gate)
    → is_positive a.lease_ttl ≡ true
    → g ≡ next_generation (max_generation a.logical_key db.gates)
    → open_generation a now g db ≡ (ok gate, db')
    → InCharge a now gate db'
opened-InCharge a now g db db' gate p e h =
    let (same_gate, same_db) = opened_result a now g db db' gate h in
    (
      new_gate a now g,
      rw (same_gate, same_db) (opened_owned a now g db p e),
      sym same_gate,
      rw same_gate (refl, refl, refl, refl, refl),
    )

taken_result :
    (a : Acquisition) (now : ℕ) (r : GateRow) (db db' : Db) (gate : Gate)
    → a.logical_key ≡ r.logical_key
    → select_gate r.logical_key r.generation db.gates ≡ some r
    → take_generation a now r db ≡ (ok gate, db')
    → (gate ≡ gate_from_row (taken a now r r))
      × (db' ≡ record db { gates = update gate_key (gate_key r) (taken a now r) db.gates })
unfolding take_generation update_gate read_gate select_gate
taken_result a now r db db' gate e found h =
    ground (arith, lookup-update_self gate_key (gate_key r) (taken a now r) db.gates (λ s. refl))

taken-owned :
    (a : Acquisition) (now : ℕ) (r : GateRow) (db : Db)
    → is_positive a.lease_ttl ≡ true
    → select_gate r.logical_key r.generation db.gates ≡ some r
    → max_generation r.logical_key db.gates ≡ some r.generation
    → let after = record db { gates = update gate_key (gate_key r) (taken a now r) db.gates } in
      owned (lease_of (gate_from_row (taken a now r r))) now after ≡ (ok (taken a now r r), after)
unfolding owned select_gate
taken-owned a now r db p found newest = ground (
  arith,
  eq_iff a.owner a.owner,
  lookup-update_self gate_key (gate_key r) (taken a now r) db.gates (λ s. refl),
  max_generation-update r.logical_key (gate_key r) (taken a now r) db.gates (λ s. refl),
)

taken-Answers :
    (a : Acquisition) (now : ℕ) (r : GateRow)
    → a.logical_key ≡ r.logical_key
    → same_tuple a r ≡ true
    → Answers a (gate_from_row (taken a now r r))
taken-Answers a now r e same =
    ground (arith, eq_iff r.base_sha a.base_sha, eq_iff r.tested_merge_sha a.tested_merge_sha)

taken-InCharge :
    (a : Acquisition) (now : ℕ) (r : GateRow) (db db' : Db) (gate : Gate)
    → is_positive a.lease_ttl ≡ true
    → a.logical_key ≡ r.logical_key
    → same_tuple a r ≡ true
    → select_gate r.logical_key r.generation db.gates ≡ some r
    → max_generation r.logical_key db.gates ≡ some r.generation
    → take_generation a now r db ≡ (ok gate, db')
    → InCharge a now gate db'
taken-InCharge a now r db db' gate p e same found newest h =
    let (same_gate, same_db) = taken_result a now r db db' gate e found h in
    (
      taken a now r r,
      rw (same_gate, same_db) (taken-owned a now r db p found newest),
      sym same_gate,
      rw same_gate (taken-Answers a now r e same),
    )

-- Whoever acquires a gate may act on it at once: the returned gate is the caller's, for the key and the
-- tuple asked for, `_owned` accepts its lease, and it is what the row of the store says.
pub acquire-InCharge :
    (a : Acquisition) (now : ℕ) (db db' : Db) (gate : Gate)
    → acquire a now db ≡ (ok gate, db')
    → InCharge a now gate db'
unfolding acquire acquire_in transaction
acquire-InCharge a now db db' gate h = elim (Bool-cases (is_positive a.lease_ttl)) [
  | inr bad ↦ absurd (ground arith)
  | inl p ↦ elim (latest_gate-cases a.logical_key db.gates) [
    | inl (e, newest) ↦ opened-InCharge a now 1 db db' gate p (rw newest) (ground arith)
    | inr (r, e, same_key, found, newest) ↦ elim (Bool-cases (same_tuple a r)) [
      | inl same ↦
          taken-InCharge a now r db db' gate p (sym same_key) same found newest (ground arith)
      | inr other ↦
          opened-InCharge a now (r.generation + 1) db db' gate p (rw (← same_key, newest))
            (ground arith)
    ]
  ]
]

-- While another owner's lease on the same tuple is live, `acquire` is refused and changes nothing.
pub acquire_excludes :
    (a : Acquisition) (now : ℕ) (db : Db) (r : GateRow)
    → is_positive a.lease_ttl ≡ true
    → latest_gate a.logical_key db.gates ≡ some r
    → same_tuple a r ≡ true
    → r.owner ≢ a.owner
    → now < r.lease_expires_at
    → acquire a now db ≡ (err conflict, db)
unfolding acquire acquire_in take_generation transaction
acquire_excludes a now db r p e same other live = ground (arith, eq_iff r.owner a.owner)
