-- ===== src/GateStore/Lemmas.antt =====
-- Laws of the queries.
use self_hosted_ci.Prelude.{
  ◌==◌, nat_eq, string_eq, pair_eq, Option-cases, Bool-cases, ℕ, ◌≤◌, ◌<◌, String, ◌≡◌, refl, ap,
  ◌⊎◌, inl, inr, Option, none, some, List, [], ◌∷◌, arith, eq_iff, lookup, lookup-key, update,
  pair_eq, nat_eq, string_eq,
}
use self_hosted_ci.GateStore.Rows.{Db, GateRow, gate_key}
use self_hosted_ci.GateStore.Monad.{Result, Error, ok, err, fenced}
use self_hosted_ci.GateStore.Queries.{latest_gate, Lease, select_gate, max_generation, owned}

pub select_gate-key :
    (key : String) (g : ℕ) (rows : List GateRow) (r : GateRow)
    → select_gate key g rows ≡ some r
    → (r.logical_key ≡ key) × (r.generation ≡ g)
unfolding select_gate
select_gate-key key g rows r h =
    let e = lookup-key gate_key (key, g) rows r h in (ap (λ k. k.0) e, ap (λ k. k.1) e)

abbrev pub AtMost : ℕ → Option ℕ → Type 0
AtMost g none = ⊥
AtMost g (some m) = g ≤ m

-- Every row of a key lies at or below its greatest generation.
pub select_gate-AtMost :
    (key : String) (g : ℕ) (rows : List GateRow) (r : GateRow)
    → select_gate key g rows ≡ some r
    → AtMost g (max_generation key rows)
unfolding select_gate lookup max_generation
select_gate-AtMost key g [] r h = cc
select_gate-AtMost key g (x ∷ rows) r h =
    ground (arith, eq_iff x.logical_key key, select_gate-AtMost key g rows r)

max_generation-found :
    (key : String) (m : ℕ) (rows : List GateRow)
    → max_generation key rows ≡ some m
    → (r : GateRow) × (select_gate key m rows ≡ some r)
unfolding select_gate lookup max_generation
max_generation-found key m [] h = cc
max_generation-found key m (x ∷ rows) h = elim (Bool-cases (gate_key x == (key, m))) [
  | inl hit ↦ (x, rw hit)
  | inr miss ↦
      let (r, e) =
        max_generation-found key m rows
          (ground (arith, eq_iff x.logical_key key, eq_iff key key)) in
      (r, rw miss e)
]

-- The latest row of a key, if it has one, is the row of its greatest generation.
pub latest_gate-cases :
    (key : String) (rows : List GateRow)
    → ((latest_gate key rows ≡ none) × (max_generation key rows ≡ none))
      ⊎ ((r : GateRow) × (latest_gate key rows ≡ some r)
          × (r.logical_key ≡ key)
          × (select_gate r.logical_key r.generation rows ≡ some r)
          × (max_generation r.logical_key rows ≡ some r.generation))
unfolding latest_gate
latest_gate-cases key rows = elim (Option-cases (max_generation key rows)) [
  | inl e ↦ inl (rw (e, latest_gate), e)
  | inr (m, e) ↦
      let (r, found) = max_generation-found key m rows e in
      let (same_key, same_generation) = select_gate-key key m rows r found in
      inr (r, rw (e, latest_gate) found, same_key, cc, cc)
]

pub max_generation-update :
    (key : String) (k : String × ℕ) (f : GateRow → GateRow) (rows : List GateRow)
    → ((s : GateRow) → gate_key (f s) ≡ gate_key s)
    → max_generation key (update gate_key k f rows) ≡ max_generation key rows
unfolding max_generation update
max_generation-update key k f [] keeps = refl
max_generation-update key k f (x ∷ rows) keeps = ground (
  arith,
  ap (λ k. k.0) (keeps x),
  ap (λ k. k.1) (keeps x),
  max_generation-update key k f rows keeps,
)

-- What `_owned` proves: the row of the newest generation, in the hands of the caller.
pub record Owns (l : Lease) (now : ℕ) (rows : List GateRow) (r : GateRow) : Type 0 where
  pub found : select_gate l.logical_key l.generation rows ≡ some r
  pub current : max_generation l.logical_key rows ≡ some l.generation
  pub owner : r.owner ≡ l.owner
  pub epoch : r.lease_epoch ≡ l.lease_epoch
  pub live : now < r.lease_expires_at

owned-ok :
    (l : Lease) (now : ℕ) (db db' : Db) (r : GateRow)
    → owned l now db ≡ (ok r, db')
    → (db' ≡ db) × Owns l now db.gates r
unfolding owned select_gate
owned-ok l now db db' r h = ground (arith, eq_iff r.owner l.owner)

pub owned-Owns :
    (l : Lease) (now : ℕ) (db : Db) (r : GateRow)
    → owned l now db ≡ (ok r, db)
    → Owns l now db.gates r
owned-Owns l now db r h = (owned-ok l now db db r h).1

owned-err :
    (l : Lease) (now : ℕ) (db db' : Db) (x : Error)
    → owned l now db ≡ (err x, db')
    → (db' ≡ db) × (x ≡ fenced)
unfolding owned select_gate
owned-err l now db db' x h = ground arith

pub owned_db : (l : Lease) (now : ℕ) (db : Db) → (owned l now db).1 ≡ db
unfolding owned
owned_db l now db = ground arith

-- `_owned` reads only, and refuses in one way.
pub owned-cases :
    (l : Lease) (now : ℕ) (db : Db)
    → (owned l now db ≡ (err fenced, db))
      ⊎ ((r : GateRow) × (owned l now db ≡ (ok r, db)) × Owns l now db.gates r)
owned-cases l now db = go (owned l now db) refl
  where
    go :
        (x : Result GateRow × Db)
        → owned l now db ≡ x
        → (owned l now db ≡ (err fenced, db))
          ⊎ ((r : GateRow) × (owned l now db ≡ (ok r, db)) × Owns l now db.gates r)
    go (ok r, db') e = let (same, owns) = owned-ok l now db db' r e in inr (r, cc, owns)
    go (err x, db') e = let (same, why) = owned-err l now db db' x e in inl (cc)
