-- ===== src/GateStore/Overtaking.antt =====
-- A lease that another owner has overtaken never works again.
use self_hosted_ci.GateStore.Effects.{acquire-Move}
use self_hosted_ci.GateStore.Histories.{run-Kept, run-Grows}
use self_hosted_ci.GateStore.Fencing.{acquire-InCharge, lease_of, InCharge}
use self_hosted_ci.GateStore.Moves.{Move, Keeps}
use self_hosted_ci.GateStore.Lemmas.{owned-cases, owned-Owns, Owns}
use self_hosted_ci.GateStore.Calls.{run, Call}
use self_hosted_ci.GateStore.Permanence.{Move-Kept, Move-Grows, Grows, Grows-some, Kept}
use self_hosted_ci.GateStore.Leases.{acquire, Acquisition}
use self_hosted_ci.GateStore.Monad.{fenced, ok, err, Services}
use self_hosted_ci.GateStore.Rows.{Gate, Db, GateRow}
use self_hosted_ci.GateStore.Queries.{select_gate, owned, max_generation, Lease}
use mathlib.Core.Option.{some, Option}
use native.Mathlib.Decide.{dec_lt}
use self_hosted_ci.Prelude.{ap, subst, refl, arith, none, ◌⊎◌, ◌≢◌, inr, inl, ◌<◌, ◌≡◌, List, ℕ}

-- The lease has been overtaken, by a newer generation or by a newer epoch of its own.
abbrev pub Gone : Lease → List GateRow → Type 0
Gone l rows =
    ((m : ℕ) × (max_generation l.logical_key rows ≡ some m) × (l.generation < m))
    ⊎ ((r : GateRow) × (select_gate l.logical_key l.generation rows ≡ some r)
        × (l.lease_epoch < r.lease_epoch))

Gone-refused : (l : Lease) (t : ℕ) (db : Db) → Gone l db.gates → owned l t db ≡ (err fenced, db)
Gone-refused l t db gone = elim (owned-cases l t db) [
  | inl refused ↦ refused
  | inr (r, e, o) ↦ absurd (clash gone o.found o.current o.epoch)
]
  where
    clash :
        {r : GateRow}
        → Gone l db.gates
        → select_gate l.logical_key l.generation db.gates ≡ some r
        → max_generation l.logical_key db.gates ≡ some l.generation
        → r.lease_epoch ≡ l.lease_epoch
        → ⊥
    clash (inl (m, e, h)) found current same = ground arith
    clash (inr (s, e, h)) found current same = ground arith

Kept-some :
    (r : GateRow) (o : Option GateRow) → Kept (some r) o → (s : GateRow) × (o ≡ some s) × Keeps r s
Kept-some r none h = absurd h
Kept-some r (some s) h = (s, refl, h)

Gone-run :
    (cs : List (Services × ℕ × Call)) (l : Lease) (db : Db)
    → Gone l db.gates
    → Gone l (run cs db).gates
Gone-run cs l db (inl (m, e, h)) =
    let (n, newer, le) = Grows-some m (max_generation l.logical_key (run cs db).gates) (
      subst (λ o. Grows o (max_generation l.logical_key (run cs db).gates)) e
        (run-Grows cs db l.logical_key)) in
    inl (n, newer, omega arith)
Gone-run cs l db (inr (r, e, h)) =
    let (s, later, keeps) = Kept-some r (select_gate l.logical_key l.generation (run cs db).gates) (
      subst (λ o. Kept o (select_gate l.logical_key l.generation (run cs db).gates)) e
        (run-Kept cs db l.logical_key l.generation)) in
    inr (s, later, omega (arith, keeps.epoch))

acquire-Gone :
    (l : Lease) (a : Acquisition) (now held : ℕ) (db db' : Db) (r : GateRow) (gate : Gate)
    → Owns l held db.gates r
    → a.owner ≢ l.owner
    → a.logical_key ≡ l.logical_key
    → Move db.gates db'.gates
    → InCharge a now gate db'
    → Gone l db'.gates
acquire-Gone l a now held db db' r gate o other same_key moved (s, e, same_gate, answers) =
    let own = owned-Owns (lease_of gate) now db' s e in
    let (n, newer, le) = Grows-some l.generation (max_generation l.logical_key db'.gates) (
      subst (λ x. Grows x (max_generation l.logical_key db'.gates)) o.current
        (Move-Grows db.gates db'.gates moved l.logical_key)) in
    let (q, later, keeps) = Kept-some r (select_gate l.logical_key l.generation db'.gates) (
      subst (λ x. Kept x (select_gate l.logical_key l.generation db'.gates)) o.found
        (Move-Kept db.gates db'.gates moved l.logical_key l.generation)) in
    let here : max_generation l.logical_key db'.gates ≡ some gate.generation = cc (own.current) in
    let top : n ≡ gate.generation = ground arith in
    elim (dec_lt l.generation n) [
      | yes lower ↦ inl (n, newer, lower)
      | no not_lower ↦
          let same_generation : gate.generation ≡ l.generation = omega arith in
          let row : select_gate l.logical_key l.generation db'.gates ≡ some s = cc (own.found) in
          let same_row : q ≡ s = cc in
          inr (
            q,
            later,
            risen q (keeps.owner)
                (λ same. other (cc (own.owner, o.owner, same, same_row, answers.1))) o.epoch,
          )
    ]
  where
    risen :
        (q : GateRow)
        → (q.owner ≡ r.owner) ⊎ (r.lease_epoch < q.lease_epoch)
        → (q.owner ≡ r.owner → ⊥)
        → r.lease_epoch ≡ l.lease_epoch
        → l.lease_epoch < q.lease_epoch
    risen q (inl same) never e = absurd (never same)
    risen q (inr h) never e = omega arith

-- Once another owner has acquired a key, the lease that held it is dead: no later history, whatever
-- calls it holds, makes `_owned` accept that lease again, at any time.
pub overtaken_for_good :
    (l : Lease) (a : Acquisition) (now held t : ℕ) (db db' : Db) (r : GateRow) (gate : Gate)
    (cs : List (Services × ℕ × Call))
    → owned l held db ≡ (ok r, db)
    → a.logical_key ≡ l.logical_key
    → a.owner ≢ l.owner
    → acquire a now db ≡ (ok gate, db')
    → owned l t (run cs db') ≡ (err fenced, run cs db')
overtaken_for_good l a now held t db db' r gate cs own same_key other got =
    Gone-refused l t (run cs db') (Gone-run cs l db' gone)
  where
    gone : Gone l db'.gates
    gone =
        acquire-Gone l a now held db db' r gate (owned-Owns l held db r own) other same_key
          (subst (Move db.gates) (ap (λ x. x.1.gates) got) (acquire-Move a now db))
          (acquire-InCharge a now db db' gate got)
