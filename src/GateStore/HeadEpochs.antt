-- ===== src/GateStore/HeadEpochs.antt =====
-- `observe_head`: one generation for each head of a pull request.
use self_hosted_ci.GateStore.Outbox.{
  attempt_in, record_outbox_attempt, deliver_in, mark_outbox_delivered,
}
use self_hosted_ci.GateStore.Tables.{
  host_tables, select_tables, fail_tables, succeed_tables, admit_tables, heartbeat_tables,
  acquire_tables,
}
use self_hosted_ci.GateStore.Queries.{insert_nonce}
use self_hosted_ci.GateStore.Nonces.{bind_in, bind_attestation_nonce}
use self_hosted_ci.GateStore.Calls.{
  attempts, delivers, hosts, selects, fails, succeeds, admits, renews, acquires, binds, observes,
  Call, run, call,
}
use self_hosted_ci.GateStore.Monad.{Services, transaction, Result, ok}
use self_hosted_ci.GateStore.Heads.{record_head, observe_head}
use self_hosted_ci.GateStore.Rows.{head_key, Db, HeadRow}
use self_hosted_ci.Prelude.{
  lookup-update, pair_beq_iff, [], ◌∷◌, List, refl, pair_eq, string_eq, nat_eq, lookup-update_self,
  eq_iff, arith, inr, inl, Option-cases, ◌+◌, none, ◌<◌, lookup, ◌⊎◌, ◌≡◌, ◌≢◌, some, String,
  Option, ℕ,
}

-- The head of a pull request is known by its generation.
abbrev pub Advances : Option HeadRow → Option HeadRow → Type 0
Advances none after = Unit
Advances (some r) none = ⊥
Advances (some r) (some s) =
    ((s.head_sha ≡ r.head_sha) × (s.head_generation ≡ r.head_generation))
    ⊎ (r.head_generation < s.head_generation)

abbrev pub Stands : String → ℕ → Option HeadRow → Type 0
Stands sha g none = ⊥
Stands sha g (some r) = (r.head_sha ≡ sha) × (r.head_generation ≡ g)

-- what an observation of `sha` does, by what the table held
abbrev pub Observed : String → Db → Option HeadRow → Result ℕ × Db → Option HeadRow → Type 0
Observed sha db none out after = (out.0 ≡ ok 1) × Stands sha 1 after
Observed sha db (some r) out after =
    ((r.head_sha ≡ sha) × (out ≡ (ok r.head_generation, db)))
    ⊎ ((r.head_sha ≢ sha)
        × (out.0 ≡ ok (r.head_generation + 1))
        × Stands sha (r.head_generation + 1) after)

record_head-Observed :
    (id sha : String) (n : ℕ) (db : Db)
    → Observed sha db
        (lookup head_key (id, n) db.heads)
        (record_head id n sha db)
        (lookup head_key (id, n) (record_head id n sha db).1.heads)
record_head-Observed id sha n db = elim (Option-cases (lookup head_key (id, n) db.heads)) [
  | inl e ↦ rw e (unfold record_head lookup in ground (arith, eq_iff id id))
  | inr (r, e) ↦ rw e (
      unfold record_head in
      ground (
        arith,
        eq_iff r.head_sha sha,
        lookup-update_self head_key (id, n)
            (λ s. record s { head_sha = sha; head_generation = r.head_generation + 1 }) db.heads
            (λ s. refl),
      ))
]

observe_head-eq :
    (id sha : String) (n : ℕ) (db : Db)
    → id ≢ ""
    → sha ≢ ""
    → n ≢ 0
    → observe_head id n sha db ≡ record_head id n sha db
unfolding observe_head transaction record_head
observe_head-eq id sha n db h i j = ground (arith, eq_iff id "", eq_iff sha "")

-- What one observation returns and leaves: a first head has generation 1, the same head its own
-- generation and an unchanged database, another head the next generation.
pub observe_head-Observed :
    (id sha : String) (n : ℕ) (db : Db)
    → id ≢ ""
    → sha ≢ ""
    → n ≢ 0
    → Observed sha db
        (lookup head_key (id, n) db.heads)
        (observe_head id n sha db)
        (lookup head_key (id, n) (observe_head id n sha db).1.heads)
observe_head-Observed id sha n db h i j =
    rw (observe_head-eq id sha n db h i j) (record_head-Observed id sha n db)

Advances-refl : (o : Option HeadRow) → Advances o o
Advances-refl none = tt
Advances-refl (some r) = inl (refl, refl)

Advances-trans : (o p q : Option HeadRow) → Advances o p → Advances p q → Advances o q
Advances-trans none p q h k = tt
Advances-trans (some r) none q h k = absurd h
Advances-trans (some r) (some s) none h k = absurd k
Advances-trans (some r) (some s) (some t) h k = ground arith

record_head-Advances :
    (id sha : String) (n : ℕ) (db : Db) (k : String × ℕ)
    → Advances (lookup head_key k db.heads) (lookup head_key k (record_head id n sha db).1.heads)
record_head-Advances id sha n db k = elim (Option-cases (lookup head_key (id, n) db.heads)) [
  | inl e ↦
      unfold record_head lookup in
      ground
        (arith, pair_beq_iff string_eq nat_eq (id, n) k, Advances-refl (lookup head_key k db.heads))
  | inr (r, e) ↦
      unfold record_head in
      ground (
        arith,
        pair_beq_iff string_eq nat_eq (id, n) k,
        Advances-refl (lookup head_key k db.heads),
        lookup-update head_key (id, n) k
            (λ s. record s { head_sha = sha; head_generation = r.head_generation + 1 }) db.heads
            (λ s. refl),
      )
]

same_heads :
    (before after : List HeadRow) (k : String × ℕ)
    → after ≡ before
    → Advances (lookup head_key k before) (lookup head_key k after)
same_heads before after k e = rw e (Advances-refl (lookup head_key k before))

call-Advances :
    (env : Services) (c : Call) (now : ℕ) (db : Db) (k : String × ℕ)
    → Advances (lookup head_key k db.heads) (lookup head_key k (call env c now db).1.heads)
unfolding call transaction
call-Advances env (observes id n sha) now db k =
    unfold observe_head in
    ground (arith, record_head-Advances id sha n db k, Advances-refl (lookup head_key k db.heads))
call-Advances env (binds b) now db k =
    same_heads db.heads _ k (unfold bind_attestation_nonce bind_in insert_nonce in ground arith)
call-Advances env (acquires a) now db k = same_heads db.heads _ k ((acquire_tables a now db).0)
call-Advances env (renews l ttl) now db k =
    same_heads db.heads _ k ((heartbeat_tables l ttl now db).0)
call-Advances env (admits q uuid) now db k =
    same_heads db.heads _ k ((admit_tables env q uuid now db).0)
call-Advances env (succeeds q) now db k = same_heads db.heads _ k ((succeed_tables env q now db).0)
call-Advances env (fails q) now db k = same_heads db.heads _ k ((fail_tables env q now db).0)
call-Advances env (selects l) now db k = same_heads db.heads _ k ((select_tables env l now db).0)
call-Advances env (hosts q) now db k = same_heads db.heads _ k ((host_tables env q now db).0)
call-Advances env (delivers key digest) now db k =
    same_heads db.heads _ k (unfold mark_outbox_delivered deliver_in in ground arith)
call-Advances env (attempts key) now db k =
    same_heads db.heads _ k (unfold record_outbox_attempt attempt_in in ground arith)

-- Through any history the generation of a pull request's head never falls, and the head changes only
-- together with a greater generation: one generation never names two heads.
pub run-Advances :
    (cs : List (Services × ℕ × Call)) (db : Db) (k : String × ℕ)
    → Advances (lookup head_key k db.heads) (lookup head_key k (run cs db).heads)
unfolding run
run-Advances [] db k = Advances-refl (lookup head_key k db.heads)
run-Advances ((env, now, c) ∷ cs) db k =
    let next = (call env c now db).1 in
    Advances-trans (lookup head_key k db.heads) (lookup head_key k next.heads) _
      (call-Advances env c now db k) (run-Advances cs next k)
