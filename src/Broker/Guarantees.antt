-- ===== src/Broker/Guarantees.antt =====
-- What the broker guarantees where it returns: the allocation and its scale set are gone.
use self_hosted_ci.Allocation.Uniqueness.{exists-recoverable}
use self_hosted_ci.Prelude.{
  ℕ, ◌≡◌, refl, sym, subst, String, Bool, true, false, none, some, List, [], ◌∷◌, ◌==◌, arith,
  Bool-cases, Option-cases, inl, inr, nat_eq, string_eq, lookup, exists,
}
use self_hosted_ci.Json.{Fields}
use self_hosted_ci.Effects.{pure, gets, Outcome, ok, err, Act, continue, ◌>>=◌}
use self_hosted_ci.Effects.Found.{Finds, returning}
use self_hosted_ci.Effects.Related.{Related, Related-bind, Related-pure}
use self_hosted_ci.Allocation.{Services}
use self_hosted_ci.Allocation.Rows.{AllocationRow, row_key, Ledger, is_cleaned}
use self_hosted_ci.Allocation.Admission.{recoverable, recoverable_allocation_ids}
use self_hosted_ci.Allocation.Steps.{is_valid_row, IsValid, lookup-valid, Moves-IsPreorder}
use self_hosted_ci.Allocation.Lives.{life, life_of}
use self_hosted_ci.Allocation.Histories.{life_in}
use self_hosted_ci.Allocation.Cleanups.{is_gone}
use self_hosted_ci.Broker.{Failure, State, Driver, Broker, on_ledger, outside}
use self_hosted_ci.Broker.Recovery.{recover, finish, recover_each, recover_all}
use self_hosted_ci.Broker.Moves.{
  Serves, Serves-IsPreorder, broker_rules, outside-Serves, recover-Serves, finish-Serves,
  recover_each-Serves,
}
use self_hosted_ci.Broker.Cleaning.{
  gone_in, stays_gone, Cleans-first, recover-Cleans, finish-Cleans, recover_each-Cleans,
}

-- The row of the allocation is cleaned, and says that its cleanup is complete.
abbrev pub IsCleaned : String → Ledger → Type 0
IsCleaned id s =
    (t : AllocationRow) × (lookup row_key id s.allocations ≡ some t)
    × (is_cleaned t.state ≡ true)
    × (t.cleanup_complete ≡ true)

gone-IsCleaned :
    (id : String) (s : Ledger)
    → IsValid s.allocations
    → is_gone (life_in id s) ≡ true
    → IsCleaned id s
gone-IsCleaned id s v e = elim (Option-cases (lookup row_key id s.allocations)) [
  | inl nowhere ↦
      let gone : is_gone (life none) ≡ true = subst (λ o. is_gone (life o) ≡ true) nowhere e in
      absurd (ground arith)
  | inr (t, there) ↦
      let valid = lookup-valid id s.allocations t v there in
      let gone : is_gone (life_of t) ≡ true = subst (λ o. is_gone (life o) ≡ true) there e in
      (t, there, ground arith, ground arith)
]

module _ {W : Type 0} (sv : Services) (d : Driver W) where
  -- Where `recover` returns, from a valid table and whatever the driver does, the allocation is cleaned.
  pub recover-IsCleaned :
      (id : String) (s : State W) (answer : Fields)
      → IsValid s.ledger.allocations
      → (recover sv d id s).0 ≡ ok answer
      → IsCleaned id (recover sv d id s).1.ledger
  recover-IsCleaned id s answer v e =
      gone-IsCleaned id (recover sv d id s).1.ledger (((recover-Serves sv d id).at s).valid v)
        ((recover-Cleans sv d id).at s v answer e)

  -- Where `finish` returns, from a valid table and whatever the driver does, the allocation is cleaned,
  -- whether its job ran or not.
  pub finish-IsCleaned :
      (fuel : ℕ) (id outcome : String) (cancelled : Bool) (s : State W) (answer : Fields)
      → IsValid s.ledger.allocations
      → (finish fuel sv d id outcome cancelled s).0 ≡ ok answer
      → IsCleaned id (finish fuel sv d id outcome cancelled s).1.ledger
  finish-IsCleaned fuel id outcome cancelled s answer v e =
      gone-IsCleaned id (finish fuel sv d id outcome cancelled s).1.ledger
        (((finish-Serves fuel sv d id outcome cancelled).at s).valid v)
        ((finish-Cleans fuel sv d id outcome cancelled).at s v answer e)

pub lookup-recoverable :
    (id : String) (rows : List AllocationRow) (r : AllocationRow)
    → lookup row_key id rows ≡ some r
    → r.cleanup_complete ≡ false
    → exists (λ k. k == id) (recoverable rows) ≡ true
unfolding lookup
lookup-recoverable id [] r e h = absurd (ground arith)
lookup-recoverable id (q ∷ rows) r e h = ground (
  arith,
  exists-recoverable (λ k. k == id) (q ∷ rows),
  exists-recoverable (λ k. k == id) rows,
  lookup-recoverable id rows r,
)

complete_gone :
    (r : AllocationRow)
    → is_valid_row r ≡ true
    → r.cleanup_complete ≡ true
    → is_gone (life_of r) ≡ true
complete_gone r v h = ground arith

module _ {W : Type 0} where
  module _ {A B : Type 0} (Q : Outcome Failure B × State W → Type 0) (f : A → Broker W B)
      (b : B) where
    proceeds :
        (s : State W) (r : Outcome Failure A) (w : W)
        → ((a : A) (t : State W) → t.ledger ≡ s.ledger → (f a t).0 ≡ ok b → Q (f a t))
        → (continue r f (record s { world = w })).0 ≡ ok b
        → Q (continue r f (record s { world = w }))
    proceeds s (ok a) w k e = k a (record s { world = w }) refl e
    proceeds s (err x) w k e = absurd (ground arith)

    -- a call of the driver leaves the ledger as it is
    after_outside :
        (m : Act Failure W A) (s : State W)
        → ((a : A) (t : State W) → t.ledger ≡ s.ledger → (f a t).0 ≡ ok b → Q (f a t))
        → ((outside m >>= f) s).0 ≡ ok b
        → Q ((outside m >>= f) s)
    unfolding outside ◌>>=◌
    after_outside m s k e = proceeds s (m s.world).0 (m s.world).1 k e

module _ {W : Type 0} (sv : Services) (d : Driver W) where
  -- the ids that `recover_all` reads
  ids-Finds :
      (s : State W)
      → Finds s
          (λ ids. recoverable s.ledger.allocations ≡ ids)
          (on_ledger recoverable_allocation_ids)
  unfolding on_ledger recoverable_allocation_ids gets
  ids-Finds s = record { at = (refl, refl) }

  recover_all-Serves : Related Serves (recover_all sv d)
  unfolding recover_all
  recover_all-Serves = Related-bind _ _ (outside-Serves _) λ _.
      Related-bind _ _ (search broker_rules) λ ids.
        Related-bind _ _ (recover_each-Serves sv d ids)
          λ _. Related-bind _ _ (outside-Serves _) λ _. Related-pure _

  -- an allocation that is listed
  recover_listed :
      (s : State W) (id : String) (answer : List String)
      → IsValid s.ledger.allocations
      → exists (λ k. k == id) (recoverable s.ledger.allocations) ≡ true
      → ((on_ledger recoverable_allocation_ids >>= λ ids. recover_each sv d ids >>= λ recovered.
            outside d.assert_runtime_empty >>= λ _. pure recovered)
          s).0
        ≡ ok answer
      → gone_in id
          ((on_ledger recoverable_allocation_ids >>= λ ids. recover_each sv d ids >>= λ recovered.
              outside d.assert_runtime_empty >>= λ _. pure recovered)
            s).1
        ≡ true
  recover_listed s id answer v listed e =
      returning (λ r. gone_in id r.1 ≡ true) _ _ answer (ids-Finds s)
        (λ ids same.
          (Cleans-first id _ _ (recover_each-Serves sv d ids)
              (recover_each-Cleans sv d ids id
                (subst (λ l. exists (λ k. k == id) l ≡ true) same listed))
              λ _. Related-bind _ _ (outside-Serves _) λ _. Related-pure _).at
            s v answer)
        e

  listed_gone :
      (s : State W) (id : String) (answer : List String)
      → IsValid s.ledger.allocations
      → exists (λ k. k == id) (recoverable s.ledger.allocations) ≡ true
      → (recover_all sv d s).0 ≡ ok answer
      → gone_in id (recover_all sv d s).1 ≡ true
  unfolding recover_all
  listed_gone s id answer v listed =
      after_outside (λ r. gone_in id r.1 ≡ true) _ answer d.assert_no_persistent_scale_set s
        λ u t same.
          recover_listed t id answer (subst (λ (l : Ledger). IsValid l.allocations) (sym same) v) (
            subst (λ (l : Ledger). exists (λ k. k == id) (recoverable l.allocations) ≡ true)
              (sym same) listed)

  -- Where `recover_all` returns, from a valid table and whatever the driver does, every allocation that the
  -- ledger holds is cleaned.
  pub recover_all-IsCleaned :
      (s : State W) (id : String) (r : AllocationRow) (answer : List String)
      → IsValid s.ledger.allocations
      → lookup row_key id s.ledger.allocations ≡ some r
      → (recover_all sv d s).0 ≡ ok answer
      → IsCleaned id (recover_all sv d s).1.ledger
  recover_all-IsCleaned s id r answer v there e =
      gone-IsCleaned id (recover_all sv d s).1.ledger ((recover_all-Serves.at s).valid v)
        (elim (Bool-cases r.cleanup_complete) [
          | inl complete ↦
              stays_gone id s (recover_all sv d s).1 (recover_all-Serves.at s) v (
                rw there
                  (complete_gone r (lookup-valid id s.ledger.allocations r v there) complete))
          | inr pending ↦
              listed_gone s id answer v (lookup-recoverable id s.ledger.allocations r there pending)
                e
        ])
