-- ===== src/Broker/Cleaning.antt =====
-- The broker's recovery and ending of an allocation: where they return, it is gone.
use self_hosted_ci.Prelude.{
  eq_iff, ◌∙◌, ℕ, ◌≡◌, refl, sym, subst, ap, String, Bool, true, false, not, ◌||◌, List, [], ◌∷◌,
  ◌==◌, arith, Bool-cases, inl, inr, nat_eq, string_eq, exists,
}
use self_hosted_ci.Effects.{Outcome, ok, err, Act, continue, ◌>>=◌}
use self_hosted_ci.Effects.Related.{Related, Related-bind, Related-pure}
use self_hosted_ci.Effects.Found.{Found, Finds, returning}
use self_hosted_ci.Allocation as Allocation
use self_hosted_ci.Allocation.{Services}
use self_hosted_ci.Allocation.Rows.{Ledger, is_running, is_terminal, is_cleaned}
use self_hosted_ci.Allocation.Steps.{IsValid, Moves-IsPreorder}
use self_hosted_ci.Allocation.Histories.{life_in}
use self_hosted_ci.Allocation.Lifecycle.{no_arguments, AllocationRecord, transition, get_record}
use self_hosted_ci.Allocation.Cleanups.{
  is_gone, gone-⟶*, cleanup-gone, acknowledge-gone, get_record-Finds,
}
use self_hosted_ci.Broker.{Failure, State, Driver, Broker, from_ledger, on_ledger}
use self_hosted_ci.Broker.Recovery.{acknowledge, settle_record, recover, finish, recover_each}
use self_hosted_ci.Broker.Moves.{
  settle_record-Serves, Serves, Serves-IsPreorder, broker_rules, outside-Serves, text_at-Serves,
  delete_exact-Serves, delete_known-Serves, wait_for_cleanup-Serves, binding_of-Serves,
  find_bound-Serves, acknowledge-Serves, recover-Serves, recover_each-Serves,
}

pub returns_ok :
    {A : Type 0} (r : Outcome Allocation.Failure A) (a : A) → from_ledger r ≡ ok a → r ≡ ok a
returns_ok (ok b) a e = ground arith
returns_ok (err x) a e = absurd (ground arith)

module _ {W : Type 0} where
  abbrev pub gone_in : String → State W → Bool
  gone_in id s = is_gone (life_in id s.ledger)

  pub stays_gone :
      (id : String) (s t : State W)
      → Serves s t
      → IsValid s.ledger.allocations
      → gone_in id s ≡ true
      → gone_in id t ≡ true
  stays_gone id s t h v e =
      gone-⟶* (life_in id s.ledger) (life_in id t.ledger) (h.moved v id).lives e

  -- Where `m` returns, the allocation is gone.
  pub record Cleans {A : Type 0} (id : String) (m : Broker W A) : Type 0 where
    pub at :
        (s : State W)
        → IsValid s.ledger.allocations
        → (a : A) → (m s).0 ≡ ok a
        → gone_in id (m s).1 ≡ true

  module _ {A B : Type 0} (id : String) (m : Broker W A) (f : A → Broker W B) where
    continue-Cleans :
        (s : State W) (r : Outcome Failure A × State W) (b : B)
        → Serves s r.1
        → ((a : A) → Cleans id (f a))
        → IsValid s.ledger.allocations
        → (continue r.0 f r.1).0 ≡ ok b
        → gone_in id (continue r.0 f r.1).1 ≡ true
    continue-Cleans s (ok a, t) b h k v e = (k a).at t (h.valid v) b e
    continue-Cleans s (err x, t) b h k v e = absurd (ground arith)

    -- what follows cleans
    pub Cleans-bind : Related Serves m → ((a : A) → Cleans id (f a)) → Cleans id (m >>= f)
    unfolding ◌>>=◌
    Cleans-bind h k = record { at = λ s v b e. continue-Cleans s (m s) b (h.at s) k v e }

    cleaned_before :
        (s : State W) (r : Outcome Failure A × State W) (b : B)
        → Serves s r.1
        → ((a : A) → r.0 ≡ ok a → gone_in id r.1 ≡ true)
        → ((a : A) → Related Serves (f a))
        → IsValid s.ledger.allocations
        → (continue r.0 f r.1).0 ≡ ok b
        → gone_in id (continue r.0 f r.1).1 ≡ true
    cleaned_before s (ok a, t) b h c k v e =
        stays_gone id t (f a t).1 ((k a).at t) (h.valid v) (c a refl)
    cleaned_before s (err x, t) b h c k v e = absurd (ground arith)

    -- what goes before has cleaned
    pub Cleans-first :
        Related Serves m → Cleans id m → ((a : A) → Related Serves (f a)) → Cleans id (m >>= f)
    unfolding ◌>>=◌
    Cleans-first h c k = record {
      at = λ s v b e. cleaned_before s (m s) b (h.at s) (c.at s v) k v e;
    }

  Cleans-on_ledger :
      {A : Type 0} (id : String) (m : Act Allocation.Failure Ledger A)
      → ((s : Ledger) (a : A) → (m s).0 ≡ ok a → is_gone (life_in id (m s).1) ≡ true)
      → Cleans id (on_ledger m)
  unfolding on_ledger
  Cleans-on_ledger id m h = record { at = λ s v a e. h s.ledger a (returns_ok (m s.ledger).0 a e) }

  acknowledge-Cleans :
      (sv : Services) (d : Driver W) (id name : String) → Cleans id (acknowledge sv d id name)
  unfolding acknowledge
  acknowledge-Cleans sv d id name = Cleans-bind id _ _ (search broker_rules) λ pending.
      Cleans-bind id _ _ (outside-Serves _) λ measured.
        Cleans-bind id _ _ (search broker_rules)
          λ _. Cleans-on_ledger id _ λ s a. acknowledge-gone sv id _ s a

  cleanup-Cleans :
      (sv : Services) (id : String)
      → Cleans id (on_ledger {W = W} (transition sv id "cleanup" no_arguments))
  cleanup-Cleans sv id = Cleans-on_ledger id _ λ s a. cleanup-gone sv id _ s a

  -- the record of what was not cleaned before
  settle_record-Cleans :
      (sv : Services) (d : Driver W) (found : AllocationRecord) (id name : String)
      → is_cleaned found.columns.state ≡ false
      → Cleans id (settle_record sv d found id name)
  unfolding settle_record
  settle_record-Cleans sv d found id name kept =
      elim (Bool-cases (is_terminal found.columns.state)) [
        | inl e ↦
            rw e
              (Cleans-first id _ _ (search broker_rules) (cleanup-Cleans sv id) λ _. Related-pure _)
        | inr e ↦
            rw (e, kept)
              (Cleans-first id _ _ (acknowledge-Serves sv d id name)
                (acknowledge-Cleans sv d id name) λ _. Related-pure _)
      ]

  found-Finds :
      (sv : Services) (id : String) (s : State W)
      → Finds s
          (λ found. is_cleaned found.columns.state ≡ gone_in id s)
          (on_ledger (get_record sv id))
  unfolding on_ledger
  found-Finds sv id s = record { at = lift (get_record sv id s.ledger) (get_record-Finds sv id).at }
    where
      P : AllocationRecord → Type 0
      P found = is_cleaned found.columns.state ≡ gone_in id s

      lift :
          (r : Outcome Allocation.Failure AllocationRecord × Ledger)
          → Found s.ledger P r
          → Found s P (from_ledger r.0, record s { ledger = r.1 })
      lift (ok a, t) h = (ap (λ l. record s { ledger = l }) h.0, h.1)
      lift (err x, t) h = ap (λ l. record s { ledger = l }) h

  pub recover-Cleans : (sv : Services) (d : Driver W) (id : String) → Cleans id (recover sv d id)
  unfolding recover
  recover-Cleans sv d id = record {
    at = λ s v a e. elim (Bool-cases (gone_in id s)) [
      | inl gone ↦ stays_gone id s (recover sv d id s).1 ((recover-Serves sv d id).at s) v gone
      | inr there ↦
          returning (λ r. gone_in id r.1 ≡ true) _ _ a (found-Finds sv id s)
            (λ found same.
              (Cleans-bind id _ _ (binding_of-Serves sv id) λ binding.
                  Cleans-bind id _ _ (text_at-Serves _ _) λ name.
                    Cleans-bind id _ _ (find_bound-Serves d id name) λ o.
                      Cleans-bind id _ _ (delete_known-Serves d o name) λ _.
                        Cleans-first id _ _ (settle_record-Serves sv d found id name)
                          (settle_record-Cleans sv d found id name (same ∙ there))
                          λ _. search broker_rules).at
                s v a)
            e
    ];
  }

  pub finish-Cleans :
      (fuel : ℕ) (sv : Services) (d : Driver W) (id outcome : String) (cancelled : Bool)
      → Cleans id (finish fuel sv d id outcome cancelled)
  unfolding finish
  finish-Cleans fuel sv d id outcome cancelled = Cleans-bind id _ _ (search broker_rules) λ found.
      elim (Bool-cases
        (not (is_running found.columns.state) || not (found.columns.jobs_started == 1))) [
          | inl e ↦ rw e (
              Cleans-bind id _ _ (binding_of-Serves sv id) λ binding.
                Cleans-bind id _ _ (text_at-Serves _ _) λ name.
                  Cleans-first id _ _ (recover-Serves sv d id) (recover-Cleans sv d id)
                    λ _. Related-pure _)
          | inr e ↦ rw e (
              Cleans-bind id _ _ (search broker_rules) λ ended.
                Cleans-bind id _ _ (search broker_rules) λ binding.
                  Cleans-bind id _ _ (delete_exact-Serves d _ _) λ _.
                    Cleans-bind id _ _ (wait_for_cleanup-Serves fuel d id _) λ _.
                      Cleans-first id _ _ (search broker_rules) (cleanup-Cleans sv id)
                        λ _. Related-pure _)
        ]

  pub recover_each-Cleans :
      (sv : Services) (d : Driver W) (ids : List String) (id : String)
      → exists (λ k. k == id) ids ≡ true
      → Cleans id (recover_each sv d ids)
  unfolding recover_each
  recover_each-Cleans sv d [] id h = absurd (ground arith)
  recover_each-Cleans sv d (k ∷ ids) id h = elim (Bool-cases (k == id)) [
    | inl same ↦
        Cleans-first id _ _ (recover-Serves sv d k)
          (subst (λ j. Cleans id (recover sv d j)) (sym ((eq_iff k id).0 same))
            (recover-Cleans sv d id))
          λ _. Related-bind _ _ (recover_each-Serves sv d ids) λ _. Related-pure _
    | inr away ↦ Cleans-bind id _ _ (recover-Serves sv d k) λ _.
        Cleans-first id _ _ (recover_each-Serves sv d ids)
          (recover_each-Cleans sv d ids id (ground arith)) λ _. Related-pure _
  ]
