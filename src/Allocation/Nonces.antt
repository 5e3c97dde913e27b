-- ===== src/Allocation/Nonces.antt =====
-- The nonces of the objects that `reserve` and `admit` enter, and what `_digests` makes of them.
use self_hosted_ci.Prelude.{
  if◌then◌else◌, ◌∙◌, sym, ap, subst, ℕ, ◌≡◌, refl, String, true, false, Option, none, some, List,
  [], ◌∷◌, ◌==◌, ◌&&◌, arith, eq_iff, lookup, string_eq, Option-cases, inl, inr,
}
use self_hosted_ci.Json.{Fields, field, end, get, or_null}
use self_hosted_ci.Effects.{Outcome, ok, ◌>>=◌, pure, raise}
use self_hosted_ci.Effects.Found.{
  Unchanged-IsPreorder, Finds-still, Finds, returning, Finds-gets, Finds-or_raise, Finds-bind,
  Finds-pure,
}
use self_hosted_ci.Allocation.{jit_error, Bool, Failure, Services}
use self_hosted_ci.Allocation.Rows.{Tx, Ledger, AllocationRow, row_key}
use self_hosted_ci.Allocation.Payload.{as_object, verify_allocation}
use self_hosted_ci.Allocation.Reading.{validate_reservation-Related, verify-Related}
use self_hosted_ci.Allocation.Admission.{
  digests, id_of, insert_row, insert_fresh, admit, reserve, issued_row, reserved_row,
}
use self_hosted_ci.Allocation.Calls.{
  Call, reserves, admits, finalizes, binds, transitions, appends, opens, call, run,
}
use self_hosted_ci.Allocation.Steps.{IsValid}
use self_hosted_ci.Allocation.Histories.{call-Step, run-Step, run_preserved}
use self_hosted_ci.Allocation.Uniqueness.{one_nonce}
use self_hosted_ci.Allocation.Signing.{verify_allocation-IsTimely}

-- the object that a call enters into the ledger
abbrev pub enters : Call → Option Fields
enters (reserves reservation now) = some reservation
enters (admits envelope pinned now) = as_object (get "payload" envelope)
enters (finalizes envelope pinned now) = none
enters (binds id scale_set_id scale_set_name) = none
enters (transitions id name q) = none
enters (appends days event now) = none
enters (opens days now) = none

-- Such a call returns, with whatever text.
abbrev pub IsEntered : Services → Call → Ledger → String → Type 0
IsEntered sv (reserves reservation now) s answer = (reserve sv reservation now s).0 ≡ ok answer
IsEntered sv (admits envelope pinned now) s answer = (admit sv envelope pinned now s).0 ≡ ok answer
IsEntered sv (finalizes envelope pinned now) s answer = ⊥
IsEntered sv (binds id scale_set_id scale_set_name) s answer = ⊥
IsEntered sv (transitions id name q) s answer = ⊥
IsEntered sv (appends days event now) s answer = ⊥
IsEntered sv (opens days now) s answer = ⊥

-- The row of the allocation holds the digest of the object's nonce.
abbrev Holds : Services → Fields → Ledger → Type 0
Holds sv o s =
    (r : AllocationRow) × (body : String) × (lookup row_key (id_of o) s.allocations ≡ some r)
    × (sv.canonicalize (field "nonce" (or_null (get "nonce" o)) end) ≡ some body)
    × (r.binding_digest ≡ sv.sha256 body)

digests-Finds :
    {s : Ledger} (sv : Services) (o : Fields)
    → Finds s
        (λ d.
          (body : String) × (sv.canonicalize (field "nonce" (or_null (get "nonce" o)) end)
            ≡ some body)
          × (d.binding ≡ sv.sha256 body))
        (digests sv o)
unfolding digests
digests-Finds sv o =
    Finds-bind _ _ (Finds-or_raise _ _)
      λ whole _. Finds-bind _ _ (Finds-or_raise _ _) λ body is. Finds-pure _ (body, is, refl)

-- an insertion, and then an answer
inserted :
    (row : AllocationRow) (s : Ledger) (a answer : String)
    → ((insert_fresh row >>= λ u. pure a) s).0 ≡ ok answer
    → lookup row_key row.allocation_id ((insert_fresh row >>= λ u. pure a) s).1.allocations
      ≡ some row
unfolding insert_fresh insert_row ◌>>=◌ lookup
inserted row s a answer h = ground (arith, eq_iff row.allocation_id row.allocation_id)

-- an answer for a row that is there
abbrev repeats : Bool → Failure → Tx String
repeats c x = if c then pure {A = String} "idempotent" else raise x

repeated :
    (c : Bool) (s : Ledger) (r : AllocationRow) (d answer : String) (x : Failure)
    → (c ≡ true → r.binding_digest ≡ d)
    → (repeats c x s).0 ≡ ok answer
    → ((repeats c x s).1 ≡ s) × (r.binding_digest ≡ d)
unfolding pure raise
repeated true s r d answer x same h = (refl, same refl)
repeated false s r d answer x same h = absurd (ground arith)

reserve-Holds :
    (sv : Services) (o : Fields) (now : ℕ) (s : Ledger) (answer : String)
    → (reserve sv o now s).0 ≡ ok answer
    → Holds sv o (reserve sv o now s).1
unfolding reserve
reserve-Holds sv o now s answer h =
    returning Q _ _ answer (Finds-still _ (validate_reservation-Related sv o now))
      (λ _ _. returning Q _ _ answer (digests-Finds sv o) λ d (nonce, of, is).
        returning Q _ _ answer (Finds-or_raise _ _) λ body _.
          returning Q _ _ answer (Finds-gets _) λ row here. elim (Option-cases row) [
            | inl new ↦ rw new λ h. (
              reserved_row o d body,
              nonce,
              inserted (reserved_row o d body) s "reserved" answer h,
              of,
              is,
            )
            | inr (r, known) ↦ rw known λ h.
                let (same, b) =
                  repeated _ s r d.binding answer jit_error
                    (λ c. ground (arith, eq_iff r.binding_digest d.binding)) h in
                (
                  r,
                  nonce,
                  subst (λ t. lookup row_key (id_of o) t.allocations ≡ some r) (sym same)
                      (here ∙ known),
                  of,
                  b ∙ is,
                )
          ])
      h
  where
    Q : Outcome Failure String × Ledger → Type 0
    Q r = Holds sv o r.1

admit-Holds :
    (sv : Services) (envelope o : Fields) (pinned : String) (now : ℕ) (s : Ledger) (answer : String)
    → as_object (get "payload" envelope) ≡ some o
    → (admit sv envelope pinned now s).0 ≡ ok answer
    → Holds sv o (admit sv envelope pinned now s).1
unfolding admit
admit-Holds sv envelope o pinned now s answer held h =
    returning Q _ _ answer (Finds-still _ (verify-Related sv envelope pinned now))
      (λ p verified.
        let same : p ≡ o = payload_is p verified in
        returning Q _ _ answer (digests-Finds sv p) λ d (nonce, of, is).
          returning Q _ _ answer (Finds-gets _) λ row here. elim (Option-cases row) [
            | inl new ↦ rw new (
                returning Q _ _ answer (Finds-or_raise _ _) λ body _ h.
                  subst
                    (λ f.
                      Holds sv f
                        ((insert_fresh (issued_row p d body) >>= λ u. pure {A = String} "issued")
                          s).1)
                    same
                    (
                      issued_row p d body,
                      nonce,
                      inserted (issued_row p d body) s "issued" answer h,
                      of,
                      is,
                    ))
            | inr (r, known) ↦ rw known λ h.
                let (same_state, b) =
                  repeated _ s r d.binding answer jit_error
                    (λ c. ground (arith, eq_iff r.binding_digest d.binding)) h in
                subst
                  (λ f.
                    Holds sv f
                      (repeats (r.binding_digest == d.binding && r.payload_digest == d.body)
                        jit_error s).1)
                  same
                  (
                    r,
                    nonce,
                    subst (λ t. lookup row_key (id_of p) t.allocations ≡ some r) (sym same_state)
                        (here ∙ known),
                    of,
                    b ∙ is,
                  )
          ])
      h
  where
    Q : Outcome Failure String × Ledger → Type 0
    Q r = Holds sv o r.1

    payload_is : (p : Fields) → (verify_allocation sv envelope pinned now s).0 ≡ ok p → p ≡ o
    payload_is p verified =
        let stored = (verify_allocation-IsTimely s sv envelope p pinned now verified).0 in
        ground (arith, stored, held)

entered-Holds :
    (sv : Services) (c : Call) (o : Fields) (s : Ledger) (answer : String)
    → enters c ≡ some o
    → IsEntered sv c s answer
    → Holds sv o (call sv c s)
entered-Holds sv (reserves reservation now) o s answer e h =
    let same : reservation ≡ o = ground arith in
    subst (λ f. Holds sv f (reserve sv reservation now s).1) same
      (reserve-Holds sv reservation now s answer h)
entered-Holds sv (admits envelope pinned now) o s answer e h =
    admit-Holds sv envelope o pinned now s answer e h
entered-Holds sv (finalizes envelope pinned now) o s answer e h = absurd h
entered-Holds sv (binds id scale_set_id scale_set_name) o s answer e h = absurd h
entered-Holds sv (transitions id name q) o s answer e h = absurd h
entered-Holds sv (appends days event now) o s answer e h = absurd h
entered-Holds sv (opens days now) o s answer e h = absurd h

-- two rows of one table for one nonce
one_id :
    (sv : Services) (o o' : Fields) (s : Ledger)
    → IsValid s.allocations
    → get "nonce" o ≡ get "nonce" o'
    → Holds sv o s
    → Holds sv o' s
    → id_of o ≡ id_of o'
one_id sv o o' s v same (r, body, there, of, is) (t, body', there', of', is') =
    one_nonce s.allocations (id_of o) (id_of o') r t v there there' (
      let one : body ≡ body' =
        ground (arith, ap (λ n. sv.canonicalize (field "nonce" (or_null n) end)) same) in
      is ∙ ap sv.sha256 one ∙ sym is')

-- What a history keeps of a row keeps the digest of its nonce.
run-Holds :
    (sv : Services) (o : Fields) (cs : List (Services × Call)) (s : Ledger)
    → IsValid s.allocations
    → Holds sv o s
    → Holds sv o (run cs s)
run-Holds sv o cs s v (r, body, there, of, is) =
    let (t, here, later) = run_preserved cs s (id_of o) r v there in
    (t, body, here, of, later.identity.1 ∙ is)

-- Once `reserve` or `admit`, called on a valid table, has returned for an object, then in any history of
-- calls after it, with the same codec and digest, `reserve` or `admit` returns for an object with the
-- same nonce only if its allocation id is the same.
pub nonce_used_once :
    (sv : Services) (c c' : Call) (between : List (Services × Call)) (s : Ledger) (o o' : Fields)
    (answer answer' : String)
    → IsValid s.allocations
    → enters c ≡ some o
    → enters c' ≡ some o'
    → IsEntered sv c s answer
    → IsEntered sv c' (run between (call sv c s)) answer'
    → get "nonce" o ≡ get "nonce" o'
    → id_of o ≡ id_of o'
unfolding run
nonce_used_once sv c c' between s o o' answer answer' v e e' h h' same =
    let v1 : IsValid (call sv c s).allocations = (call-Step sv c s).valid v in
    let first = run-Holds sv o between (call sv c s) v1 (entered-Holds sv c o s answer e h) in
    let v2 : IsValid (run between (call sv c s)).allocations =
      (run-Step between (call sv c s)).valid v1 in
    let last = run between (call sv c s) in
    one_id sv o o' (call sv c' last) ((call-Step sv c' last).valid v2) same
      (run-Holds sv o ((sv, c') ∷ []) last v2 first) (entered-Holds sv c' o' last answer' e' h')
