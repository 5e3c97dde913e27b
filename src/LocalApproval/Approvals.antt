-- ===== src/LocalApproval/Approvals.antt =====
-- What `approve` returns.
use self_hosted_ci.Prelude.{
  ℕ, ◌≡◌, refl, sym, subst, String, false, Option, none, some, ◌∷◌, exists, lookup, nat_eq,
  string_eq, arith, eq_iff, inl, inr, Bool-cases, Option-cases,
}
use self_hosted_ci.Json.{Fields}
use self_hosted_ci.Effects.Related.{Related, related_rules}
use self_hosted_ci.LocalApproval.Approve.Moves.{
  validate_request-Moves, observe-Moves, find_active-Moves,
}
use self_hosted_ci.Effects.{Outcome, ok, err, or_raise, finish, continue, pure, ◌>>=◌}
use self_hosted_ci.LocalApproval.Rows.{pending, Tx, other, ApprovalRow, Store, Failure, newest}
use self_hosted_ci.LocalApproval.Requests.{Target, World}
use self_hosted_ci.LocalApproval.Approve.{
  Approved, approve, observe, is_active_for, reconcile_active, find_active, new_row, collides,
  insert_new, create,
}
use self_hosted_ci.LocalApproval.Steps.{Moves, Moves-IsPreorder, IsValid}
use self_hosted_ci.LocalApproval.Approve.Found.{
  Stands, Unchanged, reconcile_active-some, same, StandsIn, found_row, find_concurrent-Stands,
}

inserted :
    (w : World) (target : Target) (repository : String) (n g : ℕ) (request : Fields) (s : Store)
    → Stands repository n target.head_sha
        (record { request_id = w.uuid; state = pending; idempotent = false })
        (record s { approvals = new_row w target repository n g request ∷ s.approvals })
unfolding lookup
inserted w target repository n g request s = (
  new_row w target repository n g request,
  rw ((eq_iff w.uuid w.uuid).1 refl) refl,
  refl,
  ground (arith, eq_iff repository repository, eq_iff target.head_sha target.head_sha),
)

insert_new-Stands :
    (w : World) (target : Target) (repository : String) (n g : ℕ) (request : Fields) (s : Store)
    → IsValid s.approvals
    → StandsIn repository n target.head_sha
        (insert_new w target repository n (new_row w target repository n g request) s)
unfolding insert_new ◌>>=◌ StandsIn
insert_new-Stands w target repository n g request s v =
    let made : Approved = record { request_id = w.uuid; state = pending; idempotent = false } in
    elim (Bool-cases (exists (collides (new_row w target repository n g request)) s.approvals)) [
      | inl collision ↦ rw collision (find_concurrent-Stands w target repository n s v)
      | inr free ↦ rw free (λ a e.
          subst
            (λ b.
              Stands repository n target.head_sha b
                (record s { approvals = new_row w target repository n g request ∷ s.approvals }))
            (same made a (ok made) refl e) (inserted w target repository n g request s))
    ]

-- From a valid table, the approval that `m` returns stands.
record Gives (repository : String) (n : ℕ) (head : String) (m : Tx Approved) : Type 0 where
  at : (s : Store) → IsValid s.approvals → StandsIn repository n head (m s)

module _ {repository : String} {n : ℕ} {head : String} where
  Gives-bind :
      {A : Type 0} (m : Tx A) (f : A → Tx Approved)
      → Related Moves m
      → ((a : A) → Gives repository n head (f a))
      → Gives repository n head (m >>= f)
  unfolding ◌>>=◌ StandsIn
  Gives-bind {A} m f keeps gives = record { at = λ s v. by_result (m s) ((keeps.at s).valid v) }
    where
      by_result :
          (o : Outcome Failure A × Store)
          → IsValid o.1.approvals
          → StandsIn repository n head (continue o.0 f o.1)
      by_result (ok a, t) v = (gives a).at t v
      by_result (err x, t) v = λ a e. absurd (ground arith)

  -- a value that is there
  Gives-given :
      {A : Type 0} (x : A) (e : Failure) (f : A → Tx Approved)
      → Gives repository n head (f x)
      → Gives repository n head (or_raise (some x) e >>= f)
  unfolding ◌>>=◌
  Gives-given x e f h = record { at = λ s v. h.at s v }

create-Gives :
    (w : World) (target : Target) (repository : String) (n g : ℕ)
    → Gives repository n target.head_sha (create w target repository n g)
unfolding create
create-Gives w target repository n g = Gives-bind _ _ (search related_rules) λ u.
    Gives-bind _ _ (search related_rules) λ raw.
      Gives-bind _ _ (search (related_rules, validate_request-Moves))
        λ request. record { at = insert_new-Stands w target repository n g request }

-- what `find_active` finds
FoundIn : String → ℕ → String → Outcome Failure (Option Approved) × Store → Type 0
FoundIn repository n head o = (a : Approved) → o.0 ≡ ok (some a) → Stands repository n head a o.1

reconciled :
    (repository : String) (n : ℕ) (head : String) (row : ApprovalRow) (s : Store)
    (o : Outcome Failure (Option Approved) × Store)
    → IsValid s.approvals
    → newest (is_active_for repository n head) s.approvals ≡ some row
    → Unchanged row s o
    → FoundIn repository n head (finish s o)
unfolding Unchanged FoundIn
reconciled repository n head row s (ok found, t) v e h = λ a e'.
    let (is_row, same_store) = h a e' in
    subst (Stands repository n head a) (sym same_store)
      (found_row repository n head row s a v e is_row)
reconciled repository n head row s (err x, t) v e h = λ a e'. absurd (ground arith)

find_active-FoundIn :
    (w : World) (target : Target) (repository : String) (n : ℕ) (s : Store)
    → IsValid s.approvals
    → FoundIn repository n target.head_sha (find_active w target repository n s)
unfolding find_active ◌>>=◌ FoundIn
find_active-FoundIn w target repository n s v =
    elim (Option-cases (newest (is_active_for repository n target.head_sha) s.approvals)) [
      | inl missing ↦ rw missing (λ a e. absurd (ground arith))
      | inr (row, found) ↦ rw found (
          reconciled repository n target.head_sha row s (reconcile_active w target row s) v found
            (reconcile_active-some w target row s))
    ]

after_search :
    (w : World) (target : Target) (repository : String) (n g : ℕ)
    (o : Outcome Failure (Option Approved) × Store)
    → IsValid o.1.approvals
    → FoundIn repository n target.head_sha o
    → StandsIn repository n target.head_sha (
        continue o.0
          (λ found. elim found [
            | some before ↦ pure before
            | none ↦ create w target repository n g
          ])
          o.1)
unfolding FoundIn StandsIn ◌>>=◌
after_search w target repository n g (ok none, t) v h =
    (create-Gives w target repository n g).at t v
after_search w target repository n g (ok (some b), t) v h =
    λ a e. subst (λ c. Stands repository n target.head_sha c t) (same b a (ok b) refl e) (h b refl)
after_search w target repository n g (err x, t) v h = λ a e. absurd (ground arith)

search_or_create :
    (w : World) (target : Target) (repository : String) (n g : ℕ)
    → Gives repository n target.head_sha (do
      found ← find_active w target repository n
      elim found [ some before ↦ pure before | none ↦ create w target repository n g ])
unfolding ◌>>=◌
search_or_create w target repository n g = record {
  at = λ s v.
      after_search w target repository n g (find_active w target repository n s)
        (((find_active-Moves w target repository n).at s).valid v)
        (find_active-FoundIn w target repository n s v);
}

-- `approve`, once the target is resolved
abbrev approve_target : World → String → ℕ → Target → Tx Approved
approve_target w repository n target = do
  g ← observe target n
  found ← find_active w target repository n
  elim found [ some before ↦ pure before | none ↦ create w target repository n g ]

approve_target-Gives :
    (w : World) (repository : String) (n : ℕ) (target : Target)
    → Gives repository n target.head_sha (approve_target w repository n target)
approve_target-Gives w repository n target =
    Gives-bind _ _ (observe-Moves target n) λ g. search_or_create w target repository n g

-- From a valid table, the approval that `approve` returns, new or found, is in the table, in the state
-- that is returned and pending or claimed, for the repository, the pull request and the head that the
-- resolver has given.
pub approve-Stands :
    (w : World) (repository : String) (n : ℕ) (target : Target) (s : Store) (a : Approved)
    → IsValid s.approvals
    → w.resolve repository n ≡ some target
    → (approve w repository n s).0 ≡ ok a
    → Stands repository n target.head_sha a (approve w repository n s).1
unfolding approve StandsIn
approve-Stands w repository n target s a v e =
    let after : (r : Option Target)
        → r ≡ some target
        → Gives repository n target.head_sha (or_raise r other >>= approve_target w repository n) =
      λ r r_is.
        subst
          (λ r.
            Gives repository n target.head_sha (or_raise r other >>= approve_target w repository n))
          (sym r_is)
          (Gives-given target other (approve_target w repository n)
            (approve_target-Gives w repository n target)) in
    (Gives-bind _ _ (search related_rules)
        λ u. Gives-bind _ _ (search related_rules) λ u'. after (w.resolve repository n) e).at
      s v a
