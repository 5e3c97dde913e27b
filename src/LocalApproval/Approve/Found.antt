-- ===== src/LocalApproval/Approve/Found.antt =====
-- The rows that `approve` finds, and what it returns of them.
use self_hosted_ci.Prelude.{
  ℕ, ◌≡◌, refl, sym, subst, ap, ◌∙◌, String, Bool, true, false, not, ◌&&◌, Option, none, some, List,
  [], ◌∷◌, leb, ◌==◌, if◌then◌else◌, lookup, nat_eq, string_eq, arith, eq_iff, inl, inr, Bool-cases,
  Option-cases,
}
use self_hosted_ci.Effects.{Act, Outcome, ok, err, raise_unless, continue, pure, ◌>>=◌, ◌>>◌}
use self_hosted_ci.LocalApproval.Rows.{
  is_active, is_claimed, is_pending, parse, Tx, approval_error, update_rows, ApprovalRow, row_key,
  Store, Failure, newest,
}
use self_hosted_ci.LocalApproval.Requests.{Target, World, request_matches}
use self_hosted_ci.LocalApproval.Approve.{
  Approved, expire_as, is_active_for, as_before, reconcile_active, find_concurrent,
}
use self_hosted_ci.LocalApproval.Steps.{Moves-IsPreorder, IsValid, collides-lookup}

-- The selected row passes the test and is the row of its request.
newest-lookup :
    (test : ApprovalRow → Bool) (rows : List ApprovalRow) (q : ApprovalRow)
    → IsValid rows
    → newest test rows ≡ some q
    → (test q ≡ true) × (lookup row_key q.request_id rows ≡ some q)
unfolding newest lookup
newest-lookup test [] q v e = absurd (ground arith)
newest-lookup test (r ∷ rows) q v e = elim (Option-cases (newest test rows)) [
  | inl none_left ↦ ground (arith, eq_iff r.request_id q.request_id)
  | inr (p, found) ↦ ground (
    arith,
    newest-lookup test rows p v.2 found,
    newest-lookup test rows q v.2,
    eq_iff r.request_id q.request_id,
    eq_iff r.request_id p.request_id,
    collides-lookup r rows v.1,
  )
]

-- the approval that was returned is in the table, in that state, and active for the head
abbrev pub Stands : String → ℕ → String → Approved → Store → Type 0
Stands repository n head a s =
    (row : ApprovalRow) × (lookup row_key a.request_id s.approvals ≡ some row)
    × (row.state ≡ a.state)
    × (is_active_for repository n head row ≡ true)

-- what follows an action that returned
returned :
    {A B : Type 0} (m : Act Failure Store A) (f : A → Act Failure Store B) (s : Store) (b : B)
    → ((m >>= f) s).0 ≡ ok b
    → (a : A) × ((m s).0 ≡ ok a) × ((m >>= f) s ≡ f a (m s).1)
unfolding ◌>>=◌
returned {A} {B} m f s b e = by_result (m s) e
  where
    by_result :
        (o : Outcome Failure A × Store)
        → (continue o.0 f o.1).0 ≡ ok b
        → (a : A) × (o.0 ≡ ok a) × (continue o.0 f o.1 ≡ f a o.1)
    by_result (ok a, t) h = (a, refl, refl)
    by_result (err x, t) h = absurd (ground arith)

as_before-Stands :
    (repository : String) (n : ℕ) (head : String) (row : ApprovalRow) (s : Store)
    → IsValid s.approvals
    → newest (is_active_for repository n head) s.approvals ≡ some row
    → Stands repository n head (as_before row) s
as_before-Stands repository n head row s v e =
    let (active, there) = newest-lookup (is_active_for repository n head) s.approvals row v e in
    (row, there, refl, active)

-- what is returned without a change
unfoldable pub Unchanged : ApprovalRow → Store → Outcome Failure (Option Approved) × Store → Type 0
Unchanged row s o = (a : Approved) → o.0 ≡ ok (some a) → (a ≡ as_before row) × (o.1 ≡ s)

-- A guarded update returns no approval.
no_return :
    (m : Tx ℕ) (s : Store) (a : Approved)
    → ((do
      changed ← m
      raise_unless (changed == 1) approval_error
      pure {E = Failure} {A = Option Approved} none)
        s).0
      ≡ ok (some a)
    → ⊥
unfolding ◌>>=◌
no_return m s a e = by_result (m s) e
  where
    guard :
        (changed : Bool) (t : Store)
        → (continue
            (if changed then ok tt else err approval_error)
            (λ (u : Unit {0}). pure {E = Failure} {A = Option Approved} none)
            t).0
          ≡ ok (some a)
        → ⊥
    guard true t e = absurd (ground arith)
    guard false t e = absurd (ground arith)

    by_result :
        (o : Outcome Failure ℕ × Store)
        → (continue o.0
            (λ changed.
              raise_unless (changed == 1) approval_error
              >> pure {E = Failure} {A = Option Approved} none)
            o.1).0
          ≡ ok (some a)
        → ⊥
    by_result (ok c, t) h = guard (c == 1) t h
    by_result (err x, t) h = absurd (ground arith)

-- An active approval that is returned as it is, is left as it is.
pub reconcile_active-some :
    (w : World) (target : Target) (row : ApprovalRow) (s : Store)
    → Unchanged row s (reconcile_active w target row s)
unfolding reconcile_active ◌>>=◌ Unchanged
reconcile_active-some w target row s = elim (Option-cases (w.loads row.request_json)) [
  | inl unread ↦ rw unread (λ a e. absurd (ground arith))
  | inr (request, read) ↦ elim (Bool-cases row.durable) [
    | inl d ↦ elim (Bool-cases (request_matches w request target)) [
      | inl m ↦ rw (read, d, m) (λ a e. (ground arith, refl))
      | inr n ↦ rw (read, d, n) (λ a e. absurd (ground arith))
    ]
    | inr brief ↦ elim (Bool-cases (leb (parse row.expires_at) w.now)) [
      | inl late ↦
          rw (read, brief, late)
            (λ a e. absurd (
              no_return
                (update_rows
                  (λ r. r.request_id == row.request_id && is_active r.state && not r.durable)
                  (expire_as "ttl-expired"))
                s a e))
      | inr early ↦ elim (Bool-cases (request_matches w request target)) [
        | inl m ↦ rw (read, brief, early, m) (λ a e. (ground arith, refl))
        | inr n ↦ elim (Bool-cases (is_claimed row.state)) [
          | inl c ↦ rw (read, brief, early, n, c) (λ a e. absurd (ground arith))
          | inr p ↦
              rw (read, brief, early, n, p)
                (λ a e. absurd (
                  no_return
                    (update_rows
                      (λ r. r.request_id == row.request_id && is_pending r.state && not r.durable)
                      (expire_as "resolved-target-changed"))
                    s a e))
        ]
      ]
    ]
  ]
]

result_of : Outcome Failure Approved → Approved → Approved
result_of (ok a) d = a
result_of (err e) d = d

pub same : (x y : Approved) (o : Outcome Failure Approved) → o ≡ ok x → o ≡ ok y → x ≡ y
unfolding result_of
same x y o e e' = sym (ap (λ r. result_of r x) e) ∙ ap (λ r. result_of r x) e'

-- what a result says of the table
unfoldable pub StandsIn : String → ℕ → String → Outcome Failure Approved × Store → Type 0
StandsIn repository n head o = (a : Approved) → o.0 ≡ ok a → Stands repository n head a o.1

pub found_row :
    (repository : String) (n : ℕ) (head : String) (row : ApprovalRow) (s : Store) (a : Approved)
    → IsValid s.approvals
    → newest (is_active_for repository n head) s.approvals ≡ some row
    → a ≡ as_before row
    → Stands repository n head a s
found_row repository n head row s a v e is_row =
    subst (λ b. Stands repository n head b s) (sym is_row)
      (as_before-Stands repository n head row s v e)

pub find_concurrent-Stands :
    (w : World) (target : Target) (repository : String) (n : ℕ) (s : Store)
    → IsValid s.approvals
    → StandsIn repository n target.head_sha (find_concurrent w target repository n s)
unfolding find_concurrent ◌>>=◌ StandsIn
find_concurrent-Stands w target repository n s v =
    elim (Option-cases (newest (is_active_for repository n target.head_sha) s.approvals)) [
      | inl missing ↦ rw missing (λ a e. absurd (ground arith))
      | inr (row, found) ↦ elim (Option-cases (w.loads row.request_json)) [
        | inl unread ↦ rw (found, unread) (λ a e. absurd (ground arith))
        | inr (request, read) ↦ elim (Bool-cases (request_matches w request target)) [
          | inl m ↦
              rw (found, read, m)
                (λ a e.
                  found_row repository n target.head_sha row s a v found
                    (sym (same (as_before row) a (ok (as_before row)) refl e)))
          | inr other_target ↦ rw (found, read, other_target) (λ a e. absurd (ground arith))
        ]
      ]
    ]
