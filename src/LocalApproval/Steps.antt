-- ===== src/LocalApproval/Steps.antt =====
-- What a statement on the table of approvals may do: the invariant of the table, and what an approval
-- may become.
use self_hosted_ci.Prelude.{
  ap, ℕ, ◌≡◌, refl, subst, String, Bool, true, false, not, ◌&&◌, ◌||◌, ◌⊎◌, inl, inr, Option, none,
  some, List, [], ◌∷◌, ◌==◌, leb, if◌then◌else◌, is_none, exists, lookup, nat_eq, string_eq, arith,
  eq_iff, Bool-cases,
}
use self_hosted_ci.Effects.Related.{IsPreorder}
use self_hosted_ci.LocalApproval.Rows.{
  is_active, is_pending, is_claimed, ActiveKey, ApprovalRow, row_key, Store, update_where,
}
use self_hosted_ci.LocalApproval.Approve.{key_is, collides}

abbrev pub key_of : ApprovalRow → ActiveKey
key_of r = record { repository = r.repository; pr_number = r.pr_number; head_sha = r.head_sha }

abbrev pub is_by : Option ℕ → ℕ → Bool
is_by none t = false
is_by (some n) t = leb n t

-- the claim of one poll, which no worker has made durable
abbrev pub is_brief : ApprovalRow → Bool
is_brief r = is_claimed r.state && not r.durable

-- An active approval holds its key, an ended one none; a durable one is not pending; a brief claim ends
-- with the approval or before.
abbrev pub is_valid_row : ApprovalRow → Bool
is_valid_row r =
    (if is_active r.state then key_is r.active_key (some (key_of r)) else is_none r.active_key)
    && (not r.durable || not (is_pending r.state))
    && (not (is_brief r) || is_by r.claim_until r.expires_at)

-- every row is valid, and none collides with another
abbrev pub IsValid : List ApprovalRow → Type 0
IsValid [] = Unit
IsValid (r ∷ rows) = (is_valid_row r ≡ true) × (exists (collides r) rows ≡ false) × IsValid rows

-- What an approval may become: the same request for the same head; for good in its state, with its
-- result and its reason, once it has ended; and durable, once it is.
pub record Later (r s : ApprovalRow) : Type 0 where
  pub identity : (s.request_id ≡ r.request_id) × (s.request_json ≡ r.request_json)
  pub head :
      (s.repository ≡ r.repository)
      × (s.pr_number ≡ r.pr_number)
      × (s.head_sha ≡ r.head_sha)
      × (s.head_generation ≡ r.head_generation)
  pub times : (s.created_at ≡ r.created_at) × (s.expires_at ≡ r.expires_at)
  pub ended :
      is_active r.state ≡ false
      → (s.state ≡ r.state) × (s.result_json ≡ r.result_json) × (s.reason ≡ r.reason)
  pub durable : r.durable ≡ true → s.durable ≡ true

pub Later-refl : (r : ApprovalRow) → Later r r
Later-refl r = ground arith

Later-trans : (r s t : ApprovalRow) → Later r s → Later s t → Later r t
Later-trans r s t h k = record {
  identity = ground (arith, h.identity, k.identity);
  head = ground (arith, h.head, k.head);
  times = ground (arith, h.times, k.times);
  ended = λ e. ground (arith, h.ended e, k.ended);
  durable = λ e. k.durable (h.durable e);
}

abbrev pub Kept : Option ApprovalRow → Option ApprovalRow → Type 0
Kept none after = Unit
Kept (some r) none = ⊥
Kept (some r) (some s) = Later r s

Kept-refl : (o : Option ApprovalRow) → Kept o o
Kept-refl none = tt
Kept-refl (some r) = Later-refl r

Kept-trans : (o p q : Option ApprovalRow) → Kept o p → Kept p q → Kept o q
Kept-trans none p q h k = tt
Kept-trans (some r) none q h k = absurd h
Kept-trans (some r) (some s) none h k = absurd k
Kept-trans (some r) (some s) (some t) h k = Later-trans r s t h k

Kept-head :
    (r s : ApprovalRow) (id : String) (o p : Option ApprovalRow)
    → Later r s
    → Kept o p
    → Kept (if row_key r == id then some r else o) (if row_key s == id then some s else p)
Kept-head r s id o p later kept =
    let same : (row_key s == id) ≡ (row_key r == id) = ap (λ k. k == id) later.identity.0 in
    elim (Bool-cases (row_key r == id)) [ inl e ↦ rw (same, e) later | inr e ↦ rw (same, e) kept ]

-- From a valid table to a valid one, in which every approval is kept.
pub record Step (rows after : List ApprovalRow) : Type 0 where
  pub valid : IsValid rows → IsValid after
  pub kept : IsValid rows → (id : String) → Kept (lookup row_key id rows) (lookup row_key id after)

pub Step-refl : (rows : List ApprovalRow) → Step rows rows
Step-refl rows = record { valid = λ h. h; kept = λ h id. Kept-refl (lookup row_key id rows) }

pub Step-trans : (a b c : List ApprovalRow) → Step a b → Step b c → Step a c
Step-trans a b c h k = record {
  valid = λ v. k.valid (h.valid v);
  kept = λ v id.
      Kept-trans (lookup row_key id a) (lookup row_key id b) (lookup row_key id c) (h.kept v id)
        (k.kept (h.valid v) id);
}

-- The invariant may be used to show a step.
pub Step-guarded :
    (rows after : List ApprovalRow) → (IsValid rows → Step rows after) → Step rows after
Step-guarded rows after h = record { valid = λ v. (h v).valid v; kept = λ v. (h v).kept v }

abbrev pub Moves : Store → Store → Type 0
Moves s t = Step s.approvals t.approvals

instance abbrev pub Moves-IsPreorder : IsPreorder Moves
Moves-IsPreorder = record {
  reflexive = λ s. Step-refl s.approvals;
  transitive = λ s t u. Step-trans s.approvals t.approvals u.approvals;
}

-- what a statement may do to a row
pub record Allowed (r s : ApprovalRow) : Type 0 where
  pub valid : is_valid_row s ≡ true
  pub later : Later r s
  pub key : (s.active_key ≡ r.active_key) ⊎ (s.active_key ≡ none)

Allowed-refl : (r : ApprovalRow) → is_valid_row r ≡ true → Allowed r r
Allowed-refl r v = record { valid = v; later = Later-refl r; key = inl refl }

-- Rows that have kept their identity and lost keys at most collide less.
collides-Allowed :
    (r s q p : ApprovalRow)
    → Allowed r s
    → Allowed q p
    → collides r q ≡ false
    → collides s p ≡ false
collides-Allowed r s q p h k e = ground (arith, h.later.identity, k.later.identity, h.key, k.key)

module _ (test : ApprovalRow → Bool) (f : ApprovalRow → ApprovalRow) where
  abbrev pub Permits : Type 0
  Permits = (r : ApprovalRow) → is_valid_row r ≡ true → test r ≡ true → Allowed r (f r)

  permitted :
      Permits → (r : ApprovalRow) → is_valid_row r ≡ true → Allowed r (if test r then f r else r)
  permitted h r v = elim (Bool-cases (test r)) [
    | inl e ↦ rw e (h r v e)
    | inr e ↦ rw e (Allowed-refl r v)
  ]

  no_collision :
      Permits
      → (r s : ApprovalRow) (rows : List ApprovalRow) → Allowed r s
      → IsValid rows
      → exists (collides r) rows ≡ false
      → exists (collides s) (update_where test f rows) ≡ false
  unfolding update_where
  no_collision h r s [] a v e = refl
  no_collision h r s (q ∷ rows) a v e = ground (
    arith,
    collides-Allowed r s q (if test q then f q else q) a (permitted h q v.0),
    no_collision h r s rows a v.2,
  )

  update_where-IsValid :
      Permits → (rows : List ApprovalRow) → IsValid rows → IsValid (update_where test f rows)
  unfolding update_where
  update_where-IsValid h [] v = tt
  update_where-IsValid h (r ∷ rows) v =
      let allowed = permitted h r v.0 in
      (allowed.valid, no_collision h r _ rows allowed v.2 v.1, update_where-IsValid h rows v.2)

  update_where-Kept :
      Permits
      → (rows : List ApprovalRow) → IsValid rows
      → (id : String) → Kept (lookup row_key id rows) (lookup row_key id (update_where test f rows))
  unfolding update_where lookup
  update_where-Kept h [] v id = tt
  update_where-Kept h (r ∷ rows) v id =
      Kept-head r (if test r then f r else r) id (lookup row_key id rows) _
        (permitted h r v.0).later (update_where-Kept h rows v.2 id)

  pub Step-update : Permits → (rows : List ApprovalRow) → Step rows (update_where test f rows)
  Step-update h rows = record {
    valid = update_where-IsValid h rows;
    kept = update_where-Kept h rows;
  }

-- A row that collides with none has a new request.
pub collides-lookup :
    (row : ApprovalRow) (rows : List ApprovalRow)
    → exists (collides row) rows ≡ false
    → lookup row_key row.request_id rows ≡ none
unfolding lookup
collides-lookup row [] free = refl
collides-lookup row (r ∷ rows) free = ground (arith, collides-lookup row rows)

Kept-insert :
    (row : ApprovalRow) (rows : List ApprovalRow) (id : String)
    → lookup row_key row.request_id rows ≡ none
    → Kept (lookup row_key id rows) (lookup row_key id (row ∷ rows))
unfolding lookup
Kept-insert row rows id fresh = elim (Bool-cases (row_key row == id)) [
  | inl e ↦
      let none_there : lookup row_key id rows ≡ none =
        subst (λ k. lookup row_key k rows ≡ none) ((eq_iff row.request_id id).0 e) fresh in
      rw (none_there) tt
  | inr e ↦ rw e (Kept-refl (lookup row_key id rows))
]

-- A new row that collides with none keeps the others.
pub Step-insert :
    (row : ApprovalRow) (rows : List ApprovalRow)
    → is_valid_row row ≡ true
    → exists (collides row) rows ≡ false
    → Step rows (row ∷ rows)
Step-insert row rows v free = record {
  valid = λ h. (v, free, h);
  kept = λ h id. Kept-insert row rows id (collides-lookup row rows free);
}
