-- ===== src/Allocation/Steps.antt =====
-- What a statement on the table of allocations may do: the invariant of the table, and what an
-- allocation may become.
use self_hosted_ci.Prelude.{
  ◌≡◌, String, Bool, true, false, not, ◌&&◌, Option, none, some, List, [], ◌∷◌, leb, ◌==◌, is_none,
  is_some, exists, lookup, nat_eq, string_eq, arith, Bool-cases, inl, inr,
}
use self_hosted_ci.Effects.Related.{IsPreorder}
use self_hosted_ci.Allocation.Rows.{
  State, AllocationRow, row_key, Ledger, is_terminal_outcome, is_value,
}
use self_hosted_ci.Allocation.Admission.{collides}
use self_hosted_ci.Allocation.Lives.{life, life_of, ◌⟶*◌, ⟶*-trans, here}

-- the columns of a row that no cleanup concerns yet
abbrev is_open : AllocationRow → Bool
is_open r = not r.cleanup_complete && not r.recovery_required && not r.cleanup_pending

-- What the columns of a row hold in each state. One job at most has started, and as many as the state says.
abbrev pub is_valid_row : AllocationRow → Bool
is_valid_row r = elim r.state [
  | State.reserved ↦ r.jobs_started == 0 && is_none r.outcome && is_open r
  | State.issued ↦ r.jobs_started == 0 && is_none r.outcome && is_open r && is_some r.payload_json
  | State.claimed ↦ leb r.jobs_started 1 && is_open r
  | State.running ↦ r.jobs_started == 1 && is_none r.outcome && is_open r
  | State.terminal ↦ r.jobs_started == 1 && is_terminal_outcome r.outcome && is_open r
  | State.recovery_required ↦
      leb r.jobs_started 1
      && is_value r.outcome "reboot"
      && not r.cleanup_complete
      && r.recovery_required
      && r.cleanup_pending
      && is_some r.cleanup_idempotency_key
  | State.cleaned ↦
      leb r.jobs_started 1
      && is_terminal_outcome r.outcome
      && r.cleanup_complete
      && not r.recovery_required
      && not r.cleanup_pending
]

-- every row is valid, and none collides with another
abbrev pub IsValid : List AllocationRow → Type 0
IsValid [] = Unit
IsValid (r ∷ rows) = (is_valid_row r ≡ true) × (exists (collides r) rows ≡ false) × IsValid rows

-- What does not change: the identity of an allocation; its payload, its scale set and the evidence of
-- its cleanup, once it has them.
pub record Later (r t : AllocationRow) : Type 0 where
  pub identity : (t.allocation_id ≡ r.allocation_id) × (t.binding_digest ≡ r.binding_digest)
  pub reservation : t.reservation_json ≡ r.reservation_json
  pub name : t.scale_set_name ≡ r.scale_set_name
  pub payload :
      is_some r.payload_json ≡ true
      → (t.payload_json ≡ r.payload_json)
        × (t.payload_digest ≡ r.payload_digest)
        × (t.claim_deadline ≡ r.claim_deadline)
  pub scale_set : is_some r.garm_scale_set_id ≡ true → t.garm_scale_set_id ≡ r.garm_scale_set_id

pub Later-refl : (r : AllocationRow) → Later r r
Later-refl r = ground arith

Later-trans : (r s t : AllocationRow) → Later r s → Later s t → Later r t
Later-trans r s t h k = record {
  identity = ground (arith, h.identity, k.identity);
  reservation = ground (arith, h.reservation, k.reservation);
  name = ground (arith, h.name, k.name);
  payload = λ e. ground (arith, h.payload e, k.payload);
  scale_set = λ e. ground (arith, h.scale_set e, k.scale_set);
}

-- what may become of a row, if there is one
abbrev pub Kept : Option AllocationRow → Option AllocationRow → Type 0
Kept none after = Unit
Kept (some r) none = ⊥
Kept (some r) (some t) = Later r t

Kept-refl : (o : Option AllocationRow) → Kept o o
Kept-refl none = tt
Kept-refl (some r) = Later-refl r

Kept-trans : (o p q : Option AllocationRow) → Kept o p → Kept p q → Kept o q
Kept-trans none p q h k = tt
Kept-trans (some r) none q h k = absurd h
Kept-trans (some r) (some s) none h k = absurd k
Kept-trans (some r) (some s) (some t) h k = Later-trans r s t h k

pub record Moved (o p : Option AllocationRow) : Type 0 where
  pub kept : Kept o p
  pub lives : life o ⟶* life p

pub Moved-refl : (o : Option AllocationRow) → Moved o o
Moved-refl o = record { kept = Kept-refl o; lives = here }

Moved-trans : (o p q : Option AllocationRow) → Moved o p → Moved p q → Moved o q
Moved-trans o p q h k = record {
  kept = Kept-trans o p q h.kept k.kept;
  lives = ⟶*-trans h.lives k.lives;
}

-- From a valid table to a valid one, in which every allocation has lived on.
pub record Step (rows after : List AllocationRow) : Type 0 where
  pub valid : IsValid rows → IsValid after
  pub moved :
      IsValid rows → (id : String) → Moved (lookup row_key id rows) (lookup row_key id after)

pub Step-refl : (rows : List AllocationRow) → Step rows rows
Step-refl rows = record { valid = λ h. h; moved = λ h id. Moved-refl (lookup row_key id rows) }

pub Step-trans : (a b c : List AllocationRow) → Step a b → Step b c → Step a c
Step-trans a b c h k = record {
  valid = λ v. k.valid (h.valid v);
  moved = λ v id.
      Moved-trans (lookup row_key id a) (lookup row_key id b) (lookup row_key id c) (h.moved v id)
        (k.moved (h.valid v) id);
}

-- The invariant may be used to show a step.
pub Step-guarded :
    (rows after : List AllocationRow) → (IsValid rows → Step rows after) → Step rows after
Step-guarded rows after h = record { valid = λ v. (h v).valid v; moved = λ v. (h v).moved v }

abbrev pub Moves : Ledger → Ledger → Type 0
Moves s t = Step s.allocations t.allocations

instance abbrev pub Moves-IsPreorder : IsPreorder Moves
Moves-IsPreorder = record {
  reflexive = λ s. Step-refl s.allocations;
  transitive = λ s t u. Step-trans s.allocations t.allocations u.allocations;
}

-- what a statement may do to a valid row
pub record Allowed (r t : AllocationRow) : Type 0 where
  pub valid : is_valid_row t ≡ true
  pub later : Later r t
  pub lives : life_of r ⟶* life_of t

-- a valid row of a valid table
pub lookup-valid :
    (id : String) (rows : List AllocationRow) (r : AllocationRow)
    → IsValid rows
    → lookup row_key id rows ≡ some r
    → is_valid_row r ≡ true
unfolding lookup
lookup-valid id [] r v e = absurd (ground arith)
lookup-valid id (q ∷ rows) r v e = elim (Bool-cases (row_key q == id)) [
  | inl h ↦ ground arith
  | inr h ↦ lookup-valid id rows r v.2 (ground arith)
]
