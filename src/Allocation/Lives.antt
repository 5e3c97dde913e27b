-- ===== src/Allocation/Lives.antt =====
-- What the ledger promises of an allocation: a graph of lives, which says nothing of columns, times,
-- digests or SQL.
use self_hosted_ci.Prelude.{ℕ, ◌≡◌, ◌≤◌, refl, String, Bool, true, false, Option, none, some}
use self_hosted_ci.Allocation.Rows.{State, AllocationRow, is_terminal_outcome}

-- `fenced n` needs recovery, and `cleaned n o` is gone for good, after `n` jobs and with the outcome
-- `o`; `ended o` has run its one job.
pub data Life : Type 0 where
  absent reserved issued claimed running : Life
  ended : Option String → Life
  fenced : ℕ → Life
  cleaned : ℕ → Option String → Life

-- the life of the row of an allocation
abbrev pub life_of : AllocationRow → Life
life_of r = elim r.state [
  | State.reserved ↦ reserved
  | State.issued ↦ issued
  | State.claimed ↦ claimed
  | State.running ↦ running
  | State.terminal ↦ ended r.outcome
  | State.recovery_required ↦ fenced r.jobs_started
  | State.cleaned ↦ cleaned r.jobs_started r.outcome
]

abbrev pub life : Option AllocationRow → Life
life none = absent
life (some r) = life_of r

infix 40 ◌⟶◌ ◌⟶*◌
pub data ◌⟶◌ : Life → Life → Type 0 where
  reserve : absent ⟶ reserved
  admit : absent ⟶ issued
  finalize : reserved ⟶ issued
  start : issued ⟶ running
  finish : {o : Option String} → is_terminal_outcome o ≡ true → running ⟶ ended o
  clean : {o : Option String} → ended o ⟶ cleaned 1 o
  fence_reserved : reserved ⟶ fenced 0
  fence_issued : issued ⟶ fenced 0
  fence_claimed : {n : ℕ} → n ≤ 1 → claimed ⟶ fenced n
  fence_running : running ⟶ fenced 1
  acknowledge : {n : ℕ} → fenced n ⟶ cleaned n (some "reboot")

pub data ◌⟶*◌ : Life → Life → Type 0 where
  here : {s : Life} → s ⟶* s
  step : {s t u : Life} → s ⟶ t → t ⟶* u → s ⟶* u

pub ⟶*-trans : {s t u : Life} → s ⟶* t → t ⟶* u → s ⟶* u
⟶*-trans here k = k
⟶*-trans (step e h) k = step e (⟶*-trans h k)

-- a cleaned allocation stays as it is
pub cleaned-⟶* : {n : ℕ} {o : Option String} {t : Life} → cleaned n o ⟶* t → t ≡ cleaned n o
cleaned-⟶* here = refl
cleaned-⟶* (step e h) = elim e [ ]

-- Has the allocation run, or has it been fenced?
abbrev pub is_past : Life → Bool
is_past running = true
is_past (ended o) = true
is_past (fenced n) = true
is_past (cleaned n o) = true
is_past _ = false

past-⟶ : {s t : Life} → s ⟶ t → is_past s ≡ true → is_past t ≡ true
past-⟶ reserve h = h
past-⟶ admit h = h
past-⟶ finalize h = h
past-⟶ start h = refl
past-⟶ (finish o) h = refl
past-⟶ clean h = refl
past-⟶ fence_reserved h = refl
past-⟶ fence_issued h = refl
past-⟶ (fence_claimed n) h = refl
past-⟶ fence_running h = refl
past-⟶ acknowledge h = refl

pub past-⟶* : {s t : Life} → s ⟶* t → is_past s ≡ true → is_past t ≡ true
past-⟶* here h = h
past-⟶* (step e k) h = past-⟶* k (past-⟶ e h)
