-- ===== src/GateStore/Moves.antt =====
-- What one call may do to the table of gates, as a relation between two tables.
use self_hosted_ci.Prelude.{
  ◌<◌, ℕ, ◌+◌, ◌≤◌, ◌≡◌, ◌⊎◌, Option, none, some, List, ◌∷◌, arith, update, pair_eq, nat_eq,
  string_eq,
}
use self_hosted_ci.GateStore.Rows.{GateRow, gate_key}
use self_hosted_ci.GateStore.Queries.{select_gate, max_generation}

-- A later state of a generation: its identity and its tuple stay, its epoch never falls and rises
-- with every change of owner, and a winner or a result, once there, is there for good.
pub record Keeps (r s : GateRow) : Type 0 where
  pub logical_key : s.logical_key ≡ r.logical_key
  pub generation : s.generation ≡ r.generation
  pub head_generation : s.head_generation ≡ r.head_generation
  pub base_sha : s.base_sha ≡ r.base_sha
  pub tested_merge_sha : s.tested_merge_sha ≡ r.tested_merge_sha
  pub check_run_id : s.check_run_id ≡ r.check_run_id
  pub created_at : s.created_at ≡ r.created_at
  pub epoch : r.lease_epoch ≤ s.lease_epoch
  pub owner : (s.owner ≡ r.owner) ⊎ (r.lease_epoch < s.lease_epoch)
  pub winner : (r.winner ≡ none) ⊎ (s.winner ≡ r.winner)
  pub result :
      (r.result_kind ≡ none)
      ⊎ ((s.result_kind ≡ r.result_kind)
          × (s.evidence_digest ≡ r.evidence_digest)
          × (s.terminal_json ≡ r.terminal_json))

-- the generation that a new row of a key gets
abbrev pub next_generation : Option ℕ → ℕ
next_generation none = 1
next_generation (some g) = g + 1

pub data Move (before after : List GateRow) : Type 0 where
  stay : after ≡ before → Move before after
  opens :
      (row : GateRow)
      → row.generation ≡ next_generation (max_generation row.logical_key before)
      → row.winner ≡ none
      → row.result_kind ≡ none
      → row.lease_epoch ≡ 1
      → after ≡ row ∷ before
      → Move before after
  rewrites :
      (r : GateRow) (f : GateRow → GateRow)
      → select_gate r.logical_key r.generation before ≡ some r
      → max_generation r.logical_key before ≡ some r.generation
      → ((s : GateRow) → gate_key (f s) ≡ gate_key s)
      → Keeps r (f r)
      → after ≡ update gate_key (gate_key r) f before
      → Move before after

pub Keeps-refl : (r : GateRow) → Keeps r r
Keeps-refl r = ground arith

pub Keeps-trans : (r s t : GateRow) → Keeps r s → Keeps s t → Keeps r t
Keeps-trans r s t h k = ground arith
