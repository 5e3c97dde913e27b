-- ===== src/Allocation/Opening.antt =====
-- `SqliteAllocationLedger.__init__` on a ledger that has its tables and columns: the migration of the
-- third version, and the retention of outcomes.
use self_hosted_ci.Prelude.{ℕ, ◌||◌, List, [], ◌∷◌, ltb, ◌==◌, if◌then◌else◌, nat_eq}
use self_hosted_ci.Effects.{◌>>=◌, ◌>>◌, pure, raise_if, gets, modify, atomic}
use self_hosted_ci.Allocation.{jit_error, Services}
use self_hosted_ci.Allocation.Rows.{is_claimed, AllocationRow, Tx}
use self_hosted_ci.Allocation.Lifecycle.{cleanup_key, columns_of, fenced, with_columns}
use self_hosted_ci.Allocation.Outcomes.{recent, cutoff_of}

-- each claimed allocation needs recovery
unfoldable pub fence_claimed : Services → List AllocationRow → Tx (List AllocationRow)
fence_claimed sv [] = pure []
fence_claimed sv (r ∷ rows) = do
  rest ← fence_claimed sv rows
  if is_claimed r.state
      then (do
        key ← cleanup_key sv r.allocation_id r.payload_digest
        pure (with_columns (fenced key (columns_of r)) r ∷ rest))
      else pure (r ∷ rest)

-- the migration of a ledger whose version is less than 3
unfoldable pub migrate : Services → Tx (Unit {0})
unfolding fence_claimed
migrate sv = do
  version ← gets λ s. s.version
  if ltb version 3
      then (do
        rows ← fence_claimed sv (← gets λ s. s.allocations)
        modify λ s. record s { version = 3; allocations = rows })
      else pure tt

unfoldable pub open_ledger : Services → ℕ → ℕ → Tx (Unit {0})
unfolding migrate
open_ledger sv retention_days now = do
  raise_if (retention_days == 0 || ltb 365 retention_days) jit_error
  atomic (do
    raise_if (← gets λ s. ltb 3 s.version) jit_error
    migrate sv
    modify λ s. record s { outcomes = recent (cutoff_of retention_days now) s.outcomes })
