-- ===== src/Allocation/Calls.antt =====
-- The calls of a `SqliteAllocationLedger` that write, and histories of them, each a transaction, by
-- whatever processes.
use self_hosted_ci.Prelude.{ℕ, String, List, [], ◌∷◌}
use self_hosted_ci.Json.{Fields}
use self_hosted_ci.Allocation.{Services}
use self_hosted_ci.Allocation.Rows.{Ledger}
use self_hosted_ci.Allocation.Admission.{admit, reserve, finalize, bind_scale_set}
use self_hosted_ci.Allocation.Lifecycle.{Arguments, transition}
use self_hosted_ci.Allocation.Outcomes.{append_outcome}
use self_hosted_ci.Allocation.Opening.{open_ledger}

pub data Call : Type 0 where
  admits finalizes : Fields → String → ℕ → Call
  reserves : Fields → ℕ → Call
  binds : String → String → String → Call
  transitions : String → String → Arguments → Call
  appends : ℕ → Fields → ℕ → Call
  opens : ℕ → ℕ → Call

-- the state after a call, whether it returns or raises
abbrev pub call : Services → Call → Ledger → Ledger
call sv (admits envelope pinned now) s = (admit sv envelope pinned now s).1
call sv (finalizes envelope pinned now) s = (finalize sv envelope pinned now s).1
call sv (reserves reservation now) s = (reserve sv reservation now s).1
call sv (binds id scale_set_id scale_set_name) s =
    (bind_scale_set id scale_set_id scale_set_name s).1
call sv (transitions id name q) s = (transition sv id name q s).1
call sv (appends retention_days event now) s = (append_outcome sv retention_days event now s).1
call sv (opens retention_days now) s = (open_ledger sv retention_days now s).1

-- each call with what it is given
unfoldable pub run : List (Services × Call) → Ledger → Ledger
run [] s = s
run ((sv, c) ∷ cs) s = run cs (call sv c s)

-- a new file, before it is opened
abbrev pub empty : Ledger
empty = record { version = 0; allocations = []; outcomes = [] }
