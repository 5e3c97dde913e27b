-- ===== src/GateStore/Heads.antt =====
-- `GateStore.observe_head`.
use self_hosted_ci.Prelude.{
  ℕ, ◌+◌, String, ◌||◌, none, some, ◌∷◌, ◌==◌, if◌then◌else◌, lookup, update, pair_eq, nat_eq,
  string_eq,
}
use self_hosted_ci.GateStore.Rows.{head_key}
use self_hosted_ci.GateStore.Monad.{
  Tx, pure, gets, modify, raise_if, transaction, ◌>>=◌, ◌>>◌, value_error,
}

-- The first observation has generation 1, a changed head the next one.
unfoldable pub record_head : String → ℕ → String → Tx ℕ
record_head repository_id pr_number head_sha = do
  found ← gets λ db. lookup head_key (repository_id, pr_number) db.heads
  elim found [
    | none ↦ do
      modify λ db. record db {
        heads =
            record {
              repository_id = repository_id;
              pr_number = pr_number;
              head_sha = head_sha;
              head_generation = 1;
            }
            ∷ db.heads;
      }
      pure 1
    | some row ↦ if row.head_sha == head_sha then pure row.head_generation else (do
      modify λ db. record db {
        heads =
            update head_key (repository_id, pr_number)
              (λ r. record r { head_sha = head_sha; head_generation = row.head_generation + 1 })
              db.heads;
      }
      pure (row.head_generation + 1))
  ]

unfoldable pub observe_head : String → ℕ → String → Tx ℕ
observe_head repository_id pr_number head_sha = do
  raise_if (repository_id == "" || pr_number == 0 || head_sha == "") value_error
  transaction (record_head repository_id pr_number head_sha)
