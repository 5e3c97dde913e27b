-- ===== src/Policy.antt =====
-- github_automation/policy.py: the routing decision, with the inventory's freshness.
mod Tests
use self_hosted_ci.Prelude.{
  ℕ, ◌-◌, ◌≡◌, ◌↔◌, ◌≤◌, String, Bool, true, false, not, ◌&&◌, ◌||◌, Option, none, some, arith,
  eq_iff, ◌==◌, if◌then◌else◌, string_eq, leb, is_none,
}
use self_hosted_ci.Json.{Json, Fields, get, is_text, text, end, field}
use self_hosted_ci.Timing.Deadlines.{inventory_is_fresh, minutes}

-- `RepositoryConfig` of registry.py
pub record RepositoryConfig : Type 0 where
  pub repository : String
  pub ci_runner : String
  pub ai_reviewer : String
  pub execution_trust : Option Fields
  pub authority : Option Fields

-- what the decision reads of an `InventoryObservation`
pub record InventoryObservation : Type 0 where
  pub status : String
  pub observed_at : ℕ

-- `InventoryObservation.is_fresh`
unfoldable pub is_fresh : InventoryObservation → ℕ → Bool
is_fresh i now = leb i.observed_at now && leb (now - i.observed_at) (minutes 5)

pub record ExecutionDecision : Type 0 where
  pub backend : String
  pub local_eligible : Bool
  pub reason : String

abbrev pub hosted : String → ExecutionDecision
hosted why = record { backend = "github"; local_eligible = false; reason = why }

abbrev pub exact_sha_mode : Option Fields → Bool
exact_sha_mode none = false
exact_sha_mode (some trust) = is_text (get "mode" trust) "exact-sha-attestation"

unfoldable pub with_inventory : ℕ → Bool → Option InventoryObservation → ExecutionDecision
with_inventory now attestation_valid none = hosted "inventory-unavailable"
with_inventory now attestation_valid (some i) =
    if i.status == "unavailable"
    then hosted "inventory-unavailable"
    else if not (is_fresh i now)
    then hosted "inventory-stale"
    else if not attestation_valid
    then hosted "attestation-invalid-or-absent"
    else record {
      backend = "local";
      local_eligible = true;
      reason = "exact-sha-attestation-and-fresh-negative-guard";
    }

unfoldable pub evaluate_execution_trust :
    RepositoryConfig → ℕ → Option InventoryObservation → Bool → Bool → Bool → ExecutionDecision
evaluate_execution_trust config now inventory attestation_valid external dependabot =
    if not (config.ci_runner == "local-with-github-fallback")
    then hosted "registry-default-or-hosted"
    else if external || dependabot
    then hosted "untrusted-event"
    else if not (exact_sha_mode config.execution_trust)
    then hosted "missing-exact-sha-policy"
    else with_inventory now attestation_valid inventory

-- a known, recent inventory
abbrev pub Recent : ℕ → Option InventoryObservation → Type 0
Recent now none = ⊥
Recent now (some i) =
    ((i.status == "unavailable") ≡ false)
    × (i.observed_at ≤ now)
    × (now - i.observed_at ≤ minutes 5)

-- Local execution is chosen exactly when the registry asks for it, the event is trusted, the exact-SHA
-- policy is in force, the inventory is known and at most five minutes old, and the attestation is
-- valid.
pub local_eligible_iff :
    (config : RepositoryConfig) (now : ℕ) (inventory : Option InventoryObservation)
    (attestation_valid external dependabot : Bool)
    → ((evaluate_execution_trust config now inventory attestation_valid external
          dependabot).local_eligible
        ≡ true)
      ↔ ((config.ci_runner ≡ "local-with-github-fallback")
          × (external ≡ false)
          × (dependabot ≡ false)
          × (exact_sha_mode config.execution_trust ≡ true)
          × (attestation_valid ≡ true)
          × Recent now inventory)
unfolding evaluate_execution_trust with_inventory is_fresh
local_eligible_iff config now inventory attestation_valid external dependabot = (
  λ h. ground (arith, eq_iff config.ci_runner "local-with-github-fallback"),
  λ h. ground (arith, eq_iff config.ci_runner "local-with-github-fallback"),
)
