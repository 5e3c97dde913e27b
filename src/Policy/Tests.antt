-- ===== src/Policy/Tests.antt =====
-- One routing decision.
use self_hosted_ci.Prelude.{◌≡◌, ◌↔◌, true, false, none, some}
use self_hosted_ci.Json.{end, field, text}
use self_hosted_ci.Policy.{
  RepositoryConfig, InventoryObservation, exact_sha_mode, evaluate_execution_trust, Recent,
  local_eligible_iff,
}

abbrev config : RepositoryConfig
config = record {
  repository = "owner/name";
  ci_runner = "local-with-github-fallback";
  ai_reviewer = "none";
  execution_trust = some (field "mode" (text "exact-sha-attestation") end);
  authority = none;
}

abbrev observation : InventoryObservation
observation = record { status = "clear"; observed_at = 1000 }

local_eligible_iff_example :
    ((evaluate_execution_trust config 2000 (some observation) true false false).local_eligible
      ≡ true)
    ↔ ((config.ci_runner ≡ "local-with-github-fallback")
        × (false ≡ false)
        × (false ≡ false)
        × (exact_sha_mode config.execution_trust ≡ true)
        × (true ≡ true)
        × Recent 2000 (some observation))
local_eligible_iff_example = local_eligible_iff config 2000 (some observation) true false false
