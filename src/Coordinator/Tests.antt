-- ===== src/Coordinator/Tests.antt =====
-- One dispatch that falls back after a partial failure.
use self_hosted_ci.Prelude.{false, ◌≡◌, refl, none, some, List, [], ◌∷◌}
use self_hosted_ci.Json.{Fields, num, text, end, field, get}
use self_hosted_ci.Coordinator.Adapters.{Adapters, ok, err, unavailable, reserve_partial, ◌>>=◌}
use self_hosted_ci.Coordinator.Packages.{Resume, proves_absence, hosted_value}
use self_hosted_ci.Coordinator.Dispatch.{
  assert_exact_recovery, dispatch_hosted, reserve_failed, outbound_local_dispatch,
}

-- The state is the list of dispatched packages; the broker reserves in part and can clean up.
abbrev broken_broker : Adapters (List Fields)
broken_broker = record {
  reserve = λ reservation s. (err (reserve_partial "allocation"), s);
  finalize = λ envelope s. (err unavailable, s);
  recover = λ id s. (ok (field "allocation_id" (text id) (field "state" (text "absent") end)), s);
  dispatch_package = λ values s. (ok (num 9), values ∷ s);
  observe_exact_job = λ run_id label s. (err unavailable, s);
  sign_allocation = λ payload s. (ok payload, s);
  progress = none;
  from_mapping = λ values. some values;
  decimal = λ n. "9";
  isoformat = λ n. "instant";
}

abbrev sent : List Fields → List Fields
sent s = s

abbrev request : Fields
request = field "backend" (text "local") (field "allocation_id" (text "allocation") end)

abbrev reservation : Fields
reservation = field "allocation_id" (text "allocation") end

abbrev fresh : Resume
fresh = record { reserved = none; phase = none; run_id = none; window = none; finalized = false }

falls_back :
    outbound_local_dispatch broken_broker request reservation fresh 100 720 []
    ≡ (ok (hosted_value request, none), hosted_value request ∷ [])
unfolding outbound_local_dispatch reserve_failed assert_exact_recovery dispatch_hosted
    proves_absence get ◌>>=◌
falls_back = refl
