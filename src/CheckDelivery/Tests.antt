-- ===== src/CheckDelivery/Tests.antt =====
-- A delivery whose answer is lost, so that the Check Run is read back.
use self_hosted_ci.Prelude.{
  sym, ℕ, ◌≡◌, refl, Bool, true, false, some, ◌==◌, if◌then◌else◌, string_eq, arith, nat_eq,
}
use self_hosted_ci.Json.{Fields, obj, num, text, end, field, get, same_json}
use self_hosted_ci.Effects
use self_hosted_ci.Effects.{◌>>=◌, translate}
use self_hosted_ci.CheckDelivery.{
  subst, CheckDelivery, ok, reconciled, deliver_exact, read_back, check_payload,
}
use self_hosted_ci.CheckDelivery.Transport.{
  GitHubCheckTransport, AdapterError, AppAuthority, InstallationToken, HttpResponse,
  check_transport, is_current, permits, authorize, expected_json, send, patch_exact, get_exact,
}
use self_hosted_ci.CheckDelivery.Deliveries.{IsCheckRuns, Shows, deliver_exact-Shows}

abbrev delivery : CheckDelivery
delivery = record {
  check_run_id = 5;
  evidence_digest = "digest";
  conclusion = "success";
  target_sha = "sha";
}

abbrev new_run : Fields
new_run = field "id" (num 5) (check_payload delivery)

abbrev old_run : Fields
old_run = field "id" (num 5) (field "head_sha" (text "sha") (field "external_id" (text "") end))

-- The state tells whether the Check Run has been updated; the answer to the first update is lost.
abbrev stored : Bool → ℕ → Fields
stored updated id = if updated then new_run else old_run

abbrev answer : Bool → HttpResponse
answer updated = record { status = 200; body = if updated then "new" else "old" }

abbrev authority : AppAuthority
authority = record {
  repository = "acme/app";
  repository_id = 7;
  installation_id = 8;
  permissions = field "checks" (text "write") end;
  key_state = "active";
}

abbrev token : InstallationToken
token = record {
  value = "token";
  expires_at = 100;
  repository = "acme/app";
  repository_id = 7;
  installation_id = 8;
  permissions = field "checks" (text "write") end;
}

abbrev lossy : GitHubCheckTransport Bool
lossy = record {
  token = token;
  authority = authority;
  request = λ method url headers body updated.
      if method == "GET"
      then (Effects.ok (answer updated), updated)
      else if updated
      then (Effects.ok (answer true), true)
      else (Effects.err AdapterError.adapter_error, true);
  clock = λ updated. 50;
  loads = λ body. some (obj (if body == "new" then new_run else old_run));
  decimal = λ n. "5";
}

loads-answer :
    (u : Bool) (id : ℕ) (run : Fields)
    → lossy.loads (answer u).body ≡ some (obj run)
    → stored u id ≡ run
loads-answer false id run h = ground arith
loads-answer true id run h = ground arith

answers :
    (u t : Bool) (id : ℕ) (a : HttpResponse) (run : Fields)
    → ◌≡◌ {A = Effects.Outcome AdapterError HttpResponse × Bool}
        (Effects.ok (answer u), u)
        (Effects.ok a, t)
    → lossy.loads a.body ≡ some (obj run)
    → stored t id ≡ run
answers u t id a run h loaded =
    let same : answer u ≡ a = ground arith in
    let stays : u ≡ t = ground arith in
    subst (λ v. stored v id ≡ run) stays
      (loads-answer u id run (subst (λ b. lossy.loads b.body ≡ some (obj run)) (sym same) loaded))

lossy_updates :
    (s t : Bool) (id : ℕ) (a : HttpResponse) (run : Fields)
    → ◌≡◌ {A = Effects.Outcome AdapterError HttpResponse × Bool}
        (if s
          then (Effects.ok (answer true), true)
          else (Effects.err AdapterError.adapter_error, true))
        (Effects.ok a, t)
    → lossy.loads a.body ≡ some (obj run)
    → stored t id ≡ run
lossy_updates false t id a run h loaded = absurd (ground arith)
lossy_updates true t id a run h loaded = answers true t id a run h loaded

lossy-IsCheckRuns : IsCheckRuns lossy stored
lossy-IsCheckRuns = record {
  updated = λ s t id body a run h status loaded. lossy_updates s t id a run h loaded;
  read = λ s t id a run h status loaded. answers s t id a run h loaded;
}

delivers : deliver_exact (check_transport lossy) delivery false ≡ (ok reconciled, true)
unfolding deliver_exact read_back patch_exact get_exact send authorize expected_json is_current
    permits translate ◌>>=◌ get same_json
delivers = refl

deliver_exact-Shows_example : Shows delivery new_run
unfolding get
deliver_exact-Shows_example =
    deliver_exact-Shows lossy stored delivery false true reconciled lossy-IsCheckRuns delivers
