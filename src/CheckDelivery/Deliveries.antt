-- ===== src/CheckDelivery/Deliveries.antt =====
-- What a delivery through `GitHubCheckTransport` leaves at GitHub.
use self_hosted_ci.Prelude.{
  ap, ◌∙◌, sym, ℕ, ◌≡◌, refl, String, Option, none, some, arith, true, subst,
}
use self_hosted_ci.Json.{
  is_text-eq, Json, Fields, null, bool, num, text, arr, obj, get, is_text, is_num, or_null,
  same_json,
}
use self_hosted_ci.Effects
use self_hosted_ci.Effects.Returned.{returns, guarded, ended, translated_ok}
use self_hosted_ci.Effects.{translated, raise_unless, Act, ◌>>=◌, continue, translate}
use self_hosted_ci.CheckDelivery.{
  Outcome, ok, err, CheckDelivery, marker, check_payload, read_back, reread, after_patch,
  deliver_exact, Delivered, ambiguous_write, delivery_error, evidence_conflict, transport,
}
use self_hosted_ci.CheckDelivery.Transport.{
  lowered, as_mapping, AdapterError, GitHubCheckTransport, HttpResponse, url, headers, check_path,
  expected_json, send, patch_exact, get_exact, check_transport, is_expected,
}

-- The documented behaviour of the Check Runs API: the answer to an update, and to a read, is the
-- Check Run as it is stored then. `stored` is the Check Run of an id.
pub record IsCheckRuns {S : Type 0} (g : GitHubCheckTransport S) (stored : S → ℕ → Fields)
    : Type 0 where
  pub updated :
      (s t : S) (id : ℕ) (body : Fields) (answer : HttpResponse) (run : Fields)
      → g.request "PATCH" (url g (check_path g id)) (headers g) (some body) s
        ≡ (Effects.ok answer, t)
      → answer.status ≡ 200
      → g.loads answer.body ≡ some (obj run)
      → stored t id ≡ run
  pub read :
      (s t : S) (id : ℕ) (answer : HttpResponse) (run : Fields)
      → g.request "GET" (url g (check_path g id)) (headers g) none s ≡ (Effects.ok answer, t)
      → answer.status ≡ 200
      → g.loads answer.body ≡ some (obj run)
      → stored t id ≡ run

-- The Check Run shows the delivery: its marker, its commit and its conclusion.
abbrev pub Shows : CheckDelivery → Fields → Type 0
Shows d f =
    (is_num (get "id" f) d.check_run_id ≡ true)
    × (get "external_id" f ≡ some (text (marker d)))
    × (get "head_sha" f ≡ some (text d.target_sha))
    × (get "conclusion" f ≡ some (text d.conclusion))

same_text-eq :
    (o : Option Json) (t : String) → is_text (some (or_null o)) t ≡ true → o ≡ some (text t)
same_text-eq none t h = absurd (ground arith)
same_text-eq (some v) t h = is_text-eq (some v) t h

-- What a read-back accepts shows the delivery.
read_back-Shows :
    (d : CheckDelivery) (observed : Fields) (how : Delivered)
    → read_back d observed ≡ ok how
    → Shows d observed
unfolding read_back
read_back-Shows d observed how h = ground (
  arith,
  is_text-eq (get "external_id" observed) (marker d),
  is_text-eq (get "head_sha" observed) d.target_sha,
  is_text-eq (get "conclusion" observed) d.conclusion,
)

-- What the adapter accepts as the answer to an update shows the delivery.
is_expected-Shows :
    {S : Type 0} (g : GitHubCheckTransport S) (d : CheckDelivery) (run : Fields)
    → is_expected g d.check_run_id (check_payload d) run ≡ true
    → Shows d run
unfolding get same_json
is_expected-Shows g d run h = ground (
  arith,
  same_text-eq (get "external_id" run) (marker d),
  same_text-eq (get "head_sha" run) d.target_sha,
  same_text-eq (get "conclusion" run) d.conclusion,
)

module _ {S : Type 0} (g : GitHubCheckTransport S) where
  as_mapping-eq : (o : Option Json) (fs : Fields) → as_mapping g o ≡ some fs → o ≡ some (obj fs)
  as_mapping-eq none fs h = absurd (ground arith)
  as_mapping-eq (some null) fs h = absurd (ground arith)
  as_mapping-eq (some (bool b)) fs h = absurd (ground arith)
  as_mapping-eq (some (num n)) fs h = absurd (ground arith)
  as_mapping-eq (some (text s)) fs h = absurd (ground arith)
  as_mapping-eq (some (arr xs)) fs h = absurd (ground arith)
  as_mapping-eq (some (obj gs)) fs h = ground arith

  -- what a response that is accepted holds
  answered :
      (response : HttpResponse) (s t : S) (run : Fields)
      → expected_json g response 200 s ≡ (Effects.ok run, t)
      → (response.status ≡ 200) × (g.loads response.body ≡ some (obj run)) × (t ≡ s)
  unfolding expected_json ◌>>=◌
  answered response s t run h = ground (arith, as_mapping-eq (g.loads response.body) run)

module _ {S : Type 0} (g : GitHubCheckTransport S) (stored : S → ℕ → Fields)
    (runs : IsCheckRuns g stored) where
  sent :
      (id : ℕ) (body run : Fields) (s t : S)
      → send g "PATCH" (check_path g id) body 200 s ≡ (Effects.ok run, t)
      → stored t id ≡ run
  unfolding send
  sent id body run s t h =
      let (_, s1, _, h1) = returns _ _ s run t h in
      let (answer, s2, e2, h2) = returns _ _ s1 run t h1 in
      let (status, loaded, same) = answered g answer s2 t run h2 in
      runs.updated s1 t id body answer run (e2 ∙ ap (λ u. (Effects.ok answer, u)) (sym same)) status
        loaded

  patched :
      (d : CheckDelivery) (s t : S)
      → patch_exact g d.check_run_id (check_payload d) s ≡ (Effects.ok tt, t)
      → Shows d (stored t d.check_run_id)
  unfolding patch_exact
  patched d s t h =
      let (_, s1, _, h1) = returns _ _ s tt t h in
      let (_, s2, _, h2) = returns _ _ s1 tt t h1 in
      let (run, s3, e3, h3) = returns _ _ s2 tt t h2 in
      let is = sent d.check_run_id _ run s2 s3 (translated_ok _ _ s2 s3 run e3) in
      let (expected, same) = guarded _ _ s3 t h3 in
      subst (λ f. Shows d f) (sym is ∙ ap (λ u. stored u d.check_run_id) (sym same))
        (is_expected-Shows g d run expected)

  fetched :
      (id : ℕ) (run : Fields) (s t : S) → get_exact g id s ≡ (Effects.ok run, t) → stored t id ≡ run
  unfolding get_exact
  fetched id run s t h =
      let (_, s1, _, h1) = returns _ _ s run t h in
      let (_, s2, _, h2) = returns _ _ s1 run t h1 in
      let (answer, s3, e3, h3) = returns _ _ s2 run t h2 in
      let (found, s4, e4, h4) = returns _ _ s3 run t h3 in
      let (status, loaded, same) = answered g answer s3 s4 found e4 in
      let (_, s5, e5, h5) = returns _ _ s4 run t h4 in
      let (_, kept) = guarded _ _ s4 s5 e5 in
      let (is, stays) = ended found run s5 t h5 in
      subst (λ u. stored u id ≡ run) (sym (stays ∙ kept ∙ same))
        (runs.read s2 s3 id answer found e3 status loaded ∙ sym is)

-- A transport that returns has an adapter that returns.
lowered_ok :
    {S A : Type 0} (g : GitHubCheckTransport S) (r : Effects.Outcome AdapterError A × S) (a : A)
    (t : S)
    → ◌≡◌ {A = Outcome A × S} (lowered g r.0, r.1) (ok a, t)
    → r ≡ (Effects.ok a, t)
lowered_ok g (Effects.ok b, s) a t h = ground arith
lowered_ok g (Effects.err AdapterError.ambiguous, s) a t h = absurd (ground arith)
lowered_ok g (Effects.err AdapterError.adapter_error, s) a t h = absurd (ground arith)
lowered_ok g (Effects.err AdapterError.control_failure, s) a t h = absurd (ground arith)
lowered_ok g (Effects.err AdapterError.other, s) a t h = absurd (ground arith)

module _ {S : Type 0} (g : GitHubCheckTransport S) (stored : S → ℕ → Fields)
    (runs : IsCheckRuns g stored) (d : CheckDelivery) where
  reread-Shows :
      (s t u : S) (how : Delivered) (r : Outcome Fields)
      → (check_transport g).get_exact s d.check_run_id ≡ (r, t)
      → reread (check_transport g) d (r, t) ≡ (ok how, u)
      → Shows d (stored u d.check_run_id)
  reread-Shows s t u how (ok run) e h =
      let is = fetched g stored runs d.check_run_id run s t (lowered_ok g _ run t e) in
      let here : t ≡ u = ap (λ x. x.1) h in
      subst (λ f. Shows d f) (sym is ∙ ap (λ v. stored v d.check_run_id) here)
        (read_back-Shows d run how (ap (λ x. x.0) h))
  reread-Shows s t u how (err x) e h = absurd (ground arith)

  after_patch-Shows :
      (s t u : S) (how : Delivered) (r : Outcome (Unit {0}))
      → (check_transport g).patch_exact s d.check_run_id (check_payload d) ≡ (r, t)
      → after_patch (check_transport g) d (r, t) ≡ (ok how, u)
      → Shows d (stored u d.check_run_id)
  after_patch-Shows s t u how (ok _) e h =
      let here : t ≡ u = ground arith in
      subst (λ v. Shows d (stored v d.check_run_id)) here
        (patched g stored runs d s t (lowered_ok g _ tt t e))
  after_patch-Shows s t u how (err ambiguous_write) e h = reread-Shows t _ u how _ refl h
  after_patch-Shows s t u how (err delivery_error) e h = absurd (ground arith)
  after_patch-Shows s t u how (err evidence_conflict) e h = absurd (ground arith)
  after_patch-Shows s t u how (err transport) e h = absurd (ground arith)

-- If a delivery through the adapter of one token returns, whether by an acknowledged write or by
-- reading back after an ambiguous one, and the API answers an update and a read with the stored Check
-- Run, then the stored Check Run is the delivery's, and shows its marker, commit and conclusion.
pub deliver_exact-Shows :
    {S : Type 0} (g : GitHubCheckTransport S) (stored : S → ℕ → Fields) (d : CheckDelivery)
    (s t : S) (how : Delivered)
    → IsCheckRuns g stored
    → deliver_exact (check_transport g) d s ≡ (ok how, t)
    → Shows d (stored t d.check_run_id)
unfolding deliver_exact
deliver_exact-Shows g stored d s t how runs h = after_patch-Shows g stored runs d s _ t how _ refl h
