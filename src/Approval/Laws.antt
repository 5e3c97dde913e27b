-- ===== src/Approval/Laws.antt =====
-- What is signed.
use self_hosted_ci.Prelude.{
  ◌≡◌, refl, sym, ap, subst, String, Bool, true, false, ◌&&◌, ◌⊎◌, Option, none, some, ltb,
  if◌then◌else◌, nat_eq, string_eq, arith, eq_iff, inl, inr, Option-cases,
}
use self_hosted_ci.Texts.{is_digest, is_positive_decimal, is_repository, is_sha}
use self_hosted_ci.Json.{Json, num, text, Fields, get}
use self_hosted_ci.Registry.{is_null, is_positive, is_text_with}
use self_hosted_ci.Approval.{
  BoundedSigningRequest, text_value, num_value, optional_text, is_generation, has_fields, checks,
  request_of, validate, ProceduralApprovalContext, denial, evaluate_signing_request,
  ResolvedSigningTarget, Observed, fits, resolve_signing_target,
}

text_value_eq :
    (test : String → Bool) (o : Option Json)
    → is_text_with test o ≡ true
    → (o ≡ some (text (text_value o))) × (test (text_value o) ≡ true)
text_value_eq test none e = absurd (ground arith)
text_value_eq test (some (text s)) e = (refl, e)
text_value_eq test (some x) e = absurd (ground arith)

num_value_eq :
    (o : Option Json)
    → is_positive o ≡ true
    → (o ≡ some (num (num_value o))) × (ltb 0 (num_value o) ≡ true)
num_value_eq none e = absurd (ground arith)
num_value_eq (some (num n)) e = (refl, e)
num_value_eq (some x) e = absurd (ground arith)

-- the request names exactly this target, in full
pub record Names (raw : Fields) (t : ResolvedSigningTarget) : Type 0 where
  pub repository_id :
      (get "repository_id" raw ≡ some (text t.repository_id))
      × (is_positive_decimal t.repository_id ≡ true)
  pub repository :
      (get "repository" raw ≡ some (text t.repository)) × (is_repository t.repository ≡ true)
  pub pr_number : (get "pr_number" raw ≡ some (num t.pr_number)) × (ltb 0 t.pr_number ≡ true)
  pub head_sha : (get "head_sha" raw ≡ some (text t.head_sha)) × (is_sha t.head_sha ≡ true)
  pub generation : is_positive_decimal t.head_generation ≡ true
  pub expected :
      (is_null (get "expected_head_generation" raw) ≡ true)
      ⊎ (get "expected_head_generation" raw ≡ some (text t.head_generation))

guarded :
    {A : Type 0} (b c : Bool) (x y : A)
    → (if b && c then some x else none) ≡ some y
    → (c ≡ true) × (x ≡ y)
guarded true true x y e = (refl, ground (arith, e))
guarded true false x y e = absurd (ground arith)
guarded false c x y e = absurd (ground arith)

validated :
    (raw : Fields) (r : BoundedSigningRequest)
    → validate raw ≡ some r
    → (checks raw ≡ true) × (request_of raw ≡ r)
unfolding validate
validated raw r e = guarded (has_fields raw) (checks raw) (request_of raw) r e

expected_eq :
    (o : Option Json) (t : String)
    → is_generation o ≡ true
    → fits (optional_text o) t ≡ true
    → (is_null o ≡ true) ⊎ (o ≡ some (text t))
expected_eq none t g e = inl refl
expected_eq (some (text s)) t g e = inr (ap (λ s. some (text s)) ((eq_iff s t).0 e))
expected_eq (some (Json.null)) t g e = inl refl
expected_eq (some x) t g e = absurd (ground arith)

resolved :
    (r : BoundedSigningRequest) (o : Observed) (generation : String) (t : ResolvedSigningTarget)
    → resolve_signing_target r o generation ≡ some t
    → (t.repository_id ≡ r.repository_id)
      × (t.repository ≡ r.repository)
      × (t.pr_number ≡ r.pr_number)
      × (t.head_sha ≡ r.head_sha)
      × (t.head_generation ≡ generation)
      × (is_positive_decimal generation ≡ true)
      × (fits r.expected_head_generation generation ≡ true)
unfolding resolve_signing_target
resolved r o generation t e = ground (
  arith,
  e,
  eq_iff o.repository_id r.repository_id,
  eq_iff o.repository r.repository,
  eq_iff o.head_sha r.head_sha,
)

resolved_observed :
    (r : BoundedSigningRequest) (o : Observed) (generation : String) (t : ResolvedSigningTarget)
    → resolve_signing_target r o generation ≡ some t
    → t ≡ (record {
      repository_id = o.repository_id;
      repository = o.repository;
      pr_number = o.pr_number;
      head_sha = o.head_sha;
      head_generation = generation;
    })
unfolding resolve_signing_target
resolved_observed r o generation t e = ground (arith, e)

accepted :
    (raw : Fields) (c : ProceduralApprovalContext) (r : BoundedSigningRequest)
    → (evaluate_signing_request raw c).request ≡ some r
    → (validate raw ≡ some r) × (denial c ≡ none)
unfolding evaluate_signing_request
accepted raw c r e = elim (Option-cases (validate raw)) [
  | inl invalid ↦ absurd (ground (arith, e))
  | inr (q, valid) ↦ ground (arith, e)
]

six :
    (a b c d f g : Bool)
    → a && b && c && d && f && g ≡ true
    → (a ≡ true) × (b ≡ true) × (c ≡ true) × (d ≡ true) × (g ≡ true)
six a b c d f g e = ground (arith, e)

asked :
    (c : ProceduralApprovalContext)
    → denial c ≡ none
    → (c.explicit_same_thread_request ≡ true)
      × (c.requested_target_count ≡ 1)
      × (c.requested_scope ≡ "exact-pr-head")
      × (c.references_future_head ≡ false)
asked c e = ground (arith, e, eq_iff c.requested_scope "exact-pr-head")

request-Names :
    (raw : Fields) (o : Observed) (generation : String) (t : ResolvedSigningTarget)
    → checks raw ≡ true
    → resolve_signing_target (request_of raw) o generation ≡ some t
    → Names raw t
request-Names raw o generation t e e' =
    let (id, name, number, head, of_store, canonical, fit) =
      resolved (request_of raw) o generation t e' in
    let (id_ok, name_ok, number_ok, head_ok, generation_ok) =
      six (is_text_with is_positive_decimal (get "repository_id" raw))
        (is_text_with is_repository (get "repository" raw)) (is_positive (get "pr_number" raw))
        (is_text_with is_sha (get "head_sha" raw))
        (is_text_with is_digest (get "request_linkage_hash" raw))
        (is_generation (get "expected_head_generation" raw)) e in
    let Passes = λ (test : String → Bool) (k : String) (s : String).
      (get k raw ≡ some (text s)) × (test s ≡ true) in
    record {
      repository_id =
          subst (Passes is_positive_decimal "repository_id") (sym id) (text_value_eq _ _ id_ok);
      repository = subst (Passes is_repository "repository") (sym name) (text_value_eq _ _ name_ok);
      pr_number =
          subst (λ n. (get "pr_number" raw ≡ some (num n)) × (ltb 0 n ≡ true)) (sym number)
            (num_value_eq _ number_ok);
      head_sha = subst (Passes is_sha "head_sha") (sym head) (text_value_eq _ _ head_ok);
      generation = subst (λ g. is_positive_decimal g ≡ true) (sym of_store) canonical;
      expected = expected_eq _ _ generation_ok (
          subst (λ g. fits (optional_text (get "expected_head_generation" raw)) g ≡ true)
            (sym of_store) fit);
    }

-- Where a request is accepted and its target then resolved, what is signed is the target that GitHub
-- shows with the generation of the gate store; the request names it in full, each part well formed, and
-- no other generation; and it was asked for in the same thread, for one exact head.
pub resolve_signing_target-Names :
    (raw : Fields) (c : ProceduralApprovalContext) (r : BoundedSigningRequest) (o : Observed)
    (generation : String) (t : ResolvedSigningTarget)
    → (evaluate_signing_request raw c).request ≡ some r
    → resolve_signing_target r o generation ≡ some t
    → Names raw t
      × (t ≡ (record {
        repository_id = o.repository_id;
        repository = o.repository;
        pr_number = o.pr_number;
        head_sha = o.head_sha;
        head_generation = generation;
      }))
      × (c.explicit_same_thread_request ≡ true)
      × (c.requested_target_count ≡ 1)
      × (c.requested_scope ≡ "exact-pr-head")
      × (c.references_future_head ≡ false)
resolve_signing_target-Names raw c r o generation t e e' =
    let (valid, none_denied) = accepted raw c r e in
    let (passed, is_r) = validated raw r valid in
    let (same_thread, one_target, exact_head, no_future) = asked c none_denied in
    (
      request-Names raw o generation t passed
          (subst (λ q. resolve_signing_target q o generation ≡ some t) (sym is_r) e'),
      resolved_observed r o generation t e',
      same_thread,
      one_target,
      exact_head,
      no_future,
    )
