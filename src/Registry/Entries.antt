-- ===== src/Registry/Entries.antt =====
-- The trust and the authority of a local entry, field by field.
use self_hosted_ci.Prelude.{
  ℕ, ◌≡◌, refl, ap, String, Bool, true, ◌&&◌, ◌⊎◌, Option, none, some, ltb, nat_eq, string_eq,
  arith, eq_iff, inl, inr, Bool-cases,
}
use self_hosted_ci.Json.{Json, num, text, Fields, get, is_num, is_text}
use self_hosted_ci.Texts.{is_digest, has_content}
use self_hosted_ci.Registry.{
  is_null, is_positive, is_text_with, valid_trust, is_exact_group, valid_authority,
}

pub is_text_eq : (o : Option Json) (t : String) → is_text o t ≡ true → o ≡ some (text t)
is_text_eq none t e = absurd (ground arith)
is_text_eq (some (text s)) t e = ap (λ s. some (text s)) ((eq_iff s t).0 e)
is_text_eq (some x) t e = absurd (ground arith)

-- a text that passes the test
pub HasText : (String → Bool) → Option Json → Type 0
HasText test o = (s : String) × (o ≡ some (text s)) × (test s ≡ true)

pub is_text_with_eq :
    (test : String → Bool) (o : Option Json) → is_text_with test o ≡ true → HasText test o
unfolding HasText
is_text_with_eq test none e = absurd (ground arith)
is_text_with_eq test (some (text s)) e = (s, refl, e)
is_text_with_eq test (some x) e = absurd (ground arith)

pub HasPositive : Option Json → Type 0
HasPositive o = (n : ℕ) × (o ≡ some (num n)) × (ltb 0 n ≡ true)

pub is_positive_eq : (o : Option Json) → is_positive o ≡ true → HasPositive o
unfolding HasPositive
is_positive_eq none e = absurd (ground arith)
is_positive_eq (some (num n)) e = (n, refl, e)
is_positive_eq (some x) e = absurd (ground arith)

pub both : (a b : Bool) → a && b ≡ true → (a ≡ true) × (b ≡ true)
both a b e = ground (arith, e)

conjuncts :
    (a b c d f g h i j k l : Bool)
    → a && b && c && d && f && g && h && i && j && k && l ≡ true
    → (c ≡ true) × (g ≡ true) × (h ≡ true) × (i ≡ true) × (j ≡ true) × (k ≡ true) × (l ≡ true)
conjuncts a b c d f g h i j k l e = ground (arith, e)

-- the trust of a local entry
pub record IsTrust (trust : Fields) : Type 0 where
  pub mode : get "mode" trust ≡ some (text "exact-sha-attestation")
  pub guard : get "inventory_drift_guard" trust ≡ some (text "enabled")
  pub generation : HasPositive (get "key_manifest_generation" trust)
  pub manifest : HasText is_digest (get "key_manifest_digest" trust)
  pub root : HasText is_digest (get "offline_root_public_fingerprint" trust)
  pub fingerprint : HasText is_digest (get "public_key_fingerprint" trust)
  pub key : HasText has_content (get "public_key_id" trust)

-- the authority of a local entry: the repository's own, or that of one exact group of runners
pub record IsAuthority (authority : Fields) : Type 0 where
  pub installation : HasPositive (get "installation_id" authority)
  pub group :
      (get "kind" authority ≡ some (text "personal-repository"))
        × (is_null (get "runner_group" authority) ≡ true)
      ⊎ (get "kind" authority ≡ some (text "organization-runner-group"))
        × HasText is_exact_group (get "runner_group" authority)

pub valid_trust-IsTrust : (trust : Fields) → valid_trust trust ≡ true → IsTrust trust
unfolding valid_trust
valid_trust-IsTrust trust e =
    let (mode, guard, generation, manifest, root, fingerprint, key) =
      conjuncts _ (is_num (get "policy_version" trust) 1)
        (is_text (get "mode" trust) "exact-sha-attestation")
        (is_num (get "attestation_authority_version" trust) 1)
        (is_num (get "key_manifest_version" trust) 1)
        (is_text (get "inventory_drift_guard" trust) "enabled")
        (is_positive (get "key_manifest_generation" trust))
        (is_text_with is_digest (get "key_manifest_digest" trust))
        (is_text_with is_digest (get "offline_root_public_fingerprint" trust))
        (is_text_with is_digest (get "public_key_fingerprint" trust))
        (is_text_with has_content (get "public_key_id" trust)) e in
    record {
      mode = is_text_eq _ _ mode;
      guard = is_text_eq _ _ guard;
      generation = is_positive_eq _ generation;
      manifest = is_text_with_eq _ _ manifest;
      root = is_text_with_eq _ _ root;
      fingerprint = is_text_with_eq _ _ fingerprint;
      key = is_text_with_eq _ _ key;
    }

pub valid_authority-IsAuthority :
    (authority : Fields) → valid_authority authority ≡ true → IsAuthority authority
unfolding valid_authority
valid_authority-IsAuthority authority e = record {
  installation = is_positive_eq _ (ground (arith, e));
  group = elim (Bool-cases (is_text (get "kind" authority) "personal-repository")) [
    | inl personal ↦ inl (is_text_eq _ _ personal, ground (arith, e))
    | inr other ↦ inr (is_text_eq _ _ (ground (arith, e)), is_text_with_eq _ _ (ground (arith, e)))
  ];
}
