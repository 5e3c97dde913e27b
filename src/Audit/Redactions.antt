-- ===== src/Audit/Redactions.antt =====
-- What redaction leaves.
use self_hosted_ci.Prelude.{
  ◌≡◌, refl, String, Bool, true, false, not, ◌&&◌, ◌||◌, ◌==◌, string_eq, arith,
}
use self_hosted_ci.Json.{Json, text, arr, obj, Items, nil, cons, Fields, end, field}
use self_hosted_ci.Audit.{Services, redact, redact_items, redact_fields}

-- Every text is clean, and a secret key has the text of a redaction.
abbrev is_redaction : Json → Bool
is_redaction (text s) = s == "[REDACTED]"
is_redaction _ = false

mutual
  pub no_secrets : (String → Bool) → Services → Json → Bool
  no_secrets clean v (text s) = clean s
  no_secrets clean v (arr xs) = no_secrets_items clean v xs
  no_secrets clean v (obj fs) = no_secrets_fields clean v fs
  no_secrets clean v (Json.null) = true
  no_secrets clean v (Json.bool b) = true
  no_secrets clean v (Json.num n) = true

  pub no_secrets_items : (String → Bool) → Services → Items → Bool
  no_secrets_items clean v nil = true
  no_secrets_items clean v (cons x xs) = no_secrets clean v x && no_secrets_items clean v xs

  pub no_secrets_fields : (String → Bool) → Services → Fields → Bool
  no_secrets_fields clean v end = true
  no_secrets_fields clean v (field k x fs) =
      no_secrets clean v x
      && (not (v.is_secret_key k) || is_redaction x)
      && no_secrets_fields clean v fs

module _ (clean : String → Bool) (v : Services) (masked : (s : String) → clean (v.mask s) ≡ true)
    (plain : clean "[REDACTED]" ≡ true) where
  mutual
    unfolding no_secrets redact

    redacts : (x : Json) → no_secrets clean v (redact v x) ≡ true
    redacts (text s) = masked s
    redacts (arr xs) = redact_items-no_secrets xs
    redacts (obj fs) = redact_fields-no_secrets fs
    redacts (Json.null) = refl
    redacts (Json.bool b) = refl
    redacts (Json.num n) = refl

    redact_items-no_secrets : (xs : Items) → no_secrets_items clean v (redact_items v xs) ≡ true
    redact_items-no_secrets nil = refl
    redact_items-no_secrets (cons x xs) = ground (arith, redacts x, redact_items-no_secrets xs)

    redact_fields-no_secrets : (fs : Fields) → no_secrets_fields clean v (redact_fields v fs) ≡ true
    redact_fields-no_secrets end = refl
    redact_fields-no_secrets (field k x fs) =
        ground (arith, plain, redacts x, redact_fields-no_secrets fs)

-- In what `redact` returns, at whatever depth, every text is clean and every secret key has the
-- redaction's text, where what `mask` returns is clean and so is the redaction's text.
pub redact-no_secrets :
    (clean : String → Bool) (v : Services)
    → ((s : String) → clean (v.mask s) ≡ true)
    → clean "[REDACTED]" ≡ true
    → (x : Json) → no_secrets clean v (redact v x) ≡ true
redact-no_secrets clean v masked plain = redacts clean v masked plain
