-- ===== src/Audit/Tests.antt =====
-- An audit log of an appended and an imported record.
use mathlib.Core.List.{Memᴰ}
use mathlib.Core.List.Memᴰ.{not-nil}
use self_hosted_ci.Prelude.{
  String, ◌≡◌, refl, sym, ap, ◌∙◌, Bool, true, some, List, [], ◌∷◌, length, ◌==◌, not,
  if◌then◌else◌, arith, Bool-cases, nat_eq, string_eq, inl, inr,
}
use self_hosted_ci.Json.{text, num, null, obj, Fields, end, field, get, is_num}
use self_hosted_ci.Audit.{
  Services, AuditRecord, Entry, appended, imported, payload, append, append_imported, import_all,
  export, record_all, redact,
}
use self_hosted_ci.Audit.Chains.{export-import_all}
use self_hosted_ci.Audit.Tampering.{last_digest-determines}
use self_hosted_ci.Audit.Redactions.{no_secrets, redact-no_secrets}

abbrev mask : String → String
mask s = if s == "ghp_0" then "[REDACTED]" else s

abbrev services : Services
services = record {
  is_secret_key = λ k. k == "token";
  mask = mask;
  digest_of = λ fields. if is_num (get "sequence" fields) 1 then "first" else "later";
}

abbrev entries : List Entry
entries =
    appended "start" "run" (field "token" (text "ghp_0") end) (some "12:00")
    ∷ appended "" "run" end (some "12:01")
    ∷ appended "end" "run" end (some "12:02")
    ∷ []

-- the second entry, with no event, is refused
two_records : length (record_all services entries []) ≡ 2
unfolding record_all append redact get
two_records = refl

export-import_all_example :
    import_all services (export (record_all services entries [])) []
    ≡ some (record_all services entries [])
export-import_all_example = export-import_all services entries

abbrev one : List Entry
one = appended "start" "run" (field "token" (text "ghp_0") end) (some "12:00") ∷ []

abbrev raw : Fields
raw = field "sequence" (num 1) (
    field "occurred_at" (text "12:00") (
      field "event" (text "start") (
        field "subject" (text "run") (
          field "details" (obj (field "token" (text "[REDACTED]") end))
            (field "digest" (text "first") end)))))

-- the same record, imported
abbrev same_one : List Entry
same_one = imported raw ∷ []

abbrev the_record : AuditRecord
the_record = record {
  sequence = num 1;
  occurred_at = text "12:00";
  event = text "start";
  subject = text "run";
  details = obj (field "token" (text "[REDACTED]") end);
  previous_digest = null;
  digest = "first";
}

only_one : (r : AuditRecord) → Memᴰ r (the_record ∷ []) → r ≡ the_record
only_one r (Memᴰ.head e) = e
only_one r (Memᴰ.tail m) = absurd (not-nil m)

last_digest-determines_example : record_all services one [] ≡ record_all services same_one []
unfolding record_all append append_imported redact get
last_digest-determines_example =
    last_digest-determines services one same_one
      (λ r s m n e. ap payload (only_one r m ∙ sym (only_one s n))) refl

abbrev is_clean : String → Bool
is_clean s = not (s == "ghp_0")

masked : (s : String) → is_clean (mask s) ≡ true
masked s = elim (Bool-cases (s == "ghp_0")) [
  | inl secret ↦ rw secret refl
  | inr plain ↦ ground arith
]

redact-no_secrets_example :
    no_secrets is_clean services (redact services (obj (field "subject" (text "ghp_0") end))) ≡ true
redact-no_secrets_example =
    redact-no_secrets is_clean services masked refl (obj (field "subject" (text "ghp_0") end))
