-- ===== src/Audit.antt =====
-- github_automation/observability.py: redaction, and the hash-chained audit log. The regular
-- expressions, `json.dumps` and `hashlib.sha256` are services of the model.
pub mod Chains
pub mod Tampering
pub mod Redactions
mod Tests
use self_hosted_ci.Prelude.{
  ℕ, suc, zero, ◌+◌, String, Bool, true, false, not, ◌&&◌, ◌||◌, Option, none, some, List, [], ◌∷◌,
  ◌++◌, length, ◌==◌, if◌then◌else◌, nat_eq, string_eq,
}
use self_hosted_ci.Json.{
  Json, null, num, text, arr, obj, Items, nil, cons, Fields, end, field, get, is_num, is_text,
  or_null,
}

-- `_SECRET_KEY.search`, `_SECRET_VALUE.sub(REDACTED, …)`, and the digest of `canonical_json`
pub record Services : Type 0 where
  pub is_secret_key : String → Bool
  pub mask : String → String
  pub digest_of : Fields → String

abbrev pub redacted : Json
redacted = text "[REDACTED]"

-- `redact`; an object's keys are texts
unfoldable mutual
  pub redact : Services → Json → Json
  redact v (text s) = text (v.mask s)
  redact v (arr xs) = arr (redact_items v xs)
  redact v (obj fs) = obj (redact_fields v fs)
  redact v (Json.null) = null
  redact v (Json.bool b) = Json.bool b
  redact v (Json.num n) = num n

  pub redact_items : Services → Items → Items
  redact_items v nil = nil
  redact_items v (cons x xs) = cons (redact v x) (redact_items v xs)

  pub redact_fields : Services → Fields → Fields
  redact_fields v end = end
  redact_fields v (field k x fs) =
      field k (if v.is_secret_key k then redacted else redact v x) (redact_fields v fs)

-- An imported record holds what the import finds, of whatever type.
pub record AuditRecord : Type 0 where
  pub sequence : Json
  pub occurred_at : Json
  pub event : Json
  pub subject : Json
  pub details : Json
  pub previous_digest : Json
  pub digest : String

-- the records, the newest first
abbrev pub Log : Type 0
Log = List AuditRecord

abbrev pub payload : AuditRecord → Fields
payload r = field "sequence" r.sequence (
    field "occurred_at" r.occurred_at (
      field "event" r.event (
        field "subject" r.subject
          (field "details" r.details (field "previous_digest" r.previous_digest end)))))

abbrev pub last_digest : Log → Json
last_digest [] = null
last_digest (r ∷ log) = text r.digest

abbrev pub seal : Services → AuditRecord → AuditRecord
seal v r = record r { digest = v.digest_of (payload r) }

-- the record that `append` makes
abbrev pub new_record : Services → String → String → Fields → String → Log → AuditRecord
new_record v event subject details at log = seal v (record {
  sequence = num (suc (length log));
  occurred_at = text at;
  event = text event;
  subject = text subject;
  details = redact v (obj details);
  previous_digest = last_digest log;
  digest = "";
})

-- `append`; `stamp` is the formatted time, and `none` that of a time with no zone
unfoldable pub append : Services → String → String → Fields → Option String → Log → Option Log
append v event subject details stamp log =
    if event == "" || subject == "" then none else elim stamp [
      | none ↦ none
      | some at ↦ some (new_record v event subject details at log ∷ log)
    ]

-- `payload[k] != d`, for a digest `d` or none
abbrev same_digest : Json → Json → Bool
same_digest null null = true
same_digest (text s) (text t) = s == t
same_digest _ _ = false

abbrev pub read : Fields → AuditRecord
read raw = record {
  sequence = or_null (get "sequence" raw);
  occurred_at = or_null (get "occurred_at" raw);
  event = or_null (get "event" raw);
  subject = or_null (get "subject" raw);
  details = or_null (get "details" raw);
  previous_digest = or_null (get "previous_digest" raw);
  digest = "";
}

-- `_append_imported`
unfoldable pub append_imported : Services → Fields → Log → Option Log
append_imported v raw log =
    let r = seal v (read raw) in
    if not (is_num (some r.sequence) (suc (length log)))
      || not (same_digest r.previous_digest (last_digest log))
    then none
    else if not (is_text (get "digest" raw) r.digest)
    then none
    else some (r ∷ log)

-- `AppendOnlyAuditLog(records)`
unfoldable pub import_all : Services → List Fields → Log → Option Log
import_all v [] log = some log
import_all v (raw ∷ raws) log = elim (append_imported v raw log) [
  | none ↦ none
  | some next ↦ import_all v raws next
]

-- `asdict(record)`
abbrev pub as_fields : AuditRecord → Fields
as_fields r = field "sequence" r.sequence (
    field "occurred_at" r.occurred_at (
      field "event" r.event (
        field "subject" r.subject (
          field "details" r.details
            (field "previous_digest" r.previous_digest (field "digest" (text r.digest) end))))))

-- `as_dict()["records"]`, the oldest first
unfoldable pub export : Log → List Fields
export [] = []
export (r ∷ log) = export log ++ (as_fields r ∷ [])

pub data Entry : Type 0 where
  appended : String → String → Fields → Option String → Entry
  imported : Fields → Entry

abbrev pub add : Services → Entry → Log → Option Log
add v (appended event subject details stamp) log = append v event subject details stamp log
add v (imported raw) log = append_imported v raw log

-- a log that has taken these entries; an exception leaves the log as it is
unfoldable pub record_all : Services → List Entry → Log → Log
record_all v [] log = log
record_all v (e ∷ es) log = record_all v es (elim (add v e log) [ none ↦ log | some next ↦ next ])
