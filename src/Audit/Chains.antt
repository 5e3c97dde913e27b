-- ===== src/Audit/Chains.antt =====
-- The chain of digests: an exported log is imported as it was, and its last digest determines it.
use self_hosted_ci.Prelude.{
  suc, ◌≡◌, refl, subst, ◌∙◌, String, true, ◌||◌, Option, none, some, List, [], ◌∷◌, ◌++◌, length,
  ◌==◌, nat_eq, string_eq, arith, eq_iff, inl, inr, Bool-cases, Option-cases,
}
use self_hosted_ci.Json.{Fields, get, is_num}
use self_hosted_ci.Audit.{
  Services, AuditRecord, Log, payload, last_digest, seal, new_record, append, same_digest, read,
  append_imported, import_all, as_fields, export, Entry, appended, imported, add, record_all,
}

-- each record follows the one before it, and its digest is that of its payload
abbrev pub IsChain : Services → Log → Type 0
IsChain v [] = Unit
IsChain v (r ∷ log) =
    (is_num (some r.sequence) (suc (length log)) ≡ true)
    × (same_digest r.previous_digest (last_digest log) ≡ true)
    × (r.digest ≡ v.digest_of (payload r))
    × IsChain v log

same_digest-last : (log : Log) → same_digest (last_digest log) (last_digest log) ≡ true
same_digest-last [] = refl
same_digest-last (r ∷ log) = (eq_iff r.digest r.digest).1 refl

some_injective : {x y : Log} → some x ≡ some y → x ≡ y
some_injective e = ground (arith, e)

append-IsChain :
    (v : Services) (event subject : String) (details : Fields) (stamp : Option String)
    (log next : Log)
    → IsChain v log
    → append v event subject details stamp log ≡ some next
    → IsChain v next
unfolding append
append-IsChain v event subject details stamp log next h e =
    elim (Bool-cases (event == "" || subject == "")) [
      | inl missing ↦ absurd (ground arith)
      | inr given ↦ elim (Option-cases stamp) [
        | inl naive ↦ absurd (ground arith)
        | inr (at, aware) ↦
            let is_next : some (new_record v event subject details at log ∷ log) ≡ some next =
              ground (arith, e) in
            subst (IsChain v) (some_injective is_next) (ground arith, same_digest-last log, refl, h)
      ]
    ]

append_imported-IsChain :
    (v : Services) (raw : Fields) (log next : Log)
    → IsChain v log
    → append_imported v raw log ≡ some next
    → IsChain v next
unfolding append_imported
append_imported-IsChain v raw log next h e =
    let r = seal v (read raw) in
    let is_next : some (r ∷ log) ≡ some next = ground (arith, e) in
    subst (IsChain v) (some_injective is_next) (ground arith, ground arith, refl, h)

add-IsChain :
    (v : Services) (entry : Entry) (log next : Log)
    → IsChain v log
    → add v entry log ≡ some next
    → IsChain v next
add-IsChain v (appended event subject details stamp) log next =
    append-IsChain v event subject details stamp log next
add-IsChain v (imported raw) log next = append_imported-IsChain v raw log next

pub record_all-IsChain :
    (v : Services) (es : List Entry) (log : Log) → IsChain v log → IsChain v (record_all v es log)
unfolding record_all
record_all-IsChain v [] log h = h
record_all-IsChain v (e ∷ es) log h =
    record_all-IsChain v es _ (kept (add v e log) (λ next. add-IsChain v e log next h))
  where
    kept :
        (o : Option Log)
        → ((next : Log) → o ≡ some next → IsChain v next)
        → IsChain v (elim o [ none ↦ log | some next ↦ next ])
    kept none k = h
    kept (some next) k = k next refl

import_all-snoc :
    (v : Services) (raws : List Fields) (raw : Fields) (log next : Log)
    → import_all v raws log ≡ some next
    → import_all v (raws ++ (raw ∷ [])) log ≡ append_imported v raw next
unfolding import_all
import_all-snoc v [] raw log next e =
    let same = some_injective e in
    subst (λ l. import_all v (raw ∷ []) log ≡ append_imported v raw l) same
      (alone (append_imported v raw log))
  where
    alone : (o : Option Log) → elim o [ none ↦ none | some next ↦ some next ] ≡ o
    alone none = refl
    alone (some l) = refl
import_all-snoc v (first ∷ raws) raw log next e =
    elim (Option-cases (append_imported v first log)) [
      | inl refused ↦ absurd (ground arith)
      | inr (middle, taken) ↦ ground (arith, import_all-snoc v raws raw middle next)
    ]

-- a record of a chain is taken again
append_imported-as_fields :
    (v : Services) (r : AuditRecord) (log : Log)
    → IsChain v (r ∷ log)
    → append_imported v (as_fields r) log ≡ some (r ∷ log)
unfolding append_imported get
append_imported-as_fields v r log h = ground (arith, h.0, h.1, h.2, eq_iff r.digest r.digest)

import_all-export :
    (v : Services) (log : Log) → IsChain v log → import_all v (export log) [] ≡ some log
unfolding export import_all
import_all-export v [] h = refl
import_all-export v (r ∷ log) h =
    import_all-snoc v (export log) (as_fields r) [] log (import_all-export v log h.3)
    ∙ append_imported-as_fields v r log h

-- A log that has taken any appended and imported records exports records that a new log imports, as the
-- same log.
pub export-import_all :
    (v : Services) (es : List Entry)
    → import_all v (export (record_all v es [])) [] ≡ some (record_all v es [])
export-import_all v es = import_all-export v (record_all v es []) (record_all-IsChain v es [] tt)
