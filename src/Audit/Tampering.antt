-- ===== src/Audit/Tampering.antt =====
-- The last digest of a log determines the log.
use mathlib.Core.List.{Memᴰ}
use mathlib.Core.Path.{ap₂}
use self_hosted_ci.Prelude.{
  ◌≡◌, refl, sym, ap, ◌∙◌, true, List, [], ◌∷◌, nat_eq, string_eq, arith, eq_iff,
}
use self_hosted_ci.Json.{Json, null, text}
use self_hosted_ci.Audit.{
  Services, AuditRecord, Log, payload, last_digest, same_digest, Entry, record_all,
}
use self_hosted_ci.Audit.Chains.{IsChain, record_all-IsChain}

payload_injective : (r s : AuditRecord) → payload r ≡ payload s → r.digest ≡ s.digest → r ≡ s
payload_injective r s e d = ground (arith, e, d)

-- the previous digest that a record of a chain holds
previous : (p q : Json) → same_digest p q ≡ true → p ≡ q
previous null null e = refl
previous (text s) (text t) e = ap text ((eq_iff s t).0 e)
previous p q e = absurd (ground arith)

-- No two records of the logs have one digest and different payloads.
abbrev pub NoCollision : Services → Log → Log → Type 0
NoCollision v log log' =
    (r s : AuditRecord)
    → Memᴰ r log
    → Memᴰ s log'
    → v.digest_of (payload r) ≡ v.digest_of (payload s)
    → payload r ≡ payload s

chain_unique :
    (v : Services) (log log' : Log)
    → IsChain v log
    → IsChain v log'
    → NoCollision v log log'
    → last_digest log ≡ last_digest log'
    → log ≡ log'
chain_unique v [] [] h h' none_there e = refl
chain_unique v [] (s ∷ log') h h' none_there e = absurd (ground arith)
chain_unique v (r ∷ log) [] h h' none_there e = absurd (ground arith)
chain_unique v (r ∷ log) (s ∷ log') h h' none_there e =
    let digests : r.digest ≡ s.digest = ground (arith, e) in
    let payloads =
      none_there r s (Memᴰ.head refl) (Memᴰ.head refl) (ground (arith, digests, h.2, h'.2)) in
    let records = payload_injective r s payloads digests in
    let rest =
      chain_unique v log log' h.3 h'.3 (λ p q m m'. none_there p q (Memᴰ.tail m) (Memᴰ.tail m'))
        (sym (previous r.previous_digest (last_digest log) h.1)
          ∙ ap (λ p. p.previous_digest) records
          ∙ previous s.previous_digest (last_digest log') h'.1) in
    ap₂ (λ p ps. p ∷ ps) records rest

-- Two logs, each made of any entries, that have the same last digest are the same log, unless two of
-- their records have one digest and different payloads.
pub last_digest-determines :
    (v : Services) (es es' : List Entry)
    → NoCollision v (record_all v es []) (record_all v es' [])
    → last_digest (record_all v es []) ≡ last_digest (record_all v es' [])
    → record_all v es [] ≡ record_all v es' []
last_digest-determines v es es' =
    chain_unique v (record_all v es []) (record_all v es' []) (record_all-IsChain v es [] tt)
      (record_all-IsChain v es' [] tt)
