-- ===== src/Coordinator/Races.antt =====
-- Which package a call of `outbound_local_dispatch` may send, and why.
use self_hosted_ci.Prelude.{ℕ, ◌≡◌, true, none, some, List, ◌⊎◌}
use self_hosted_ci.Json.{Fields, text, get, same_text, count}
use self_hosted_ci.Coordinator.Adapters.{
  Failure, reserve_unavailable, reserve_partial, unavailable, protocol_failure, unbound_local,
  other, Outcome, ok, err, Adapters,
}
use self_hosted_ci.Coordinator.Packages.{Resume, local_draft, in_phase, hosted_value}
use self_hosted_ci.Coordinator.Record.{IsRecord}

-- why a hosted run is dispatched, by what the reservation returned
abbrev pub Excused : {S : Type 0} → Adapters S → Fields → Outcome Fields × S → Type 0
Excused w reservation (ok held, s) = ⊥
Excused w reservation (err reserve_unavailable, s) = Unit
Excused {S = S} w reservation (err (reserve_partial id), s) =
    (get "allocation_id" reservation ≡ some (text id))
    × (recovered : Fields) × (t : S) × (w.recover id s ≡ (ok recovered, t))
    × (count recovered ≡ 2)
    × (get "allocation_id" recovered ≡ some (text id))
    × (get "state" recovered ≡ some (text "absent"))
Excused w reservation (err unavailable, s) = ⊥
Excused w reservation (err protocol_failure, s) = ⊥
Excused w reservation (err unbound_local, s) = ⊥
Excused w reservation (err other, s) = ⊥

module _ {S : Type 0} (w : Adapters S) (request reservation : Fields) where
  -- the package is the local one of a reservation that is held for the exact allocation
  abbrev pub IsLocal : Fields → Type 0
  IsLocal v =
      (held : Fields) × (w.from_mapping (local_draft request reservation held) ≡ some v)
      × (get "state" held ≡ some (text "reserved-disabled"))
      × (same_text (get "allocation_id" held) (get "allocation_id" reservation) ≡ true)

  abbrev pub IsHosted : Fields → Type 0
  IsHosted v = w.from_mapping (hosted_value request) ≡ some v

  -- the package that a dispatch from the state `s` may send
  abbrev pub May : Resume → S → Fields → Type 0
  May resume s v =
      IsLocal v
      ⊎ (IsHosted v
          × ((resume.reserved ≡ none) ⊎ (in_phase resume "recovered" ≡ true))
          × Excused w reservation (w.reserve reservation s))

module _ {S : Type 0} (w : Adapters S) (sent : S → List Fields) (is : IsRecord w sent)
    (request reservation : Fields) where
  -- the package of a fallback from the failure `e`
  abbrev Falls : Failure → S → Fields → Type 0
  Falls e s v = IsHosted w request reservation v × Excused w reservation (err e, s)

  module _ (resume : Resume) (now claim_ttl : ℕ) (s : S) where
    abbrev Asks : Type 0
    Asks = (resume.reserved ≡ none) ⊎ (in_phase resume "recovered" ≡ true)
