-- ===== src/CheckDelivery.antt =====
-- github_automation/check_delivery.py: delivery of one Check Run with read-back after an ambiguous write.
pub mod Transport
pub mod Deliveries
mod Tests
use self_hosted_ci.Prelude.{
  subst, ℕ, ◌≡◌, refl, String, Bool, true, false, not, ◌&&◌, ◌||◌, Option, none, some, arith,
  eq_iff, ◌==◌, if◌then◌else◌, string_eq, nat_eq, ltb,
}
use self_hosted_ci.Json.{
  Json, Fields, Items, null, bool, num, text, arr, obj, nil, cons, end, field, get, is_text, is_num,
}
use Prim.Native.String.{◌++◌ as append}

pub record CheckDelivery : Type 0 where
  pub check_run_id : ℕ
  pub evidence_digest : String
  pub conclusion : String
  pub target_sha : String

-- `CheckDelivery.marker`
abbrev pub marker : CheckDelivery → String
marker d = append "github-automation-evidence:" d.evidence_digest

-- `AmbiguousCheckWrite` is raised again; `transport` is what else the transport raises.
pub data DeliveryError : Type 0 where
  delivery_error evidence_conflict ambiguous_write transport : DeliveryError

pub data Outcome (A : Type 0) : Type 0 where
  ok : A → Outcome A
  err : DeliveryError → Outcome A

-- `CheckTransport` on states of type `S`: a PATCH and a read of one exact Check Run
pub record CheckTransport (S : Type 0) : Type 0 where
  pub patch_exact : S → ℕ → Fields → Outcome (Unit {0}) × S
  pub get_exact : S → ℕ → Outcome Fields × S

pub data Delivered : Type 0 where
  delivered reconciled : Delivered

-- a value that `if` takes for true
abbrev pub is_truthy : Option Json → Bool
is_truthy none = false
is_truthy (some null) = false
is_truthy (some (bool b)) = b
is_truthy (some (num n)) = ltb 0 n
is_truthy (some (text s)) = not (s == "")
is_truthy (some (arr nil)) = false
is_truthy (some (arr (cons x xs))) = true
is_truthy (some (obj end)) = false
is_truthy (some (obj (field k v fs))) = true

abbrev pub check_payload : CheckDelivery → Fields
check_payload d =
    field "conclusion" (text d.conclusion)
      (field "head_sha" (text d.target_sha) (field "external_id" (text (marker d)) end))

-- what the handler concludes from the Check Run that it reads back
unfoldable pub read_back : CheckDelivery → Fields → Outcome Delivered
read_back d observed =
    if not (is_num (get "id" observed) d.check_run_id)
    then err delivery_error
    else if is_text (get "external_id" observed) (marker d)
    then (if not (is_text (get "head_sha" observed) d.target_sha)
          || not (is_text (get "conclusion" observed) d.conclusion)
        then err evidence_conflict
        else ok reconciled)
    else if is_truthy (get "external_id" observed)
    then err evidence_conflict
    else err ambiguous_write

module _ {S : Type 0} (t : CheckTransport S) (d : CheckDelivery) where
  abbrev reread : Outcome Fields × S → Outcome Delivered × S
  reread (ok observed, s) = (read_back d observed, s)
  reread (err e, s) = (err e, s)

  abbrev pub after_patch : Outcome (Unit {0}) × S → Outcome Delivered × S
  after_patch (ok _, s) = (ok delivered, s)
  after_patch (err ambiguous_write, s) = reread (t.get_exact s d.check_run_id)
  after_patch (err e, s) = (err e, s)

  unfoldable pub deliver_exact : S → Outcome Delivered × S
  deliver_exact s = after_patch (t.patch_exact s d.check_run_id (check_payload d))
