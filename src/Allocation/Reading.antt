-- ===== src/Allocation/Reading.antt =====
-- What reads an allocation, or a row of the ledger, changes nothing, whatever it answers.
use self_hosted_ci.Prelude.{ℕ, String, Option, none, some}
use self_hosted_ci.Json.{Json, Fields, text}
use self_hosted_ci.Effects.Related.{
  IsPreorder, Related, related_rules, Related-or_raise, Related-raise,
}
use self_hosted_ci.Allocation.{Services}
use self_hosted_ci.Allocation.Rows.{Ledger}
use self_hosted_ci.Allocation.Admission as Admission
use self_hosted_ci.Allocation.Lifecycle.{read_times, get_record}
use self_hosted_ci.Allocation.Payload.{
  allocation_scale_set_name, read_time, read_deadline, validate_allocation_payload,
  validate_synthetic, validate_allocation_reservation, verify_allocation, synthetic,
}

module _ {S : Type 0} {R : S → S → Type 0} ⦃o : IsPreorder R⦄ where
  read_time-Related : (sv : Services) (v : Option Json) → Related R (read_time {S = S} sv v)
  unfolding read_time
  read_time-Related sv none = Related-raise _
  read_time-Related sv (some (text s)) = Related-or_raise _ _
  read_time-Related sv (some (Json.null)) = Related-raise _
  read_time-Related sv (some (Json.bool b)) = Related-raise _
  read_time-Related sv (some (Json.num n)) = Related-raise _
  read_time-Related sv (some (Json.arr xs)) = Related-raise _
  read_time-Related sv (some (Json.obj fs)) = Related-raise _

  read_deadline-Related :
      (sv : Services) (fields : Fields) (issued : ℕ)
      → Related R (read_deadline {S = S} sv fields issued)
  unfolding read_deadline
  read_deadline-Related sv fields issued = search (related_rules, read_time-Related) depth 12

  scale_set_name-Related :
      (sv : Services) (fields : Fields) → Related R (allocation_scale_set_name {S = S} sv fields)
  unfolding allocation_scale_set_name
  scale_set_name-Related sv fields = search related_rules

  pub validate_payload-Related :
      (sv : Services) (fields : Fields) (now : ℕ)
      → Related R (validate_allocation_payload {S = S} sv fields now)
  unfolding validate_allocation_payload
  validate_payload-Related sv fields now =
      search (related_rules, read_time-Related, read_deadline-Related, scale_set_name-Related) depth
        14

  validate_synthetic-Related :
      (sv : Services) (fields : Fields) (now : ℕ)
      → Related R (validate_synthetic {S = S} sv fields now)
  unfolding validate_synthetic
  validate_synthetic-Related sv fields now = record {
    at = (validate_payload-Related sv (synthetic fields) now).at;
  }

  pub validate_reservation-Related :
      (sv : Services) (fields : Fields) (now : ℕ)
      → Related R (validate_allocation_reservation {S = S} sv fields now)
  unfolding validate_allocation_reservation
  validate_reservation-Related sv fields now =
      search (related_rules, validate_synthetic-Related) depth 12

  pub verify-Related :
      (sv : Services) (envelope : Fields) (pinned : String) (now : ℕ)
      → Related R (verify_allocation {S = S} sv envelope pinned now)
  unfolding verify_allocation
  verify-Related sv envelope pinned now = search (related_rules, validate_payload-Related) depth 12

module _ {R : Ledger → Ledger → Type 0} ⦃o : IsPreorder R⦄ where
  read_object-Related : (sv : Services) (o : Option String) → Related R (Admission.read_object sv o)
  unfolding Admission.read_object
  read_object-Related sv none = Related-raise _
  read_object-Related sv (some s) = search related_rules

  pub payload-Related : (sv : Services) (id : String) → Related R (Admission.payload sv id)
  unfolding Admission.payload
  payload-Related sv id = search (related_rules, read_object-Related)

  pub reservation-Related : (sv : Services) (id : String) → Related R (Admission.reservation sv id)
  unfolding Admission.reservation
  reservation-Related sv id = search (related_rules, read_object-Related)

  pub scale_set_binding-Related : (id : String) → Related R (Admission.scale_set_binding id)
  unfolding Admission.scale_set_binding
  scale_set_binding-Related id = search related_rules

  pub ids-Related : Related R Admission.recoverable_allocation_ids
  unfolding Admission.recoverable_allocation_ids
  ids-Related = search related_rules

  pub get_record-Related : (sv : Services) (id : String) → Related R (get_record sv id)
  unfolding get_record read_times
  get_record-Related sv id = search related_rules depth 12
