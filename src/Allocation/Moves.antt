-- ===== src/Allocation/Moves.antt =====
-- Every other call of the ledger is a step of each allocation's life too.
use self_hosted_ci.Allocation.Reading.{validate_reservation-Related, verify-Related}
use self_hosted_ci.Prelude.{
  Option-cases, ℕ, ◌≡◌, refl, subst, ◌∙◌, String, Bool, true, ◌&&◌, Option, none, some, ◌==◌,
  if◌then◌else◌, lookup, update, nat_eq, string_eq, arith, inl, inr,
}
use self_hosted_ci.Json.{Fields}
use self_hosted_ci.Effects.{raise, pure, modify, ◌>>=◌}
use self_hosted_ci.Effects.Related.{
  Related-gets, Related-or_raise, Related, related_rules, Related-pure, Related-bind,
}
use self_hosted_ci.Effects.Found.{
  Finds-any, Finds, Finds-raise_if, Finds-raise_unless, Finds-pure, Finds-gets, Finds-or_raise,
  Finds-if, after,
}
use self_hosted_ci.Allocation.{other, jit_error, Failure, Services}
use self_hosted_ci.Allocation.Rows.{is_value, AllocationRow, row_key, Ledger, is_reserved}
use self_hosted_ci.Allocation.Admission.{
  id_of, stored_object, insert_row, insert_fresh, digests, admit, reserve, finalize, finalized,
  bind_scale_set, issued_row, reserved_row,
}
use self_hosted_ci.Allocation.Lives.{Life, life_of, absent, ◌⟶◌, ◌⟶*◌, here, step}
use self_hosted_ci.Allocation.Lives
use self_hosted_ci.Allocation.Updates.{Step-update, Step-insert}
use self_hosted_ci.Allocation.Steps.{is_valid_row, Allowed, Moves, Moves-IsPreorder}

insert_row-Moves :
    (row : AllocationRow)
    → is_valid_row row ≡ true
    → absent ⟶* life_of row
    → Related Moves (insert_row row)
unfolding insert_row modify
insert_row-Moves row v new = record {
  at = λ s. after Moves _ _ (Finds-gets _) λ taken is.
      after Moves _ _ (Finds-raise_if _ _)
        λ _ free. Step-insert row s.allocations v new (is ∙ free);
}

insert_fresh-Moves :
    (row : AllocationRow)
    → is_valid_row row ≡ true
    → absent ⟶* life_of row
    → Related Moves (insert_fresh row)
unfolding insert_fresh
insert_fresh-Moves row v new =
    Related-bind _ _ (search related_rules)
      λ taken. Related-bind _ _ (search related_rules) λ _. insert_row-Moves row v new

-- the answer for what is there already
same_content :
    (b : Bool) (answer : String)
    → Related Moves (if b then pure {E = Failure} {S = Ledger} answer else raise jit_error)
same_content b answer = search related_rules

stored_object-Finds :
    {s : Ledger} (sv : Services) (o : Option String) → Finds s (λ v. Unit {0}) (stored_object sv o)
unfolding stored_object
stored_object-Finds sv none = Finds-pure _ tt
stored_object-Finds sv (some t) =
    Finds-if (t == "") _ _ (λ _. Finds-pure _ tt)
      λ _. Finds-any _ (Finds-or_raise (sv.loads t) other)

digests-Related : (sv : Services) (fields : Fields) → Related Moves (digests sv fields)
unfolding digests
digests-Related sv fields = search related_rules

-- an update of the row that was found, and an answer
answers :
    (s : Ledger) (id answer : String) (f : AllocationRow → AllocationRow) (r : AllocationRow)
    → ((q : AllocationRow)
        → (f q).allocation_id ≡ q.allocation_id × ((f q).binding_digest ≡ q.binding_digest))
    → lookup row_key id s.allocations ≡ some r
    → (is_valid_row r ≡ true → Allowed r (f r))
    → Moves s
        ((modify {E = Failure}
              (λ (t : Ledger). record t { allocations = update row_key id f t.allocations })
            >>= λ _. pure answer)
          s).1
unfolding ◌>>=◌
answers s id answer f r keeps e h = Step-update id f keeps s.allocations r e h

pub bind_scale_set-Moves :
    (id scale_set_id name : String) → Related Moves (bind_scale_set id scale_set_id name)
unfolding bind_scale_set
bind_scale_set-Moves id scale_set_id name = record {
  at = λ s. after Moves _ _ (Finds-raise_unless _ _) λ _ _.
      after Moves _ _ (Finds-gets _) λ found here. after Moves _ _ (Finds-or_raise _ _) λ row is.
        after Moves _ _ (Finds-raise_unless _ _) λ _ _. elim (Option-cases row.garm_scale_set_id) [
          | inl free ↦ rw free (
              answers s id "bound" (λ r. record r { garm_scale_set_id = some scale_set_id }) row
                (λ q. (refl, refl)) (here ∙ is)
                λ v. record { valid = v; later = ground arith; lives = Lives.here })
          | inr (k, known) ↦ rw known ((same_content (k == scale_set_id) _).at s)
        ];
}

finalized-Allowed :
    (fields : Fields) (digest body : String) (r : AllocationRow)
    → r.payload_json ≡ none
    → is_reserved r.state ≡ true
    → is_valid_row r ≡ true
    → Allowed r (finalized fields digest body r)
finalized-Allowed fields digest body r new is v = record {
  valid = ground arith;
  later = ground arith;
  lives = subst (λ l. l ⟶* Lives.issued) (ground arith) (step Lives.finalize Lives.here);
}

pub finalize-Moves :
    (sv : Services) (envelope : Fields) (pinned : String) (now : ℕ)
    → Related Moves (finalize sv envelope pinned now)
unfolding finalize
finalize-Moves sv envelope pinned now =
    Related-bind _ _ (verify-Related sv envelope pinned now) λ fields.
      Related-bind _ _ (Related-or_raise _ _) λ body. record {
        at = λ s. after Moves _ _ (Finds-gets _) λ found here.
            after Moves _ _ (Finds-or_raise _ _) λ row is. elim (Option-cases row.payload_json) [
              | inl new ↦ rw new (
                  after Moves _ _ (stored_object-Finds sv row.reservation_json) λ known _.
                    after Moves _ _ (Finds-raise_unless _ _) λ _ is_new.
                      answers s (id_of fields) "issued" (finalized fields (sv.sha256 body) body) row
                        (λ q. (refl, refl)) (here ∙ is)
                        λ v. finalized-Allowed fields _ body row new (ground arith) v)
              | inr (k, known) ↦ rw known ((same_content (k == body) _).at s)
            ];
      }

pub admit-Moves :
    (sv : Services) (envelope : Fields) (pinned : String) (now : ℕ)
    → Related Moves (admit sv envelope pinned now)
unfolding admit
admit-Moves sv envelope pinned now =
    Related-bind _ _ (verify-Related sv envelope pinned now) λ fields.
      Related-bind _ _ (digests-Related sv fields) λ d. Related-bind _ _ (Related-gets _) λ row.
        elim (Option-cases row) [
          | inl new ↦ rw new (
              Related-bind _ _ (Related-or_raise _ _) λ body.
                Related-bind _ _
                  (insert_fresh-Moves (issued_row fields d body) refl (step Lives.admit Lives.here))
                  λ _. Related-pure _)
          | inr (r, known) ↦
              rw known
                (same_content (r.binding_digest == d.binding && r.payload_digest == d.body) _)
        ]

pub reserve-Moves :
    (sv : Services) (fields : Fields) (now : ℕ) → Related Moves (reserve sv fields now)
unfolding reserve
reserve-Moves sv fields now = Related-bind _ _ (validate_reservation-Related sv fields now) λ _.
    Related-bind _ _ (digests-Related sv fields) λ d.
      Related-bind _ _ (Related-or_raise _ _) λ body. Related-bind _ _ (Related-gets _) λ row.
        elim (Option-cases row) [
          | inl new ↦ rw new (
              Related-bind _ _
                (insert_fresh-Moves (reserved_row fields d body) refl
                  (step Lives.reserve Lives.here))
                λ _. Related-pure _)
          | inr (r, known) ↦
              rw known
                (same_content (r.binding_digest == d.binding && is_value r.reservation_json body) _)
        ]
