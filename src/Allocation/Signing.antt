-- ===== src/Allocation/Signing.antt =====
-- What the signer makes, the ledger admits; and the times that it admits.
use self_hosted_ci.Prelude.{
  false, subst, ◌⊎◌, inl, inr, ℕ, ◌+◌, ◌*◌, ◌≡◌, ◌≤◌, ◌<◌, refl, String, true, Option, none, some,
  eq_iff, arith, string_eq, nat_eq,
}
use self_hosted_ci.Json.{Json, obj, text, Fields, end, field, get, is_num}
use self_hosted_ci.Texts.{is_digest}
use self_hosted_ci.Effects.{Outcome, ok, ◌>>=◌, pure}
use self_hosted_ci.Effects.Found.{
  Finds-self, Finds-raise, Finds, Finds-raise_if, Finds-raise_unless, Finds-or_raise, Finds-pure,
  Finds-bind, Finds-if, returning,
}
use self_hosted_ci.Allocation.{Failure, Services}
use self_hosted_ci.Allocation.Formats.{parse_time}
use self_hosted_ci.Allocation.Payload.{
  read_time, read_deadline, allocation_scale_set_name, validate_allocation_payload, sign_allocation,
  verify_allocation, version_of, as_object,
}

-- The field is a text, and its time is `t`.
abbrev pub Tells : Services → Option Json → ℕ → Type 0
Tells sv none t = ⊥
Tells sv (some (text s)) t = parse_time sv.from_isoformat s ≡ some t
Tells sv (some (Json.null)) t = ⊥
Tells sv (some (Json.bool b)) t = ⊥
Tells sv (some (Json.num n)) t = ⊥
Tells sv (some (Json.arr xs)) t = ⊥
Tells sv (some (obj fs)) t = ⊥

-- The deadline by which a payload may be claimed, which lasts 5 minutes in the first version and 15 in the
-- second.
abbrev pub IsDeadline : Services → Fields → ℕ → ℕ → Type 0
IsDeadline sv payload issued deadline =
    ((is_num (get "runner_allocation_version" payload) 1 ≡ true)
      × Tells sv (get "expires_at" payload) deadline
      × (issued < deadline)
      × (deadline ≤ issued + 5 * 60000000))
    ⊎ ((is_num (get "runner_allocation_version" payload) 1 ≡ false)
        × Tells sv (get "claim_deadline" payload) deadline
        × (issued < deadline)
        × (deadline ≤ issued + 15 * 60000000))

-- the times of a payload that is valid at `now`
abbrev pub IsTimely : Services → Fields → ℕ → Type 0
IsTimely sv payload now =
    (issued : ℕ) × (deadline : ℕ) × Tells sv (get "issued_at" payload) issued
    × IsDeadline sv payload issued deadline
    × (issued ≤ now + 30 * 1000000)
    × (now < deadline)

as_object-eq : (o : Option Json) (fs : Fields) → as_object o ≡ some fs → o ≡ some (obj fs)
as_object-eq none fs h = absurd (ground arith)
as_object-eq (some (Json.null)) fs h = absurd (ground arith)
as_object-eq (some (Json.bool b)) fs h = absurd (ground arith)
as_object-eq (some (Json.num n)) fs h = absurd (ground arith)
as_object-eq (some (text s)) fs h = absurd (ground arith)
as_object-eq (some (Json.arr xs)) fs h = absurd (ground arith)
as_object-eq (some (obj gs)) fs h = ground arith

module _ {S : Type 0} {s : S} where
  read_time-Finds :
      (sv : Services) (v : Option Json) → Finds s (Tells sv v) (read_time {S = S} sv v)
  unfolding read_time
  read_time-Finds sv none = Finds-raise _
  read_time-Finds sv (some (text t)) = Finds-or_raise _ _
  read_time-Finds sv (some (Json.null)) = Finds-raise _
  read_time-Finds sv (some (Json.bool b)) = Finds-raise _
  read_time-Finds sv (some (Json.num n)) = Finds-raise _
  read_time-Finds sv (some (Json.arr xs)) = Finds-raise _
  read_time-Finds sv (some (obj fs)) = Finds-raise _

  read_deadline-Finds :
      (sv : Services) (fields : Fields) (issued : ℕ)
      → Finds s (IsDeadline sv fields issued) (read_deadline {S = S} sv fields issued)
  unfolding read_deadline
  read_deadline-Finds sv fields issued =
      Finds-if (is_num (get "runner_allocation_version" fields) 1) _ _
        (λ first. Finds-bind _ _ (read_time-Finds sv _) λ deadline tells.
          Finds-bind _ _ (Finds-raise_unless _ _)
            λ _ h. Finds-pure _ (inl (first, tells, ground arith, ground arith)))
        (λ later. Finds-bind _ _ (read_time-Finds sv _) λ approval_issued _.
          Finds-bind _ _ (read_time-Finds sv _) λ approval_expires _.
            Finds-bind _ _ (Finds-raise_unless _ _) λ _ _.
              Finds-bind _ _ (read_time-Finds sv _) λ deadline tells.
                Finds-bind _ _ (Finds-raise_unless _ _)
                  λ _ h. Finds-pure _ (inr (later, tells, ground arith, ground arith)))

  scale_set_name-Finds :
      (sv : Services) (fields : Fields)
      → Finds s (λ name. Unit {0}) (allocation_scale_set_name {S = S} sv fields)
  unfolding allocation_scale_set_name
  scale_set_name-Finds sv fields = Finds-bind _ _ (Finds-raise_unless _ _) λ _ _.
      Finds-bind _ _ (Finds-raise_unless _ _)
        λ _ _. Finds-bind _ _ (Finds-or_raise _ _) λ _ _. Finds-pure _ tt

  validate-Finds :
      (sv : Services) (fields : Fields) (now : ℕ)
      → Finds s (λ u. IsTimely sv fields now) (validate_allocation_payload {S = S} sv fields now)
  unfolding validate_allocation_payload
  validate-Finds sv fields now = Finds-bind _ _ (Finds-raise_if _ _) λ _ _.
      Finds-bind _ _ (Finds-raise_unless _ _) λ _ _. Finds-bind _ _ (Finds-raise_unless _ _) λ _ _.
        Finds-bind _ _ (Finds-raise_unless _ _) λ _ _.
          Finds-bind _ _ (scale_set_name-Finds sv fields) λ name _.
            Finds-bind _ _ (Finds-raise_unless _ _) λ _ _.
              Finds-bind _ _ (read_time-Finds sv _) λ issued tells.
                Finds-bind _ _ (read_deadline-Finds sv fields issued) λ deadline h.
                  Finds-bind _ _ (Finds-raise_if _ _) λ _ now_in.
                    Finds-bind _ _ (Finds-or_raise _ _)
                      λ _ _. Finds-pure _ (issued, deadline, tells, h, ground arith, ground arith)

-- Where an envelope is verified at an instant, the payload returned is the one in the envelope, and
-- its own times hold: its `issued_at` is 30 seconds after the instant at the latest, its deadline
-- (`expires_at` in the first version, else `claim_deadline`) is later than the instant and than
-- `issued_at`, by 5 minutes at most in the first version and else by 15.
pub verify_allocation-IsTimely :
    {S : Type 0} (s : S) (sv : Services) (envelope payload : Fields) (pinned : String) (now : ℕ)
    → (verify_allocation sv envelope pinned now s).0 ≡ ok payload
    → (get "payload" envelope ≡ some (obj payload)) × IsTimely sv payload now
unfolding verify_allocation pure
verify_allocation-IsTimely {S} s sv envelope payload pinned now e =
    returning Q _ _ payload (Finds-raise_unless _ _)
      (λ _ _. returning Q _ _ payload (Finds-raise_unless _ _) λ _ _.
        returning Q _ _ payload (Finds-or_raise _ _) λ fields held.
          returning Q _ _ payload (validate-Finds sv fields now) λ _ timely.
            returning Q _ _ payload (Finds-raise_unless _ _) λ _ _ same.
              subst (λ f. (get "payload" envelope ≡ some (obj f)) × IsTimely sv f now)
                (ground arith) (as_object-eq (get "payload" envelope) fields held, timely))
      e
  where
    Q : Outcome Failure Fields × S → Type 0
    Q r = (get "payload" envelope ≡ some (obj payload)) × IsTimely sv payload now

-- the envelope of a payload
abbrev enveloped : Services → Fields → Fields
enveloped sv payload = field "payload" (obj payload) (
    field "signer_fingerprint" (text sv.fingerprint)
      (field "signature" (sv.sign payload (version_of payload)) end))

verify-enveloped :
    {S : Type 0} (s : S) (sv : Services) (payload : Fields) (now : ℕ)
    → sv.verify payload (sv.sign payload (version_of payload)) (version_of payload) ≡ true
    → is_digest sv.fingerprint ≡ true
    → validate_allocation_payload sv payload now s ≡ (ok tt, s)
    → (verify_allocation sv (enveloped sv payload) sv.fingerprint now s).0 ≡ ok payload
unfolding verify_allocation ◌>>=◌ get
verify-enveloped s sv payload now verified pinned valid =
    rw (pinned, (eq_iff sv.fingerprint sv.fingerprint).1 refl, valid, verified) refl

-- Where signatures verify and the fingerprint of the key is a digest, an envelope that is signed at an
-- instant is verified then, with that fingerprint pinned, and its payload is what was signed.
pub verify-sign :
    {S : Type 0} (s : S) (sv : Services) (payload envelope : Fields) (now : ℕ)
    → ((fields : Fields) (version : ℕ) → sv.verify fields (sv.sign fields version) version ≡ true)
    → is_digest sv.fingerprint ≡ true
    → (sign_allocation sv payload now s).0 ≡ ok envelope
    → (verify_allocation sv envelope sv.fingerprint now s).0 ≡ ok payload
unfolding sign_allocation pure
verify-sign {S} s sv payload envelope now pair pinned e =
    let (valid, same) =
      returning Q _ _ envelope (Finds-self _ (validate-Finds sv payload now))
        (λ _ valid ends. (valid, ground arith)) e in
    subst (λ w. (verify_allocation sv w sv.fingerprint now s).0 ≡ ok payload) same
      (verify-enveloped s sv payload now (pair payload _) pinned valid)
  where
    Q : Outcome Failure Fields × S → Type 0
    Q r =
        (validate_allocation_payload sv payload now s ≡ (ok tt, s))
        × (enveloped sv payload ≡ envelope)
