-- ===== src/GateStore/Tests/Takeover.antt =====
-- A second worker takes the gate over, a nonce is bound, and a head moves on.
use self_hosted_ci.Json.{Fields, end, field, text, num}
use self_hosted_ci.GateStore.Heads.{observe_head, record_head}
use self_hosted_ci.GateStore.Completions.{complete, commit_result, outbox_key}
use self_hosted_ci.GateStore.Commits.{commits, IsCommitted, Writes}
use self_hosted_ci.GateStore.Overtaking.{overtaken_for_good}
use self_hosted_ci.GateStore.HeadEpochs.{run-Advances, Advances}
use self_hosted_ci.GateStore.Replays.{nonce_bound_once, SameCandidate}
use self_hosted_ci.GateStore.Queries.{
  insert_outbox, select_gate, owned, update_gate, insert_gate, insert_nonce, max_generation,
  latest_gate,
}
use self_hosted_ci.GateStore.Leases.{
  renew_lease, heartbeat, read_gate, open_generation, take_generation, acquire_in, acquire,
  Acquisition,
}
use Prim.Native.String.{String}
use self_hosted_ci.Prelude.{
  lookup, update, pair_eq, sym, ℕ, ◌≡◌, ◌≢◌, refl, some, [], ◌∷◌, nat_eq, string_eq, pos, arith,
  eq_iff,
}
use self_hosted_ci.GateStore.Rows.{HeadRow, success, local, head_key, gate_from_row, Db, Gate}
use self_hosted_ci.GateStore.Monad.{Services, fault, transaction, ok, err, fenced}
use self_hosted_ci.GateStore.Calls.{observes, Call, call, run}
use self_hosted_ci.GateStore.Tests.{List, services, store, lease, gate, other_work}
use self_hosted_ci.GateStore.Nonces.{Binding, bound, idempotent, bind_in, bind_attestation_nonce}

abbrev bid : Acquisition
bid = record {
  logical_key = "repo#7";
  head_generation = 1;
  base_sha = "base";
  tested_merge_sha = "merge";
  owner = "worker-b";
  check_run_id = 5;
  lease_ttl = pos 60;
}

abbrev taken_gate : Gate
taken_gate =
    gate_from_row (record gate { owner = "worker-b"; lease_epoch = 2; lease_expires_at = 210 })

abbrev taken_over : Db
taken_over = (acquire bid 150 store).1

first_holder : owned lease 20 store ≡ (ok gate, store)
unfolding owned max_generation select_gate lookup
first_holder = refl

takes_over : acquire bid 150 store ≡ (ok taken_gate, taken_over)
unfolding acquire acquire_in latest_gate take_generation read_gate transaction max_generation
    select_gate lookup update_gate update
takes_over = refl

another : bid.owner ≢ lease.owner
another e = ground (arith, eq_iff bid.owner lease.owner)

overtaken_for_good_example :
    owned lease 99 (run other_work taken_over) ≡ (err fenced, run other_work taken_over)
overtaken_for_good_example =
    overtaken_for_good lease bid 150 20 99 store taken_over gate taken_gate other_work first_holder
      refl another takes_over

newest_is_gate : latest_gate "repo#7" store.gates ≡ some gate
unfolding latest_gate max_generation select_gate lookup
newest_is_gate = refl

other_owner : gate.owner ≢ bid.owner
other_owner e = another (sym e)

-- the next tuple
abbrev next_bid : Acquisition
next_bid = record bid { tested_merge_sha = "next merge"; head_generation = 2 }

abbrev next_store : Db
next_store = (acquire next_bid 20 store).1

second_generation : max_generation "repo#7" next_store.gates ≡ some 2
unfolding acquire acquire_in latest_gate open_generation insert_gate read_gate transaction
    max_generation select_gate lookup
second_generation = refl

abbrev binding : Binding
binding = record {
  attestation_id = "attestation";
  nonce_hash = "nonce";
  logical_key = "repo#7";
  generation = 1;
  expected_head_generation = 1;
  envelope_digest = "envelope";
  target = field "pr" (num 7) end;
}

abbrev bound_store : Db
bound_store = (bind_attestation_nonce services binding 20 store).1

binds_first : bind_attestation_nonce services binding 20 store ≡ (ok bound, bound_store)
unfolding bind_attestation_nonce bind_in transaction select_gate lookup insert_nonce
binds_first = refl

binds_again :
    bind_attestation_nonce services binding 30 (run other_work bound_store)
    ≡ (ok idempotent, run other_work bound_store)
unfolding bind_attestation_nonce bind_in transaction select_gate lookup insert_nonce run call
    observe_head record_head heartbeat renew_lease owned max_generation update_gate update
binds_again = refl

nonce_bound_once_example :
    SameCandidate services binding services binding
    × (idempotent ≡ idempotent)
    × (run other_work bound_store ≡ run other_work bound_store)
nonce_bound_once_example =
    nonce_bound_once services services binding binding 20 30 store bound_store
      (run other_work bound_store) idempotent other_work binds_first refl refl binds_again

-- Pull request 7 moves to another head, which is observed twice.
abbrev head : HeadRow
head = record { repository_id = "repo"; pr_number = 7; head_sha = "head"; head_generation = 1 }

abbrev next_head : HeadRow
next_head = record head { head_sha = "next"; head_generation = 2 }

abbrev observed_store : Db
observed_store = record store { heads = head ∷ [] }

abbrev observations : List (Services × ℕ × Call)
observations =
    (services, 20, observes "repo" 7 "next") ∷ (services, 30, observes "repo" 7 "next") ∷ []

moves_on : lookup head_key ("repo", 7) (run observations observed_store).heads ≡ some next_head
unfolding run call observe_head record_head transaction lookup update
moves_on = refl

run-Advances_example : Advances (some head) (some next_head)
unfolding run call observe_head record_head transaction lookup update
run-Advances_example = run-Advances observations observed_store ("repo", 7)

named : ◌≢◌ {A = String} "repo" ""
named e = ground (arith, eq_iff "repo" "")

has_sha : ◌≢◌ {A = String} "head" ""
has_sha e = ground (arith, eq_iff "head" "")

numbered : ◌≢◌ {A = ℕ} 7 0
numbered e = omega arith

abbrev evidence : Fields
evidence = field "conclusion" (text "success") end

commits_now : IsCommitted (complete services "repo#7" 1 local success evidence 20 store).0
unfolding complete commit_result update_gate fault insert_outbox select_gate outbox_key lookup
    update
commits_now = refl

commits_example :
    Writes services "repo#7" 1 local success evidence 20 store
      (complete services "repo#7" 1 local success evidence 20 store).1
commits_example = (commits services "repo#7" 1 local success evidence 20 store).1 commits_now
