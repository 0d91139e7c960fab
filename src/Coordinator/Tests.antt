-- ===== src/Coordinator/Tests.antt =====
-- A group of two ranks with one parked request, and the theorems of coordinator.py at it.
use qsa_hisparse.Prelude.{
  ℕ, ◌≤◌, ◌<◌, ◌≡◌, refl, true, false, none, some, List, [], ◌∷◌, length, take, drop, ◌⊎◌, done,
  get, put, str_eq, range_from,
}
use qsa_hisparse.Slots.Defs.{
  Slots, Lease, Event, host_ready, decode, lease_eq, require, check_phase, admit_decode, init,
  acquire, take_slot, begin_handoff, finish_handoff,
}
use qsa_hisparse.Slots.Invariant.{Inv}
use qsa_hisparse.Slots.Runs.{acquires, begins, finishes, step, run, run-init-Inv}
use qsa_hisparse.Coordinator.Defs.{
  Rank, Vote, vote, leases, leases_eq, disagree, least_count, admit_all, release_ready,
  collect_ready_reqs, total_queued, gather, count_ready, check_request,
}
use qsa_hisparse.Coordinator.Votes.{IsSettled}
use qsa_hisparse.Coordinator.Converge.{collect_agrees}
use qsa_hisparse.Coordinator.Ready.{AllReady, collect_ready}
use qsa_hisparse.Coordinator.Admit.{AllDecode, requests_of, collect_succeeds}

abbrev alice : Lease
alice = record { req_pool_idx = 1; generation = 1; rid = "a"; slot = 0 }

abbrev copied : Event
copied = record { ready = true; sound = true }

-- A table where alice's copies are complete.
abbrev parked : Slots
parked = record {
  staging_tokens = 64;
  page_size = 64;
  max_requests = 2;
  active = (1, alice) ∷ [];
  phases = (1, host_ready) ∷ [];
  last_generation = (1, 1) ∷ [];
  free_slots = 1 ∷ [];
  prefill_owner = none;
}

abbrev fresh : Slots
fresh = record {
  staging_tokens = 64;
  page_size = 64;
  max_requests = 2;
  active = [];
  phases = [];
  last_generation = [];
  free_slots = 0 ∷ 1 ∷ [];
  prefill_owner = none;
}

fresh-init : init 64 64 2 ≡ some fresh
unfolding init range_from
fresh-init = refl

parked-Inv : Inv parked
unfolding run step acquire take_slot begin_handoff finish_handoff require check_phase lease_eq get
    put str_eq
parked-Inv =
    run-init-Inv 64 64 2 (acquires 1 1 "a" ∷ begins alice ∷ finishes alice (some copied) ∷ [])
      fresh-init

-- The ranks number their requests on their own.
abbrev left : Rank
left = record {
  slots = parked;
  requests = (1, alice) ∷ [];
  generations = (1, 1) ∷ [];
  ack_staging_queue = record { req = 5; lease = alice; ready = true } ∷ [];
  wait_initial_pair = false;
  initial_batch_target = 0;
}

abbrev right : Rank
right = record left { ack_staging_queue = record { req = 8; lease = alice; ready = true } ∷ [] }

abbrev decoding : Slots
decoding = record parked { phases = (1, decode) ∷ [] }

abbrev left_after : Rank
left_after = record left { slots = decoding; ack_staging_queue = [] }

abbrev right_after : Rank
right_after = record right { slots = decoding; ack_staging_queue = [] }

abbrev left_reqs : List ℕ
left_reqs = 5 ∷ []

abbrev right_reqs : List ℕ
right_reqs = 8 ∷ []

abbrev group : List Rank
group = left ∷ right ∷ []

abbrev the_vote : Vote
the_vote = record { signatures = alice ∷ []; count = 1; target = 0 }

abbrev votes : List Vote
votes = the_vote ∷ the_vote ∷ []

group-votes : gather group ≡ some votes
unfolding gather vote count_ready check_request require check_phase lease_eq get str_eq
group-votes = refl

left-vote : vote left ≡ done tt the_vote
unfolding gather vote count_ready check_request require check_phase lease_eq get str_eq
left-vote = refl

left_agrees : disagree the_vote votes ≡ false
unfolding disagree leases_eq lease_eq str_eq
left_agrees = refl

left_collects : collect_ready_reqs (total_queued group) votes left ≡ done left_after left_reqs
unfolding gather vote count_ready check_request require check_phase lease_eq get str_eq
    collect_ready_reqs disagree leases_eq least_count release_ready admit_all admit_decode put
    total_queued
left_collects = refl

right_collects : collect_ready_reqs (total_queued group) votes right ≡ done right_after right_reqs
unfolding gather vote count_ready check_request require check_phase lease_eq get str_eq
    collect_ready_reqs disagree leases_eq least_count release_ready admit_all admit_decode put
    total_queued
right_collects = refl

collect_agrees_example :
    (leases left.ack_staging_queue ≡ leases right.ack_staging_queue)
    × (leases left_after.ack_staging_queue ≡ leases right_after.ack_staging_queue)
    × (length left_reqs ≡ length right_reqs)
    × IsSettled left_after
    × IsSettled right_after
collect_agrees_example =
    collect_agrees group votes 0 1 left right left_after right_after left_reqs right_reqs
      group-votes refl refl refl refl left_collects right_collects

collect_ready_example : AllReady right (take (length left_reqs) right.ack_staging_queue)
collect_ready_example =
    collect_ready group votes 0 1 left right left_after left_reqs group-votes refl refl
      left_collects

collect_succeeds_example :
    (a' : Rank) × (xs : List ℕ) × (collect_ready_reqs (total_queued group) votes left ≡ done a' xs)
    × Inv a'.slots
    × (((a' ≡ left)
          × (xs ≡ [])
          × ((total_queued group ≡ 0)
              ⊎ ((left.wait_initial_pair ≡ true)
                  × (least_count votes < left.initial_batch_target))))
        ⊎ ((0 < total_queued group)
            × ((left.wait_initial_pair ≡ false) ⊎ (left.initial_batch_target ≤ least_count votes))
            × AllDecode a'.slots (leases (take (least_count votes) left.ack_staging_queue))
            × (xs ≡ requests_of (take (least_count votes) left.ack_staging_queue))
            × (a'.ack_staging_queue ≡ drop (least_count votes) left.ack_staging_queue)
            × (a'.wait_initial_pair ≡ false)))
collect_succeeds_example =
    collect_succeeds group votes 0 left the_vote group-votes refl left-vote left_agrees (tt, tt)
      parked-Inv
