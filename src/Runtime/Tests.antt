-- ===== src/Runtime/Tests.antt =====
-- A runtime with one deferred release, and the theorem on the flush at it.
use qsa_hisparse.Prelude.{
  ◌≡◌, ◌⊎◌, refl, Bool, true, false, none, some, [], ◌∷◌, done, raised, get, put, str_eq,
  range_from,
}
use qsa_hisparse.Slots.Defs.{
  Slots, Lease, Event, drained, lease_eq, require, check_phase, init, acquire, take_slot, drain,
  any_missing, all_sound,
}
use qsa_hisparse.Slots.Invariant.{Inv}
use qsa_hisparse.Slots.Runs.{acquires, drains, step, run, run-init-Inv}
use qsa_hisparse.Runtime.Defs.{Runtime, log_failure, after_logical_flush}
use qsa_hisparse.Runtime.Release.{AllDeferred}
use qsa_hisparse.Runtime.Flush.{Flushed, after_logical_flush_lem}

abbrev alice : Lease
alice = record { req_pool_idx = 1; generation = 1; rid = "a"; slot = 0 }

abbrev sound : Event
sound = record { ready = true; sound = true }

abbrev fresh : Slots
fresh = record {
  staging_tokens = 64;
  page_size = 64;
  max_requests = 2;
  active = [];
  phases = [];
  last_generation = [];
  free_slots = 0 ∷ 1 ∷ [];
  prefill_owner = none;
}

abbrev waiting : Slots
waiting = record fresh {
  active = (1, alice) ∷ [];
  phases = (1, drained) ∷ [];
  last_generation = (1, 1) ∷ [];
  free_slots = 1 ∷ [];
}

fresh-init : init 64 64 2 ≡ some fresh
unfolding init range_from
fresh-init = refl

waiting-Inv : Inv waiting
unfolding run step acquire take_slot drain any_missing all_sound require check_phase lease_eq get
    put str_eq
waiting-Inv = run-init-Inv 64 64 2 (acquires 1 1 "a" ∷ drains alice (some sound) [] ∷ []) fresh-init

abbrev deferring : Runtime
deferring = record {
  slots = waiting;
  requests = (1, record { lease = alice; done_events = []; handoff_event = none }) ∷ [];
  generations = (1, 1) ∷ [];
  graph_failed_leases = [];
  pending_releases = alice ∷ [];
  batch_requests = alice ∷ [];
  has_producer_stream = true;
}

-- The log write of the release fails.
abbrev full_disk : Lease → Bool
full_disk l = false

all_deferred : AllDeferred deferring deferring.pending_releases
unfolding require check_phase lease_eq get str_eq
all_deferred = (record { in_phase = refl; known = refl }, tt)

after_logical_flush_lem_example :
    (d : Runtime) × Flushed deferring d
    × Inv d.slots
    × (((after_logical_flush deferring false full_disk ≡ done d tt) × (d.pending_releases ≡ []))
        ⊎ ((after_logical_flush deferring false full_disk ≡ raised d log_failure)
            × ((l : Lease) × (full_disk l ≡ false))))
after_logical_flush_lem_example =
    after_logical_flush_lem deferring full_disk all_deferred (tt, tt) waiting-Inv
