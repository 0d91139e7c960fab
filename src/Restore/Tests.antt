-- ===== src/Restore/Tests.antt =====
-- A restore of one page whose allocation failed, rolled back twice because the log was full the first
-- time, and the theorems at it.
use qsa_hisparse.Prelude.{
  ℕ, ◌+◌, ◌-◌, ◌%◌, ◌<◌, String, ◌≡◌, ◌≢◌, refl, Bool, true, false, none, some, List, [], ◌∷◌, ◌++◌,
  range_from, get, put, max, str_eq, done, raised, after, arith,
}
use qsa_hisparse.Image.Defs.{page}
use qsa_hisparse.Image.Requests.{text}
use qsa_hisparse.Prefix.Defs.{Snapshot, Bytes, Tensor, Cache}
use qsa_hisparse.Prefix.Cache.{close_reader}
use qsa_hisparse.Slots.Defs.{
  Slots, Lease, Event, prefill, drained, require, check_phase, drain, any_missing, all_sound,
  lease_eq, logical_flush, commit_release,
}
use qsa_hisparse.Runtime.Defs.{
  Runtime, release, request_of, drain_request, copy_events, lease_in, without, after_release,
}
use qsa_hisparse.Restore.State.{
  restore_failed, State, Req, Kv, Transfer, flush_races, namespace_of, drop_host_prefixes,
}
use qsa_hisparse.Restore.Hits.{prefill_checkpoint_limit, pending_prefix_tokens, match_prefix}
use qsa_hisparse.Restore.Drain.{
  Around, drain_transfer, release_logged, lease_of, already_drained, is_active, known_idx,
}
use qsa_hisparse.Restore.Rollback.{
  with_suffix, suffix_of, rollback_one, rollback_fresh, free_transfer, commit_transfer, settle,
}
use qsa_hisparse.Restore.Limits.{prefill_checkpoint_limit_lem, drop_host_prefixes_lem}
use qsa_hisparse.Prefix.Invariant.{Sound, readers_of}
use qsa_hisparse.Restore.Readers.{Answers, held_by, match_prefix_lem}
use qsa_hisparse.Restore.Ends.{Ended, IsDrained, rollback_one-ends}
use qsa_hisparse.Restore.Handover.{IsAdmitted, IsRestored, IsWithheld, restore, restore_lem}
use qsa_hisparse.Restore.Balance.{Balanced, slots_of, attempts, rollback_one-attempts}

abbrev model_name : String
model_name = "m"

-- One page of tokens, whose checkpoint the request reads.
abbrev prompt : Bytes
prompt = record { address = 100; words = range_from 1 64 }

abbrev rope : Tensor
rope = record { data_ptr = 3; nbytes = 8; shape = 3 ∷ []; on_cpu = true }

abbrev checkpoint : Snapshot
checkpoint = record {
  namespace = record {
    model = model_name;
    epoch = 0;
    extra_key = none;
    cache_salt = none;
    lora_id = none;
  };
  tokens = prompt;
  segments = [];
  pending = [];
  rope = rope;
  mamba = [];
  image_key = none;
}

abbrev host : Cache
host = record {
  budget_bytes = 2000;
  max_entries = 2;
  entries = (1, record { snapshot = checkpoint; readers = 1 }) ∷ [];
  retired = [];
  pending_bytes = 0;
  pending_entries = 0;
  epoch = 0;
  next_id = 1;
  hits = 1;
  misses = 0;
  reused_tokens = 0;
  evictions = 0;
}

host-Sound : Sound host
unfolding get range_from
host-Sound = record {
  unique = (refl, tt);
  unique_retired = tt;
  apart = λ k e h. refl;
  known = λ k h. ground arith;
  pinned = λ k e h. absurd (ground arith);
  aligned = λ k e h. ground arith;
}

abbrev alice : Lease
alice = record { req_pool_idx = 1; generation = 1; rid = "a"; slot = 0 }

abbrev held : Slots
held = record {
  staging_tokens = 128;
  page_size = 64;
  max_requests = 2;
  active = (1, alice) ∷ [];
  phases = (1, prefill) ∷ [];
  last_generation = (1, 1) ∷ [];
  free_slots = 1 ∷ [];
  prefill_owner = some alice;
}

abbrev runtime : Runtime
runtime = record {
  slots = held;
  requests = (1, record { lease = alice; done_events = []; handoff_event = none }) ∷ [];
  generations = (1, 1) ∷ [];
  graph_failed_leases = [];
  pending_releases = [];
  batch_requests = alice ∷ [];
  has_producer_stream = true;
}

-- The prefix has its page, and the suffix of two tokens is in the row.
abbrev transfer : Transfer
transfer = record {
  reader = some (1, checkpoint);
  prefix = some (range_from 128 64);
  fresh = true;
  previous_allocated = 0;
  previous_committed = 0;
  restore_stream = true;
  suffix = none;
  req_idx = none;
  lease = none;
  drained = false;
}

abbrev matched : State
matched = record {
  host = host;
  matches = (7, (1, checkpoint)) ∷ [];
  restoring = [];
  runtime = runtime;
  freed = [];
}

abbrev restoring : State
restoring = record matched { restoring = (7, transfer) ∷ [] }

abbrev request : Req
request = record {
  handle = 7;
  rid = "a";
  image = text;
  has_multimodal = false;
  others = false;
  hidden_states = false;
  extra_key = none;
  cache_salt = none;
  lora_id = none;
  skip_insert = false;
  tokens = prompt;
}

abbrev kv : Kv
kv = record {
  kv_allocated_len = 66;
  kv_committed_len = 0;
  req_pool_idx = some 1;
  has_mamba = false;
  holds_kv = true;
  prefix_len = 64;
}

abbrev row : ℕ → ℕ → ℕ → List ℕ
row idx start stop = range_from (128 + start) (stop - start)

abbrev sound : Event
sound = record { ready = true; sound = true }

abbrev full_disk : Around
full_disk = record {
  row = row;
  page_size = 64;
  terminal = sound;
  streams_drain = true;
  begin_logged = true;
  drain_logged = false;
  free_group = false;
  commit_logged = true;
}

abbrev again : List (Kv × Around)
again = (kv, record full_disk { drain_logged = true }) ∷ []

-- The first attempt stops behind the drain; the second gives all slots back, and the record is gone.
-- What the first attempt leaves.
abbrev drained_runtime : Runtime
drained_runtime = record runtime {
  slots = record held { phases = (1, drained) ∷ []; prefill_owner = none };
}

abbrev noted : Transfer
noted = record transfer {
  restore_stream = false;
  suffix = some (some (range_from 192 2));
  req_idx = some (some 1);
  lease = some (some alice);
}

abbrev stopped : State
stopped = record restoring { restoring = (7, noted) ∷ []; runtime = drained_runtime }

first_stops : after (rollback_one restoring request kv full_disk) ≡ stopped
unfolding rollback_one rollback_fresh drain_transfer release_logged release request_of require
    check_phase drain_request drain copy_events any_missing all_sound with_suffix suffix_of lease_of
    already_drained is_active lease_eq lease_in without get put str_eq range_from known_idx
first_stops = refl

stopped-IsDrained : IsDrained drained_runtime alice
unfolding require check_phase lease_eq get str_eq
stopped-IsDrained = record { in_phase = refl; known = refl }

-- The drain is not made again, and the log is full once more.
abbrev full_again : Around
full_again = record full_disk { commit_logged = false }

second_frees : (attempts restoring request ((kv, full_disk) ∷ again)).freed ≡ range_from 128 66
unfolding rollback_one rollback_fresh drain_transfer release_logged release request_of require
    check_phase drain_request drain copy_events any_missing all_sound with_suffix suffix_of lease_of
    already_drained is_active lease_eq lease_in without get put str_eq range_from known_idx
    free_transfer commit_transfer after_release settle logical_flush commit_release close_reader
second_frees = refl

abbrev asked : ℕ
asked = 150

abbrev none_cached : ℕ
none_cached = 0

abbrev one_page : ℕ
one_page = 64

-- The row of the request is new, and the prefix is admitted.
abbrev new_kv : Kv
new_kv = record kv { kv_allocated_len = 0; holds_kv = false }

admitted : IsAdmitted model_name matched request new_kv 1 checkpoint
unfolding namespace_of get range_from
admitted = record {
  matched = refl;
  idle = refl;
  same_namespace = refl;
  admitted = refl;
  new_row = refl;
}

abbrev asked_again : Bool
asked_again = false

match_prefix_lem_example :
    (t : State) × Answers true request.handle
      (pending_prefix_tokens t request)
      t
      (match_prefix model_name matched request asked_again true)
    × Sound t.host
    × ((j : ℕ)
        → readers_of j t.host + held_by j (get request.handle matched.matches)
          ≡ readers_of j matched.host + held_by j (get request.handle t.matches))
unfolding get
match_prefix_lem_example =
    match_prefix_lem model_name matched request asked_again true host-Sound (omega arith) refl

rollback_one-attempts_example :
    Balanced
      (restoring.freed ++ slots_of (with_suffix full_disk kv transfer))
      request.handle
      (attempts restoring request ((kv, full_disk) ∷ again))
unfolding get
rollback_one-attempts_example =
    rollback_one-attempts restoring request kv full_disk again transfer refl refl

rollback_one-ends_example :
    Ended request.handle
      (stopped.freed ++ slots_of (with_suffix full_again kv noted))
      (after (rollback_one stopped request kv full_again))
unfolding get
rollback_one-ends_example =
    rollback_one-ends stopped request kv full_again noted alice refl refl refl stopped-IsDrained
      host-Sound (omega arith)

restore_lem_example :
    ((t : State) × (restore model_name matched request new_kv true ≡ done t tt)
      × IsRestored matched request 1 checkpoint t)
    × ((t : State) × (restore model_name matched request new_kv false ≡ raised t restore_failed)
        × IsWithheld model_name matched request t)
unfolding get
restore_lem_example =
    restore_lem model_name matched request new_kv 1 checkpoint admitted host-Sound (omega arith)

prefill_checkpoint_limit_lem_example :
    (0 < one_page)
    × ((max none_cached (pending_prefix_tokens matched request) + one_page) % page ≡ 0)
    × (max none_cached (pending_prefix_tokens matched request) + one_page < asked)
    × (asked < max none_cached (pending_prefix_tokens matched request) + one_page + page)
unfolding prefill_checkpoint_limit namespace_of pending_prefix_tokens get range_from
prefill_checkpoint_limit_lem_example =
    prefill_checkpoint_limit_lem model_name matched request asked none_cached one_page refl

drop_host_prefixes_lem_example :
    (restoring.restoring ≢ [] → drop_host_prefixes restoring ≡ raised restoring flush_races)
    × ((t : State) (h : ℕ)
        → drop_host_prefixes restoring ≡ done t tt
        → (restoring.restoring ≡ [])
          × (t.restoring ≡ [])
          × (get h t.matches ≡ none)
          × (t.host.entries ≡ []))
drop_host_prefixes_lem_example = drop_host_prefixes_lem restoring
