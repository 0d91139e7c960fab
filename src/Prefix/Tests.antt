-- ===== src/Prefix/Tests.antt =====
-- Concrete checkpoints and histories, and the theorems of prefix.py at them.
use qsa_hisparse.Prelude.{
  ℕ, ◌+◌, ◌-◌, ◌≤◌, ◌<◌, ◌≡◌, refl, true, false, none, some, List, [], ◌∷◌, ◌++◌, ◌⊎◌, length,
  range_from, get, ◌==◌, if◌then◌else◌, is_some, done, raised, weigh, put, del, starts_with, str_eq,
  subst,
}
use qsa_hisparse.Image.Defs.{key_eq}
use qsa_hisparse.Prefix.Defs.{
  Tensor, Bytes, Namespace, Snapshot, Entry, Cache, Reader, Reservation, Error, image_key, tensors,
  segment_tensors, snapshot_length, namespace_eq, opt_eq,
}
use qsa_hisparse.Prefix.Cache.{
  init, acquire, acquire_cap, close_reader, reserve, publish, store, check_segments,
  close_reservation, used_bytes, footprint, snapshots, are_host, all_host, bytes_of, storages,
  storages_of, keys, distinct, total, block_in, block_eq, make_room, evict_one, find_idle, scan,
  is_match, pin, release,
}
use qsa_hisparse.Prefix.Invariant.{readers_of}
use qsa_hisparse.Prefix.Moves.{Follows, snapshot_of}
use qsa_hisparse.Prefix.Room.{Evicts, reserve_lem, granted, new_reservation}
use qsa_hisparse.Prefix.Close.{basis_weight, live_snapshot}
use qsa_hisparse.Prefix.Publish.{IsPublishable, stored, publish_lem}
use qsa_hisparse.Prefix.Acquire.{Matches, acquire_lem}
use qsa_hisparse.Prefix.Roundtrip.{acquire-publish}
use qsa_hisparse.Prefix.World.{
  World, Call, acquires, reserves, publishes, resets, open_reader, step, run, start, after_acquire,
  after_close, after_reserve, after_publish, after_abandon, attach,
}
use qsa_hisparse.Prefix.Safety.{Inv, size_weight}
use qsa_hisparse.Prefix.Commits.{run-Inv}
use qsa_hisparse.Prefix.History.{start-Inv, run_within_budget, run_closes_readers}
use qsa_hisparse.Prefix.Pinned.{step_keeps_pinned}

-- One page of tokens, and what a checkpoint of it holds.
abbrev prompt : Bytes
prompt = record { address = 100; words = range_from 1 64 }

abbrev here : Namespace
here = record { model = "m"; epoch = 0; extra_key = none; cache_salt = none; lora_id = none }

abbrev raw : Tensor
raw = record { data_ptr = 1; nbytes = 640; shape = 1 ∷ 2 ∷ 64 ∷ 1 ∷ 256 ∷ []; on_cpu = true }

abbrev index : Tensor
index = record { data_ptr = 2; nbytes = 160; shape = 1 ∷ 16 ∷ 1 ∷ 128 ∷ []; on_cpu = true }

abbrev rope : Tensor
rope = record { data_ptr = 3; nbytes = 8; shape = 3 ∷ []; on_cpu = true }

abbrev checkpoint : Snapshot
checkpoint = record {
  namespace = here;
  tokens = prompt;
  segments = record { start = 0; stop = 64; raw = raw; index = index } ∷ [];
  pending = [];
  rope = rope;
  mamba = [];
  image_key = none;
}

abbrev wanted : ℕ
wanted = 600

abbrev empty : Cache
empty = record {
  budget_bytes = 2000;
  max_entries = 2;
  entries = [];
  retired = [];
  pending_bytes = 0;
  pending_entries = 0;
  epoch = 0;
  next_id = 0;
  hits = 0;
  misses = 0;
  reused_tokens = 0;
  evictions = 0;
}

-- A capture is published, read, and the next one is reserved.
abbrev to_reserved : List Call
to_reserved = reserves 1400 ∷ []

abbrev to_published : List Call
to_published = reserves 1400 ∷ publishes 0 checkpoint true ∷ []

abbrev to_read : List Call
to_read = to_published ++ acquires here prompt none true none ∷ []

abbrev the_reservation : Reservation
the_reservation = record { size = 1400; epoch = 0; active = true; basis = none }

abbrev reserved : World
reserved = record {
  cache = record empty { pending_bytes = 1400; pending_entries = 1 };
  readers = [];
  reservations = (0, the_reservation) ∷ [];
  next_handle = 1;
}

abbrev published : World
published = record {
  cache = record empty {
    entries = (1, record { snapshot = checkpoint; readers = 0 }) ∷ [];
    next_id = 1;
  };
  readers = [];
  reservations = [];
  next_handle = 1;
}

abbrev reading : World
reading = record {
  cache = record empty {
    entries = (1, record { snapshot = checkpoint; readers = 1 }) ∷ [];
    next_id = 1;
    hits = 1;
  };
  readers = (1, 1) ∷ [];
  reservations = [];
  next_handle = 2;
}

empty-init : init 2000 2 64 ≡ some empty
unfolding init
empty-init = refl

reserved-run : run (start empty) to_reserved ≡ reserved
unfolding run step start after_acquire after_close after_reserve after_publish after_abandon attach
    publish store check_segments close_reservation close_reader release put del get reserve
    make_room evict_one find_idle range_from acquire acquire_cap scan is_match namespace_eq opt_eq
    str_eq starts_with key_eq pin image_key used_bytes footprint snapshots are_host all_host tensors
    segment_tensors bytes_of storages storages_of keys distinct total block_in block_eq
reserved-run = refl

reserved-Inv : Inv reserved
reserved-Inv =
    subst Inv reserved-run (run-Inv (start empty) to_reserved (start-Inv 2000 2 64 empty-init))

published-run : run (start empty) to_published ≡ published
unfolding run step start after_acquire after_close after_reserve after_publish after_abandon attach
    publish store check_segments close_reservation close_reader release put del get reserve
    make_room evict_one find_idle range_from acquire acquire_cap scan is_match namespace_eq opt_eq
    str_eq starts_with key_eq pin image_key used_bytes footprint snapshots are_host all_host tensors
    segment_tensors bytes_of storages storages_of keys distinct total block_in block_eq
published-run = refl

published-Inv : Inv published
published-Inv =
    subst Inv published-run (run-Inv (start empty) to_published (start-Inv 2000 2 64 empty-init))

reading-run : run (start empty) to_read ≡ reading
unfolding run step start after_acquire after_close after_reserve after_publish after_abandon attach
    publish store check_segments close_reservation close_reader release put del get reserve
    make_room evict_one find_idle range_from acquire acquire_cap scan is_match namespace_eq opt_eq
    str_eq starts_with key_eq pin image_key used_bytes footprint snapshots are_host all_host tensors
    segment_tensors bytes_of storages storages_of keys distinct total block_in block_eq
reading-run = refl

reading-Inv : Inv reading
reading-Inv = subst Inv reading-run (run-Inv (start empty) to_read (start-Inv 2000 2 64 empty-init))

read_used : used_bytes reading.cache ≡ some 1320
unfolding used_bytes footprint snapshots are_host all_host tensors segment_tensors bytes_of storages
    storages_of keys distinct total block_in block_eq range_from
read_used = refl

published_done :
    publish reserved.cache the_reservation checkpoint true
    ≡ done (published.cache, record the_reservation { active = false }) 1
unfolding publish store check_segments close_reservation close_reader release put del get reserve
    make_room evict_one find_idle range_from used_bytes footprint snapshots are_host all_host
    tensors segment_tensors bytes_of storages storages_of keys distinct total block_in block_eq
published_done = refl

no_images : image_key none (snapshot_length checkpoint) ≡ some none
unfolding image_key
no_images = refl

reader_there : get 1 (run (start empty) to_read).readers ≡ some 1
unfolding get
reader_there = rw reading-run refl

reader_before : get 1 reading.readers ≡ some 1
unfolding get
reader_before = refl

reader_after : get 1 (step reading resets).readers ≡ some 1
unfolding step get
reader_after = refl

run_within_budget_example :
    let w = run (start empty) to_read in
    (used : ℕ) × (used_bytes w.cache ≡ some used)
    × (used + weigh size_weight w.reservations ≤ 2000)
    × (length w.cache.entries + length w.cache.retired + length w.reservations ≤ 2)
run_within_budget_example = run_within_budget 2000 2 64 to_read empty-init

run_closes_readers_example :
    (d : Cache) × (x : Reader) × (close_reader (run (start empty) to_read).cache (open_reader 1)
      ≡ done d x)
    × (x.is_open ≡ false)
run_closes_readers_example = run_closes_readers 2000 2 64 to_read 1 1 empty-init reader_there

step_keeps_pinned_example :
    (snapshot_of 1 (step reading resets).cache ≡ snapshot_of 1 reading.cache)
    × (is_some (snapshot_of 1 reading.cache) ≡ true)
step_keeps_pinned_example =
    step_keeps_pinned reading resets 1 1 reading-Inv reader_before reader_after

acquire_lem_example :
    let cap = acquire_cap prompt none none in
    ((d : Cache) × (k : ℕ) × (s : Snapshot) × (acquire published.cache here prompt none true none
        ≡ done d (some (k, s)))
      × Follows published.cache d
      × ((e : Entry) × (get k published.cache.entries ≡ some e) × (e.snapshot ≡ s))
      × Matches here prompt cap none s
      × ((j : ℕ) (e : Entry)
          → get j published.cache.entries ≡ some e
          → Matches here prompt cap none e.snapshot
          → snapshot_length e.snapshot ≤ snapshot_length s)
      × ((j : ℕ) → readers_of j d ≡ readers_of j published.cache + (if k == j then 1 else 0))
      × (d.pending_bytes ≡ published.cache.pending_bytes)
      × (d.pending_entries ≡ published.cache.pending_entries)
      × (d.epoch ≡ published.cache.epoch))
    ⊎ ((m : ℕ) × (acquire published.cache here prompt none true none
          ≡ done (record published.cache { misses = m }) none)
        × ((j : ℕ) (e : Entry)
            → get j published.cache.entries ≡ some e
            → ¬ Matches here prompt cap none e.snapshot))
acquire_lem_example = acquire_lem published.cache here prompt none true none published-Inv.sound

reserve_lem_example :
    (d : Cache) × (left : ℕ) × Evicts reading.cache d
    × (used_bytes d ≡ some left)
    × (((reserve reading.cache wanted ≡ done (granted d wanted) (some (new_reservation d wanted)))
          × (0 < wanted)
          × (left + d.pending_bytes + wanted ≤ d.budget_bytes)
          × (length d.entries + length d.retired + d.pending_entries < d.max_entries))
        ⊎ ((reserve reading.cache wanted ≡ done d none)
            × ((((wanted ≡ 0) ⊎ (reading.cache.budget_bytes < wanted)) × (d ≡ reading.cache))
                ⊎ ((0 < wanted)
                    × (wanted ≤ reading.cache.budget_bytes)
                    × (find_idle d.entries ≡ none)
                    × ((d.budget_bytes < left + d.pending_bytes + wanted)
                        ⊎ (d.max_entries
                            ≤ length d.entries + length d.retired + d.pending_entries))))))
reserve_lem_example = reserve_lem reading.cache wanted 1320 reading-Inv.sound read_used

publish_lem_example :
    (d : Cache) × (r' : Reservation) × (r'.active ≡ false)
    × ((j : ℕ) → readers_of j d + basis_weight j the_reservation ≡ readers_of j reserved.cache)
    × (d.pending_bytes ≡ reserved.cache.pending_bytes - the_reservation.size)
    × (d.pending_entries ≡ reserved.cache.pending_entries - 1)
    × (d.epoch ≡ reserved.cache.epoch)
    × ((IsPublishable reserved.cache the_reservation checkpoint true
          × (publish reserved.cache the_reservation checkpoint true
              ≡ done (d, r') (reserved.cache.next_id + 1))
          × Follows (stored reserved.cache checkpoint) d
          × ((j : ℕ)
              → live_snapshot j d ≡ (
                  if j == reserved.cache.next_id + 1
                  then some checkpoint
                  else live_snapshot j reserved.cache)))
        ⊎ ((¬ IsPublishable reserved.cache the_reservation checkpoint true)
            × ((x : Error) × (publish reserved.cache the_reservation checkpoint true
                  ≡ raised (d, r') x))
            × Follows reserved.cache d
            × ((j : ℕ) → live_snapshot j d ≡ live_snapshot j reserved.cache)))
publish_lem_example =
    publish_lem reserved.cache the_reservation checkpoint true reserved-Inv.sound refl tt

acquire-publish_example :
    (d' : Cache) × (k' : ℕ) × (s' : Snapshot) × (acquire published.cache checkpoint.namespace prompt
        none true none
      ≡ done d' (some (k', s')))
    × (s'.namespace ≡ checkpoint.namespace)
    × (s'.tokens.words ≡ checkpoint.tokens.words)
    × (s'.image_key ≡ checkpoint.image_key)
acquire-publish_example =
    acquire-publish reserved.cache published.cache the_reservation
      (record the_reservation { active = false }) checkpoint true true 1 prompt none
      reserved-Inv.sound refl tt published_done refl no_images
