-- ===== src/Prefix/Cache.antt =====
-- The methods of `HostPrefixCache`, `PrefixReader` and `PrefixReservation`.
mod Sizes
mod Matches
unfoldable pub use Sizes.*
unfoldable pub use Matches.*
use qsa_hisparse.Prelude.{
  ℕ, zero, suc, ◌+◌, ◌-◌, ◌*◌, ◌/◌, ◌%◌, ◌≤◌, ◌<◌, min, String, ◌≡◌, ◌↔◌, Bool, true, false, not,
  ◌&&◌, ◌||◌, Option, none, some, List, [], ◌∷◌, ◌++◌, ltb, leb, ◌==◌, if◌then◌else◌, is_some,
  length, get_elem?, arith, Dict, get, has, put, del, words_eq, starts_with, Outcome, done, raised,
  unless_error, and_then,
}
use qsa_hisparse.Image.Defs.{Identity, Key, key_eq}
use qsa_hisparse.Prefix.Defs.{
  Tensor, Bytes, Segment, Namespace, Snapshot, Entry, Cache, Reader, Reservation, Error, bad_budget,
  not_host, no_digest, underflow, key_error, index_error, no_reservation, incomplete, flushed_epoch,
  unaligned_checkpoint, segment_gap, raw_length, index_length, missing_pages, over_reservation,
  byte_length, token_count, snapshot_length, image_key, tensors, namespace_eq,
}

-- `__init__`
unfoldable pub init : ℕ → ℕ → ℕ → Option Cache
init budget_bytes max_entries page_size =
    if (budget_bytes == 0) || ((max_entries == 0) || not (page_size == 64))
    then none
    else some (record {
      budget_bytes = budget_bytes;
      max_entries = max_entries;
      entries = [];
      retired = [];
      pending_bytes = 0;
      pending_entries = 0;
      epoch = 0;
      next_id = 0;
      hits = 0;
      misses = 0;
      reused_tokens = 0;
      evictions = 0;
    })

-- `_evict_one`: the id of the first entry without readers.
unfoldable pub find_idle : Dict Entry → Option ℕ
find_idle [] = none
find_idle ((k, e) ∷ m) = let rest = find_idle m in if e.readers == 0 then some k else rest

unfoldable pub evict_one : Cache → Option Cache
unfolding find_idle
evict_one c = elim (find_idle c.entries) [
  | none ↦ none
  | some k ↦ some (record c { entries = del k c.entries; evictions = c.evictions + 1 })
]

unfoldable pub acquire :
    Cache
    → Namespace
    → Bytes
    → Option ℕ
    → Bool
    → Option Identity
    → Outcome Error Cache (Option (ℕ × Snapshot))
unfolding scan acquire_cap pin
acquire c ns tokens limit counted identity =
    elim (scan ns tokens (acquire_cap tokens limit identity) identity c.entries none) [
      | none ↦ raised c no_digest
      | some none ↦ done (record c { misses = if counted then c.misses + 1 else c.misses }) none
      | some (some (k, s)) ↦
          done
            (record c { entries = pin k c.entries; hits = if counted then c.hits + 1 else c.hits })
            (some (k, s))
    ]

-- `_release`
unfoldable pub release : Cache → ℕ → Outcome Error Cache (Unit {0})
release c k = elim (get k c.entries) [
  | some e ↦
      if e.readers == 0
      then raised c underflow
      else done (record c { entries = put k (record e { readers = e.readers - 1 }) c.entries }) tt
  | none ↦ elim (get k c.retired) [
    | none ↦ raised c key_error
    | some e ↦
        if e.readers == 0
        then raised c underflow
        else if e.readers == 1
        then done (record c { retired = del k c.retired }) tt
        else done (record c { retired = put k (record e { readers = e.readers - 1 }) c.retired }) tt
  ]
]

-- `PrefixReader.close`
unfoldable pub close_reader : Cache → Reader → Outcome Error Cache Reader
unfolding release
close_reader c r =
    if r.is_open
    then and_then (release c r.entry_id) (λ d _. done d (record r { is_open = false }))
    else done c r

-- `PrefixReservation.close`
unfoldable pub close_reservation : Cache → Reservation → Outcome Error Cache Reservation
unfolding close_reader
close_reservation c r =
    if r.active
    then (let d = record c {
      pending_bytes = c.pending_bytes - r.size;
      pending_entries = c.pending_entries - 1;
    } in
        let closed = record r { active = false } in
        elim r.basis [
          | none ↦ done d closed
          | some b ↦
              and_then (close_reader d b) λ d' b'. done d' (record closed { basis = some b' })
        ])
    else done c r

-- The condition of the loop in `reserve`.
abbrev pub is_crowded : Cache → ℕ → ℕ → Bool
is_crowded c used size =
    ltb c.budget_bytes (used + c.pending_bytes + size)
    || leb c.max_entries (length c.entries + length c.retired + c.pending_entries)

-- The loop of `reserve`, on fuel: each round evicts an entry. `raised` is the ValueError.
unfoldable pub make_room : ℕ → Cache → ℕ → Outcome Error Cache Bool
unfolding used_bytes
make_room zero c size = done c false
make_room (suc fuel) c size = elim (used_bytes c) [
  | none ↦ raised c not_host
  | some used ↦ elim (is_crowded c used size) [
    | false ↦ done c true
    | true ↦ elim (evict_one c) [ none ↦ done c false | some d ↦ make_room fuel d size ]
  ]
]

unfoldable pub reserve : Cache → ℕ → Outcome Error Cache (Option Reservation)
unfolding make_room
reserve c size =
    if (size == 0) || ltb c.budget_bytes size
    then done c none
    else and_then (make_room (suc (length c.entries)) c size) λ d room.
      (if room
        then done
            (record d {
              pending_bytes = d.pending_bytes + size;
              pending_entries = d.pending_entries + 1;
            })
            (some (record { size = size; epoch = d.epoch; active = true; basis = none }))
        else done d none)

-- The loop of `publish` over the segments: where the last one stops, or what is raised.
unfoldable pub check_segments : ℕ → List Segment → Outcome Error (Unit {0}) ℕ
check_segments stop [] = done tt stop
check_segments stop (s ∷ ss) =
    if not (s.start == stop) || (leb s.stop stop || not (s.stop % 64 == 0))
    then raised tt segment_gap
    else (elim (get_elem? s.raw.shape 2) [
      | none ↦ raised tt index_error
      | some raw_tokens ↦
          if not (raw_tokens == s.stop - stop)
          then raised tt raw_length
          else (elim (get_elem? s.index.shape 1) [
            | none ↦ raised tt index_error
            | some blocks ↦
                if not (blocks == (s.stop - stop) / 4)
                then raised tt index_length
                else check_segments s.stop ss
          ])
    ])

-- The `try` block of `publish`: the new cache and the entry's id, or what is raised.
unfoldable pub store : Cache → Reservation → Snapshot → Bool → Outcome Error Cache ℕ
unfolding check_segments
store c r s completed =
    if not completed
    then raised c incomplete
    else if not (r.epoch == c.epoch)
    then raised c flushed_epoch
    else if (snapshot_length s == 0) || not (snapshot_length s % 64 == 0)
    then raised c unaligned_checkpoint
    else (elim (check_segments 0 s.segments) [
      | raised _ e ↦ raised c e
      | done _ stop ↦
          if not (stop == snapshot_length s) then raised c missing_pages else (elim (used_bytes c) [
            | none ↦ raised c not_host
            | some old ↦ elim (footprint ((snapshots c.entries ++ snapshots c.retired) ++ s ∷ [])) [
              | none ↦ raised c not_host
              | some all ↦
                  if ltb r.size (all - old)
                  then raised c over_reservation
                  else done
                      (record c {
                        next_id = c.next_id + 1;
                        entries =
                            put (c.next_id + 1) (record { snapshot = s; readers = 0 }) c.entries;
                      })
                      (c.next_id + 1)
            ]
          ])
    ])

-- `publish`; the `finally` closes the reservation, also when the block raises. One cache made every
-- reservation. An error of the close replaces the outcome, as in Python.
unfoldable pub publish :
    Cache → Reservation → Snapshot → Bool → Outcome Error (Cache × Reservation) ℕ
unfolding store close_reservation
publish c r s completed =
    if not r.active then raised (c, r) no_reservation else (elim (store c r s completed) [
      | raised d e ↦ elim (close_reservation d r) [
        | done d' r' ↦ raised (d', r') e
        | raised d' e' ↦ raised (d', record r { active = false }) e'
      ]
      | done d k ↦ elim (close_reservation d r) [
        | done d' r' ↦ done (d', r') k
        | raised d' e' ↦ raised (d', record r { active = false }) e'
      ]
    ])

-- `retired.update(…)` by the entries that have readers.
unfoldable pub retire : Dict Entry → Dict Entry → Dict Entry
retire [] retired = retired
retire ((k, e) ∷ m) retired = retire m (if e.readers == 0 then retired else put k e retired)

unfoldable pub reset : Cache → Cache
unfolding retire
reset c = record c { epoch = c.epoch + 1; retired = retire c.entries c.retired; entries = [] }

-- `sum(e[1] for e in …)`
unfoldable pub sum_readers : Dict Entry → ℕ
sum_readers [] = 0
sum_readers ((k, e) ∷ m) = e.readers + sum_readers m

-- `stats`
pub record Stats : Type 0 where
  pub budget_bytes : ℕ
  pub host_bytes : ℕ
  pub pending_bytes : ℕ
  pub pending_entries : ℕ
  pub entries : ℕ
  pub readers : ℕ
  pub hits : ℕ
  pub misses : ℕ
  pub reused_tokens : ℕ
  pub evictions : ℕ
  pub epoch : ℕ

unfoldable pub stats : Cache → Option Stats
unfolding used_bytes sum_readers
stats c = elim (used_bytes c) [
  | none ↦ none
  | some used ↦ some (record {
    budget_bytes = c.budget_bytes;
    host_bytes = used;
    pending_bytes = c.pending_bytes;
    pending_entries = c.pending_entries;
    entries = length c.entries;
    readers = sum_readers c.entries + sum_readers c.retired;
    hits = c.hits;
    misses = c.misses;
    reused_tokens = c.reused_tokens;
    evictions = c.evictions;
    epoch = c.epoch;
  })
]
