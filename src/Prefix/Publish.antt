-- ===== src/Prefix/Publish.antt =====
-- `publish`: what a checkpoint must be, and what a refused one leaves behind.
use qsa_hisparse.Prelude.{
  ℕ, ◌+◌, ◌-◌, ◌/◌, ◌%◌, ◌≤◌, ◌<◌, ◌≡◌, ◌∙◌, Bool, true, false, some, List, [], ◌∷◌, ◌++◌, inl, inr,
  Option-cases, arith, put, get-put, Unique-put, ◌⊎◌, get_elem?, done, raised, Outcome-cases, ◌==◌,
  if◌then◌else◌,
}
use qsa_hisparse.Prefix.Defs.{Snapshot, Segment, Entry, Cache, Error, Reservation, snapshot_length}
use qsa_hisparse.Prefix.Cache.{
  used_bytes, footprint, check_segments, store, publish, close_reservation,
}
use qsa_hisparse.Prefix.Invariant.{Sound, IsAligned, readers_of, held}
use qsa_hisparse.Prefix.Moves.{Follows}
use qsa_hisparse.Prefix.Close.{
  BasisHeld, basis_weight, close_reservation_lem, live_snapshot, close_reservation-live_snapshot,
}

-- Segments that follow one another from `stop` to `last` in whole pages, with as many rows of raw
-- bytes as tokens, and one index row to four tokens.
abbrev pub Covers : ℕ → List Segment → ℕ → Type 0
Covers stop [] last = stop ≡ last
Covers stop (s ∷ ss) last =
    (s.start ≡ stop)
    × (stop < s.stop)
    × (s.stop % 64 ≡ 0)
    × (get_elem? s.raw.shape 2 ≡ some (s.stop - stop))
    × (get_elem? s.index.shape 1 ≡ some ((s.stop - stop) / 4))
    × Covers s.stop ss last

check_segments-Covers :
    (stop last : ℕ) (ss : List Segment)
    → check_segments stop ss ≡ done tt last
    → Covers stop ss last
unfolding check_segments
check_segments-Covers stop last [] e = ground arith
check_segments-Covers stop last (s ∷ ss) e = elim (Option-cases (get_elem? s.raw.shape 2)) [
  | inl gone ↦ absurd (ground arith)
  | inr (n, raw) ↦ elim (Option-cases (get_elem? s.index.shape 1)) [
    | inl gone ↦ absurd (ground arith)
    | inr (b, index) ↦ (
      ground arith,
      ground arith,
      ground arith,
      ground arith,
      ground arith,
      check_segments-Covers s.stop last ss (ground arith),
    )
  ]
]

Covers-check_segments :
    (stop last : ℕ) (ss : List Segment)
    → Covers stop ss last
    → check_segments stop ss ≡ done tt last
unfolding check_segments
Covers-check_segments stop last [] h = ground arith
Covers-check_segments stop last (s ∷ ss) h = ground (arith, Covers-check_segments s.stop last ss)

-- What `publish` accepts: a live reservation of this epoch, finished writes, a page-aligned
-- checkpoint whose segments cover it, host tensors, and no more new bytes than were reserved.
pub record IsPublishable (c : Cache) (r : Reservation) (s : Snapshot) (completed : Bool)
    : Type 0 where
  pub live : r.active ≡ true
  pub complete : completed ≡ true
  pub current : r.epoch ≡ c.epoch
  pub aligned : IsAligned s
  pub covered : Covers 0 s.segments (snapshot_length s)
  pub fits :
      (old : ℕ) × (all : ℕ) × (used_bytes c ≡ some old)
      × (footprint (held c ++ s ∷ []) ≡ some all)
      × (all - old ≤ r.size)

abbrev pub stored : Cache → Snapshot → Cache
stored c s = record c {
  next_id = c.next_id + 1;
  entries = put (c.next_id + 1) (record { snapshot = s; readers = 0 }) c.entries;
}

store-done :
    (c : Cache) (r : Reservation) (s : Snapshot) (completed : Bool)
    → r.active ≡ true
    → IsPublishable c r s completed
    → store c r s completed ≡ done (stored c s) (c.next_id + 1)
unfolding store
store-done c r s completed a h =
    ground (arith, h, Covers-check_segments 0 (snapshot_length s) s.segments h.covered)

pub store-IsPublishable :
    (c d : Cache) (r : Reservation) (s : Snapshot) (completed : Bool) (k : ℕ)
    → r.active ≡ true
    → store c r s completed ≡ done d k
    → IsPublishable c r s completed × (d ≡ stored c s) × (k ≡ c.next_id + 1)
unfolding store
store-IsPublishable c d r s completed k live e =
    elim (Outcome-cases (check_segments 0 s.segments)) [
      | inr (u, x, bad) ↦ absurd (ground arith)
      | inl (u, stop, good) ↦ elim (Option-cases (used_bytes c)) [
        | inl gone ↦ absurd (ground arith)
        | inr (old, used) ↦ elim (Option-cases (footprint (held c ++ s ∷ []))) [
          | inl gone ↦ absurd (ground arith)
          | inr (all, whole) ↦ (
            record {
              live = live;
              complete = ground arith;
              current = ground arith;
              aligned = ground arith;
              covered = check_segments-Covers 0 (snapshot_length s) s.segments (ground arith);
              fits = (old, all, used, whole, ground arith);
            },
            ground arith,
            ground arith,
          )
        ]
      ]
    ]

store_raised :
    (c d : Cache) (r : Reservation) (s : Snapshot) (completed : Bool) (x : Error)
    → store c r s completed ≡ raised d x
    → d ≡ c
unfolding store
store_raised c d r s completed x e = elim (Outcome-cases (check_segments 0 s.segments)) [
  | inr (u, y, bad) ↦ ground arith
  | inl (u, stop, good) ↦ ground arith
]

stored-Sound : (c : Cache) (s : Snapshot) → Sound c → IsAligned s → Sound (stored c s)
stored-Sound c s v a = record {
  unique = Unique-put (c.next_id + 1) fresh c.entries v.unique;
  unique_retired = v.unique_retired;
  apart =
      λ j x f. ground (arith, get-put (c.next_id + 1) j fresh c.entries, v.apart j x, v.known j);
  known = λ j f. ground (arith, get-put (c.next_id + 1) j fresh c.entries, v.known j);
  pinned = v.pinned;
  aligned = λ j x f. ground (arith, get-put (c.next_id + 1) j fresh c.entries, v.aligned j x, a);
}
  where
    fresh : Entry
    fresh = record { snapshot = s; readers = 0 }

pub stored-readers_of :
    (c : Cache) (s : Snapshot) (j : ℕ) → Sound c → readers_of j (stored c s) ≡ readers_of j c
stored-readers_of c s j v = ground (
  arith,
  get-put (c.next_id + 1) j (record { snapshot = s; readers = 0 }) c.entries,
  v.known (c.next_id + 1),
)

BasisHeld-stored :
    (c : Cache) (s : Snapshot) (r : Reservation)
    → Sound c
    → BasisHeld c r
    → BasisHeld (stored c s) r
BasisHeld-stored c s r v h = elim (Option-cases r.basis) [
  | inl alone ↦ ground arith
  | inr (b, basis) ↦ ground (arith, stored-readers_of c s b.entry_id v)
]

stored-live_snapshot :
    (c : Cache) (s : Snapshot) (j : ℕ)
    → live_snapshot j (stored c s) ≡ (if j == c.next_id + 1 then some s else live_snapshot j c)
stored-live_snapshot c s j =
    ground (arith, get-put (c.next_id + 1) j (record { snapshot = s; readers = 0 }) c.entries)

-- `publish` of a live reservation closes the reservation on every branch: its bytes and its entry are
-- given back, its reader is let go, and it is no longer active. Exactly when the checkpoint is
-- publishable it returns the next id, under which the checkpoint is live from then on, and under every
-- other id the same checkpoint is live as before; otherwise it raises, and the live checkpoints are the
-- same as before.
pub publish_lem :
    (c : Cache) (r : Reservation) (s : Snapshot) (completed : Bool)
    → Sound c
    → r.active ≡ true
    → BasisHeld c r
    → (d : Cache) × (r' : Reservation) × (r'.active ≡ false)
      × ((j : ℕ) → readers_of j d + basis_weight j r ≡ readers_of j c)
      × (d.pending_bytes ≡ c.pending_bytes - r.size)
      × (d.pending_entries ≡ c.pending_entries - 1)
      × (d.epoch ≡ c.epoch)
      × ((IsPublishable c r s completed
            × (publish c r s completed ≡ done (d, r') (c.next_id + 1))
            × Follows (stored c s) d
            × ((j : ℕ)
                → live_snapshot j d ≡ (if j == c.next_id + 1 then some s else live_snapshot j c)))
          ⊎ ((¬ IsPublishable c r s completed)
              × ((x : Error) × (publish c r s completed ≡ raised (d, r') x))
              × Follows c d
              × ((j : ℕ) → live_snapshot j d ≡ live_snapshot j c)))
unfolding publish
publish_lem c r s completed v live b = elim (Outcome-cases (store c r s completed)) [
  | inl (c', k, good) ↦
      let (ok, same, id) = store-IsPublishable c c' r s completed k live good in
      let (d, r', runs, dead, follows, counts, bytes, entries, epochs) =
        close_reservation_lem (stored c s) r (stored-Sound c s v ok.aligned) live
          (BasisHeld-stored c s r v b) in
      (
        d,
        r',
        dead,
        (λ j. counts j ∙ stored-readers_of c s j v),
        bytes,
        entries,
        epochs,
        inl (
          ok,
          publishes c' k good same id runs,
          follows,
          λ j.
              close_reservation-live_snapshot (stored c s) d r r' j runs
              ∙ stored-live_snapshot c s j,
        ),
      )
  | inr (c', x, bad) ↦
      let (d, r', runs, dead, follows, counts, bytes, entries, epochs) =
        close_reservation_lem c r v live b in
      (
        d,
        r',
        dead,
        counts,
        bytes,
        entries,
        epochs,
        inr (
          (λ ok. absurd (clash (store-done c r s completed live ok) bad)),
          (x, fails c' x bad (store_raised c c' r s completed x bad) runs),
          follows,
          λ j. close_reservation-live_snapshot c d r r' j runs,
        ),
      )
]
  where
    publishes :
        {d : Cache} {r' : Reservation} (c' : Cache) (k : ℕ)
        → store c r s completed ≡ done c' k
        → c' ≡ stored c s
        → k ≡ c.next_id + 1
        → close_reservation (stored c s) r ≡ done d r'
        → publish c r s completed ≡ done (d, r') (c.next_id + 1)
    publishes c' k good same id runs = ground (arith, live)

    fails :
        {d : Cache} {r' : Reservation} (c' : Cache) (x : Error)
        → store c r s completed ≡ raised c' x
        → c' ≡ c
        → close_reservation c r ≡ done d r'
        → publish c r s completed ≡ raised (d, r') x
    fails c' x bad same runs = ground (arith, live)

    clash :
        {c' : Cache} {x : Error}
        → store c r s completed ≡ done (stored c s) (c.next_id + 1)
        → store c r s completed ≡ raised c' x
        → ⊥
    clash e f = ground arith
