-- ===== src/Prefix/Room.antt =====
-- `reserve`: which entries go, in which order, and what is true when it gives up.
use qsa_hisparse.Prelude.{
  ℕ, zero, suc, ◌+◌, ◌≤◌, ◌<◌, ◌≡◌, refl, sym, ◌∙◌, Bool, true, false, not, ◌||◌, none, some, [],
  ◌∷◌, ltb, ◌==◌, if◌then◌else◌, inl, inr, Bool-cases, Option-cases, arith, Dict, get, del, get-del,
  Unique, Unique-del, length, length-del, ◌⊎◌, del_absent, done,
}
use qsa_hisparse.Prefix.Defs.{Entry, Cache, Reservation}
use qsa_hisparse.Prefix.Cache.{
  snapshots, used_bytes, find_idle, evict_one, make_room, is_crowded, reserve,
}
use qsa_hisparse.Prefix.Space.{any_snapshot-append, Fewer, Fewer-del}
use qsa_hisparse.Prefix.Invariant.{Sound, readers_of, held}
use qsa_hisparse.Prefix.Moves.{Follows, snapshot_of, used_bytes_mono}

-- The entries without the first `n` that have no readers.
unfoldable pub without_idle : ℕ → Dict Entry → Dict Entry
without_idle n [] = []
without_idle zero ((k, e) ∷ m) = (k, e) ∷ m
without_idle (suc n) ((k, e) ∷ m) =
    if e.readers == 0 then without_idle n m else (k, e) ∷ without_idle (suc n) m

without_idle-zero : (m : Dict Entry) → without_idle 0 m ≡ m
unfolding without_idle
without_idle-zero [] = refl
without_idle-zero ((k, e) ∷ m) = refl

find_idle-get :
    (m : Dict Entry) (k : ℕ)
    → Unique m
    → find_idle m ≡ some k
    → (e : Entry) × (get k m ≡ some e) × (e.readers ≡ 0)
unfolding find_idle get
find_idle-get [] k u h = absurd (ground arith)
find_idle-get ((j, x) ∷ m) k u h = elim (Bool-cases (x.readers == 0)) [
  | inl idle ↦ (x, ground arith, ground arith)
  | inr busy ↦
      let (e, here, zero_readers) = find_idle-get m k u.1 (ground arith) in
      (e, ground arith, zero_readers)
]

-- Taking out the first idle entry is one step of `without_idle`.
without_idle-del :
    (m : Dict Entry) (k n : ℕ)
    → Unique m
    → find_idle m ≡ some k
    → without_idle n (del k m) ≡ without_idle (suc n) m
unfolding find_idle get del without_idle
without_idle-del [] k n u h = absurd (ground arith)
without_idle-del ((j, x) ∷ m) k zero u h = ground (
  arith,
  del_absent j m,
  without_idle-del m k zero u.1,
  without_idle-zero m,
  without_idle-zero (del k m),
  find_idle-get m k u.1,
)
without_idle-del ((j, x) ∷ m) k (suc n) u h =
    ground (arith, del_absent j m, without_idle-del m k (suc n) u.1, find_idle-get m k u.1)

-- `d` is `c` after some evictions of entries that nobody reads.
pub record Evicts (c d : Cache) : Type 0 where
  pub follows : Follows c d
  pub readers : (k : ℕ) → readers_of k d ≡ readers_of k c
  pub same_bytes : d.pending_bytes ≡ c.pending_bytes
  pub same_entries : d.pending_entries ≡ c.pending_entries
  pub same_epoch : d.epoch ≡ c.epoch
  pub same_retired : d.retired ≡ c.retired
  pub count : ℕ
  pub oldest : d.entries ≡ without_idle count c.entries

Evicts-refl : (c : Cache) → Sound c → Evicts c c
Evicts-refl c v = record {
  follows = record {
    sound = v;
    fewer = λ f e. e;
    shorter = omega arith;
    same_budget = refl;
    same_limit = refl;
    same_id = refl;
    stays = λ k p q. refl;
  };
  readers = λ k. refl;
  same_bytes = refl;
  same_entries = refl;
  same_epoch = refl;
  same_retired = refl;
  count = 0;
  oldest = sym (without_idle-zero c.entries);
}

-- One eviction.
module _ (c : Cache) (k : ℕ) (v : Sound c) (idle : find_idle c.entries ≡ some k) where
  abbrev evicted : Cache
  evicted = record c { entries = del k c.entries; evictions = c.evictions + 1 }

  evict-Sound : Sound evicted
  evict-Sound = record {
    unique = Unique-del k c.entries v.unique;
    unique_retired = v.unique_retired;
    apart = λ j x f. ground (arith, get-del k j c.entries, v.apart j x);
    known = λ j f. ground (arith, get-del k j c.entries, v.known j f);
    pinned = v.pinned;
    aligned = λ j x f. ground (arith, get-del k j c.entries, v.aligned j x);
  }

  evict-Fewer : Fewer (held evicted) (held c)
  evict-Fewer f g = ground (
    arith,
    any_snapshot-append f (snapshots (del k c.entries)) (snapshots c.retired),
    any_snapshot-append f (snapshots c.entries) (snapshots c.retired),
    Fewer-del k c.entries f,
  )

  evict-length : length (del k c.entries) + 1 ≡ length c.entries
  evict-length =
      let (e, here, zero_readers) = find_idle-get c.entries k v.unique idle in
      length-del k e c.entries v.unique here

  evict-readers : (j : ℕ) → readers_of j evicted ≡ readers_of j c
  evict-readers j =
      let (e, here, zero_readers) = find_idle-get c.entries k v.unique idle in
      ground (arith, get-del k j c.entries, v.apart k e here)

  evict-stays : (j : ℕ) → 0 < readers_of j c → snapshot_of j evicted ≡ snapshot_of j c
  evict-stays j p =
      let (e, here, zero_readers) = find_idle-get c.entries k v.unique idle in
      ground (arith, get-del k j c.entries)

  -- What follows from the evictions after this one.
  Evicts-step : {d : Cache} → Evicts evicted d → Evicts c d
  Evicts-step {d} r = record {
    follows = record {
      sound = r.follows.sound;
      fewer = λ f g. evict-Fewer f (r.follows.fewer f g);
      shorter = omega (arith, r.follows.shorter, evict-length);
      same_budget = r.follows.same_budget;
      same_limit = r.follows.same_limit;
      same_id = r.follows.same_id;
      stays = λ j p q. r.follows.stays j (omega (arith, evict-readers j)) q ∙ evict-stays j p;
    };
    readers = λ j. r.readers j ∙ evict-readers j;
    same_bytes = r.same_bytes;
    same_entries = r.same_entries;
    same_epoch = r.same_epoch;
    same_retired = r.same_retired;
    count = suc r.count;
    oldest = r.oldest ∙ without_idle-del c.entries k r.count v.unique idle;
  }

-- The loop ends within the entries that there are: either there is room, or no entry is idle.
pub make_room_lem :
    (fuel : ℕ) (c : Cache) (size used : ℕ)
    → Sound c
    → used_bytes c ≡ some used
    → length c.entries < fuel
    → (d : Cache) × (room : Bool) × (left : ℕ) × (make_room fuel c size ≡ done d room)
      × Evicts c d
      × (used_bytes d ≡ some left)
      × (room ≡ not (is_crowded d left size))
      × (room ≡ false → find_idle d.entries ≡ none)
unfolding make_room evict_one
make_room_lem zero c size used v e h = absurd (omega arith)
make_room_lem (suc fuel) c size used v e h = elim (Bool-cases (is_crowded c used size)) [
  | inr free ↦
      (c, true, used, ground arith, Evicts-refl c v, e, ground arith, λ f. absurd (ground arith))
  | inl full ↦ elim (Option-cases (find_idle c.entries)) [
    | inl busy ↦ (c, false, used, ground arith, Evicts-refl c v, e, ground arith, λ f. busy)
    | inr (k, idle) ↦
        let (w, used', le) = smaller k idle in
        let (d, room, left, runs, ev, has_left, why, out) =
          make_room_lem fuel (evicted c k v idle) size w (evict-Sound c k v idle) used'
            (omega (arith, evict-length c k v idle)) in
        (d, room, left, ground arith, Evicts-step c k v idle ev, has_left, why, out)
  ]
]
  where
    smaller :
        (k : ℕ) (idle : find_idle c.entries ≡ some k)
        → (w : ℕ) × (used_bytes (evicted c k v idle) ≡ some w) × (w ≤ used)
    smaller k idle = used_bytes_mono c (evicted c k v idle) used (evict-Fewer c k v idle) e

-- The cache after a grant.
abbrev pub granted : Cache → ℕ → Cache
granted d size = record d {
  pending_bytes = d.pending_bytes + size;
  pending_entries = d.pending_entries + 1;
}

abbrev pub new_reservation : Cache → ℕ → Reservation
new_reservation d size = record { size = size; epoch = d.epoch; active = true; basis = none }

-- `reserve` on a sound cache returns. It evicts only entries that nobody reads, the least recently
-- used first. It grants exactly when what is used, what is pending and the new bytes then fit the
-- budget, and the entries, the retired ones and the pending ones leave one free; it refuses a size
-- that is zero or above the budget and leaves the cache as it was, and any other only when no entry can
-- be evicted.
pub reserve_lem :
    (c : Cache) (size used : ℕ)
    → Sound c
    → used_bytes c ≡ some used
    → (d : Cache) × (left : ℕ) × Evicts c d
      × (used_bytes d ≡ some left)
      × (((reserve c size ≡ done (granted d size) (some (new_reservation d size)))
            × (0 < size)
            × (left + d.pending_bytes + size ≤ d.budget_bytes)
            × (length d.entries + length d.retired + d.pending_entries < d.max_entries))
          ⊎ ((reserve c size ≡ done d none)
              × ((((size ≡ 0) ⊎ (c.budget_bytes < size)) × (d ≡ c))
                  ⊎ ((0 < size)
                      × (size ≤ c.budget_bytes)
                      × (find_idle d.entries ≡ none)
                      × ((d.budget_bytes < left + d.pending_bytes + size)
                          ⊎ (d.max_entries
                              ≤ length d.entries + length d.retired + d.pending_entries))))))
unfolding reserve
reserve_lem c size used v e = elim (Bool-cases ((size == 0) || ltb c.budget_bytes size)) [
  | inl bad ↦ (c, used, Evicts-refl c v, e, inr (ground arith, inl (ground arith, refl)))
  | inr good ↦
      let (d, room, left, runs, ev, has_left, why, out) =
        make_room_lem (suc (length c.entries)) c size used v e (omega arith) in
      elim (Bool-cases room) [
        | inl free ↦
            (d, left, ev, has_left, inl (ground arith, ground arith, ground arith, ground arith))
        | inr full ↦ (
          d,
          left,
          ev,
          has_left,
          inr (ground arith, inr (ground arith, ground arith, out full, ground arith)),
        )
      ]
]
