-- ===== src/Prefix/History.antt =====
-- What holds after any history of calls on a new cache.
use qsa_hisparse.Prelude.{
  ℕ, ◌+◌, ◌≤◌, ◌<◌, ◌≡◌, refl, ◌∙◌, false, some, List, [], ◌∷◌, inl, inr, Option-cases, arith, get,
  weigh, weigh-del, length, done,
}
use qsa_hisparse.Prefix.Defs.{Cache, Reader}
use qsa_hisparse.Prefix.Cache.{
  close_reader, used_bytes, init, footprint, snapshots, are_host, bytes_of,
}
use qsa_hisparse.Prefix.Invariant.{Sound, readers_of}
use qsa_hisparse.Prefix.Moves.{Follows, release_lem}
use qsa_hisparse.Prefix.Room.{reserve_lem}
use qsa_hisparse.Prefix.Close.{close_reservation_lem}
use qsa_hisparse.Prefix.Publish.{publish_lem}
use qsa_hisparse.Prefix.Reset.{reset_lem}
use qsa_hisparse.Prefix.Acquire.{acquire_lem}
use qsa_hisparse.Prefix.World.{
  World, Call, acquires, closes, reserves, attaches, publishes, abandons, resets, open_reader, step,
  run, start, after_acquire, after_close, after_reserve, after_publish, after_abandon,
}
use qsa_hisparse.Prefix.Safety.{Inv, reader_weight, size_weight}
use qsa_hisparse.Prefix.Commits.{step-Inv, run-Inv, held_basis}
use qsa_hisparse.Prefix.Calls.{close_lem}

pub start-Inv :
    (budget limit page : ℕ) {c : Cache} → init budget limit page ≡ some c → Inv (start c)
unfolding init start used_bytes footprint are_host bytes_of snapshots get
start-Inv budget limit page {c} e = record {
  sound = record {
    unique = ground arith;
    unique_retired = ground arith;
    apart = λ k x f. absurd (ground arith);
    known = λ k f. ground arith;
    pinned = λ k x f. absurd (ground arith);
    aligned = λ k x f. absurd (ground arith);
  };
  fits = record { used = 0; measured = ground arith; bytes = ground arith; entries = ground arith };
  unique_readers = tt;
  unique_reservations = tt;
  counted = λ j. ground arith;
  pending_bytes = ground arith;
  pending_entries = ground arith;
  live = λ h r f. absurd (ground arith);
  fresh = λ h f. (refl, refl);
}

-- The limits of a cache.
pub record SameLimits (c d : Cache) : Type 0 where
  pub budget : d.budget_bytes ≡ c.budget_bytes
  pub limit : d.max_entries ≡ c.max_entries

Follows-SameLimits : {c d : Cache} → Follows c d → SameLimits c d
Follows-SameLimits h = record { budget = h.same_budget; limit = h.same_limit }

-- A reader that a caller holds is counted by the cache.
pub reader_counted :
    (w : World) (h k : ℕ) → Inv w → get h w.readers ≡ some k → 0 < readers_of k w.cache
reader_counted w h k v here =
    ground (arith, v.counted k, weigh-del (reader_weight k) h k w.readers v.unique_readers here)

step-SameLimits : (w : World) (c : Call) → Inv w → SameLimits w.cache (step w c).cache
unfolding step
step-SameLimits w (acquires ns t limit counted i) v =
    elim (acquire_lem w.cache ns t limit counted i v.sound) [
      | inr (m, runs, _) ↦ rw (runs, after_acquire) (record { budget = refl; limit = refl })
      | inl (d, k, s, runs, follows, _, _, _, counts, bytes, entries, epochs) ↦
          rw (runs, after_acquire) (Follows-SameLimits follows)
    ]
step-SameLimits w (closes h) v = elim (Option-cases (get h w.readers)) [
  | inl gone ↦ rw (gone, step) (record { budget = refl; limit = refl })
  | inr (k, here) ↦
      let (d, r, runs, follows, _, _, _) =
        close_lem w.cache k v.sound (reader_counted w h k v here) in
      rw (here, step) (rw (runs, after_close) (Follows-SameLimits follows))
]
step-SameLimits w (reserves size) v =
    let (d, left, ev, measured, cases) =
      reserve_lem w.cache size v.fits.used v.sound v.fits.measured in
    elim cases [
      | inr (refused, _) ↦ rw (refused, after_reserve) (Follows-SameLimits ev.follows)
      | inl (runs, _, _, _) ↦
          rw (runs, after_reserve)
            (record { budget = ev.follows.same_budget; limit = ev.follows.same_limit })
    ]
step-SameLimits w (attaches h g) v = record { budget = ground arith; limit = ground arith }
step-SameLimits w (publishes h s completed) v = elim (Option-cases (get h w.reservations)) [
  | inl gone ↦ rw (gone, step) (record { budget = refl; limit = refl })
  | inr (r, here) ↦
      let (d, r', dead, counts, bytes, entries, epochs, cases) =
        publish_lem w.cache r s completed v.sound (v.live h r here).0 (held_basis w h r v here) in
      elim cases [
        | inr (_, (x, runs), follows, _) ↦
            rw (here, step) (rw (runs, after_publish) (Follows-SameLimits follows))
        | inl (ok, runs, follows, _) ↦
            rw (here, step)
              (rw (runs, after_publish)
                (record { budget = follows.same_budget; limit = follows.same_limit }))
      ]
]
step-SameLimits w (abandons h) v = elim (Option-cases (get h w.reservations)) [
  | inl gone ↦ rw (gone, step) (record { budget = refl; limit = refl })
  | inr (r, here) ↦
      let (d, r', runs, dead, follows, counts, bytes, entries, epochs) =
        close_reservation_lem w.cache r v.sound (v.live h r here).0 (held_basis w h r v here) in
      rw (here, step) (rw (runs, after_abandon) (Follows-SameLimits follows))
]
step-SameLimits w resets v = Follows-SameLimits (reset_lem w.cache v.sound).0

run-SameLimits : (w : World) (cs : List Call) → Inv w → SameLimits w.cache (run w cs).cache
unfolding run
run-SameLimits w [] v = record { budget = refl; limit = refl }
run-SameLimits w (c ∷ cs) v =
    let h = step-SameLimits w c v in
    let t = run-SameLimits (step w c) cs (step-Inv w c v) in
    record { budget = t.budget ∙ h.budget; limit = t.limit ∙ h.limit }

init_limits :
    (budget limit page : ℕ) {c : Cache}
    → init budget limit page ≡ some c
    → (c.budget_bytes ≡ budget) × (c.max_entries ≡ limit)
unfolding init
init_limits budget limit page e = (ground arith, ground arith)

close_reader_closed :
    (c : Cache) (k : ℕ)
    → Sound c
    → 0 < readers_of k c
    → (d : Cache) × (x : Reader) × (close_reader c (open_reader k) ≡ done d x) × (x.is_open ≡ false)
unfolding close_reader
close_reader_closed c k v h =
    let (d, runs, _, _, _, _, _) = release_lem c k v h in
    (d, record { entry_id = k; is_open = false }, ground arith, refl)

-- Whatever calls the callers make on a new cache, and in whatever order, the footprint of all live and
-- retired checkpoints can be measured, it and the bytes of the live reservations together stay within
-- the budget given to the constructor, and the live entries, the retired ones and the live
-- reservations stay within the entry limit.
pub run_within_budget :
    (budget limit page : ℕ) (cs : List Call) {c : Cache}
    → init budget limit page ≡ some c
    → let w = run (start c) cs in
      (used : ℕ) × (used_bytes w.cache ≡ some used)
      × (used + weigh size_weight w.reservations ≤ budget)
      × (length w.cache.entries + length w.cache.retired + length w.reservations ≤ limit)
unfolding start
run_within_budget budget limit page cs {c} e =
    let v = run-Inv (start c) cs (start-Inv budget limit page e) in
    let s = run-SameLimits (start c) cs (start-Inv budget limit page e) in
    let (b, l) = init_limits budget limit page e in
    (
      v.fits.used,
      v.fits.measured,
      omega (arith, v.fits.bytes, v.pending_bytes, s.budget, b),
      omega (arith, v.fits.entries, v.pending_entries, s.limit, l),
    )

-- In no history does the close of a reader fail: for a reader that a caller holds there is an entry,
-- in one of the two tables, with a positive count, and closing it returns a closed reader. So the key
-- error and the underflow of `_release` are never raised for it.
pub run_closes_readers :
    (budget limit page : ℕ) (cs : List Call) (h k : ℕ) {c : Cache}
    → init budget limit page ≡ some c
    → get h (run (start c) cs).readers ≡ some k
    → (d : Cache) × (x : Reader) × (close_reader (run (start c) cs).cache (open_reader k)
        ≡ done d x)
      × (x.is_open ≡ false)
run_closes_readers budget limit page cs h k {c} e here =
    let w = run (start c) cs in
    let v = run-Inv (start c) cs (start-Inv budget limit page e) in
    close_reader_closed w.cache k v.sound (reader_counted w h k v here)
