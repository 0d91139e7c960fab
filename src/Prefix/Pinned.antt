-- ===== src/Prefix/Pinned.antt =====
-- What a reader holds stays as it is.
use qsa_hisparse.Prelude.{
  ℕ, ◌+◌, ◌<◌, ◌≡◌, refl, true, is_some, some, inl, inr, Option-cases, arith, get, get-put,
}
use qsa_hisparse.Prefix.Defs.{Snapshot, Cache}
use qsa_hisparse.Prefix.Invariant.{Sound, readers_of}
use qsa_hisparse.Prefix.Moves.{snapshot_of}
use qsa_hisparse.Prefix.Room.{reserve_lem}
use qsa_hisparse.Prefix.Close.{close_reservation_lem}
use qsa_hisparse.Prefix.Publish.{stored, publish_lem, stored-readers_of}
use qsa_hisparse.Prefix.Reset.{reset_lem}
use qsa_hisparse.Prefix.Acquire.{acquire_lem}
use qsa_hisparse.Prefix.World.{
  World, Call, acquires, closes, reserves, attaches, publishes, abandons, resets, step,
  after_acquire,
}
use qsa_hisparse.Prefix.Safety.{Inv}
use qsa_hisparse.Prefix.Commits.{step-Inv, held_basis}
use qsa_hisparse.Prefix.Calls.{close_lem}
use qsa_hisparse.Prefix.History.{reader_counted}

snapshot_of-stored :
    (c : Cache) (s : Snapshot) (k : ℕ)
    → Sound c
    → 0 < readers_of k c
    → snapshot_of k (stored c s) ≡ snapshot_of k c
snapshot_of-stored c s k v h = ground (
  arith,
  get-put (c.next_id + 1) k (record { snapshot = s; readers = 0 }) c.entries,
  v.known (c.next_id + 1),
)

step-snapshot_of :
    (w : World) (c : Call) (k : ℕ)
    → Inv w
    → 0 < readers_of k w.cache
    → 0 < readers_of k (step w c).cache
    → snapshot_of k (step w c).cache ≡ snapshot_of k w.cache
unfolding step
step-snapshot_of w (acquires ns t limit counted i) k v p q =
    elim (acquire_lem w.cache ns t limit counted i v.sound) [
      | inr (m, runs, _) ↦ rw (runs, after_acquire) refl
      | inl (d, j, s, runs, follows, _, _, _, counts, bytes, entries, epochs) ↦
          rw (runs, after_acquire) (follows.stays k p (rw (runs, after_acquire) at q))
    ]
step-snapshot_of w (closes h) k v p q = elim (Option-cases (get h w.readers)) [
  | inl gone ↦ rw (gone, step) refl
  | inr (j, here) ↦
      let (d, r, runs, follows, _, _, _) =
        close_lem w.cache j v.sound (reader_counted w h j v here) in
      ground (arith, follows.stays k)
]
step-snapshot_of w (reserves size) k v p q =
    let (d, left, ev, measured, cases) =
      reserve_lem w.cache size v.fits.used v.sound v.fits.measured in
    ground (arith, ev.follows.stays k p)
step-snapshot_of w (attaches h g) k v p q = ground arith
step-snapshot_of w (publishes h s completed) k v p q = elim (Option-cases (get h w.reservations)) [
  | inl gone ↦ rw (gone, step) refl
  | inr (r, here) ↦
      let (d, r', dead, counts, bytes, entries, epochs, cases) =
        publish_lem w.cache r s completed v.sound (v.live h r here).0 (held_basis w h r v here) in
      elim cases [
        | inr (_, (x, runs), follows, _) ↦ ground (arith, follows.stays k)
        | inl (ok, runs, follows, _) ↦ ground (
          arith,
          follows.stays k,
          snapshot_of-stored w.cache s k v.sound p,
          stored-readers_of w.cache s k v.sound,
        )
      ]
]
step-snapshot_of w (abandons h) k v p q = elim (Option-cases (get h w.reservations)) [
  | inl gone ↦ rw (gone, step) refl
  | inr (r, here) ↦
      let (d, r', runs, dead, follows, counts, bytes, entries, epochs) =
        close_reservation_lem w.cache r v.sound (v.live h r here).0 (held_basis w h r v here) in
      ground (arith, follows.stays k)
]
step-snapshot_of w resets k v p q = (reset_lem w.cache v.sound).0.stays k p q

-- Any call leaves the snapshot of an id alone that the same caller still reads afterwards: neither an
-- eviction, nor a reset, nor a publication, nor another reader's close takes it away or exchanges it.
pub step_keeps_pinned :
    (w : World) (c : Call) (h k : ℕ)
    → Inv w
    → get h w.readers ≡ some k
    → get h (step w c).readers ≡ some k
    → (snapshot_of k (step w c).cache ≡ snapshot_of k w.cache)
      × (is_some (snapshot_of k w.cache) ≡ true)
step_keeps_pinned w c h k v here there =
    let before = reader_counted w h k v here in
    let later = reader_counted (step w c) h k (step-Inv w c v) there in
    (step-snapshot_of w c k v before later, ground arith)
