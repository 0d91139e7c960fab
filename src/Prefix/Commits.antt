-- ===== src/Prefix/Commits.antt =====
-- The calls that end a reservation or an epoch keep the invariant of the world.
use qsa_hisparse.Prelude.{
  ℕ, ◌+◌, ◌-◌, ◌≤◌, ◌≡◌, ◌∙◌, Bool, some, List, [], ◌∷◌, ◌++◌, inl, inr, Option-cases, arith, get,
  del, get-del, Unique-del, weigh, weigh-del, length, length-put_new, length-del,
}
use qsa_hisparse.Prefix.Defs.{Snapshot, Cache, Reservation}
use qsa_hisparse.Prefix.Cache.{publish, close_reservation, reset, used_bytes, snapshots}
use qsa_hisparse.Prefix.Space.{Fewer, any_snapshot-append, any_snapshot-put_new, footprint-eq}
use qsa_hisparse.Prefix.Invariant.{Sound, readers_of, held}
use qsa_hisparse.Prefix.Moves.{used_bytes_mono}
use qsa_hisparse.Prefix.Close.{BasisHeld, basis_weight, close_reservation_lem}
use qsa_hisparse.Prefix.Publish.{IsPublishable, stored, publish_lem}
use qsa_hisparse.Prefix.Reset.{reset_lem}
use qsa_hisparse.Prefix.World.{
  World, Call, acquires, closes, reserves, attaches, publishes, abandons, resets, step, run,
  after_publish, after_abandon,
}
use qsa_hisparse.Prefix.Safety.{Inv, size_weight, Fits-Follows, acquire-Inv}
use qsa_hisparse.Prefix.Calls.{closes-Inv, reserves-Inv, attaches-Inv}

stored-Fewer : (c : Cache) (s : Snapshot) → Sound c → Fewer (held (stored c s)) (held c ++ s ∷ [])
stored-Fewer c s v f e = ground (
  arith,
  any_snapshot-append f (held c) (s ∷ []),
  any_snapshot-append f (snapshots c.entries) (snapshots c.retired),
  any_snapshot-append f (snapshots (stored c s).entries) (snapshots c.retired),
  any_snapshot-put_new f (c.next_id + 1) (record { snapshot = s; readers = 0 }) c.entries,
  v.known (c.next_id + 1),
)

Fewer-stored : (c : Cache) (s : Snapshot) → Sound c → Fewer (held c ++ s ∷ []) (held (stored c s))
Fewer-stored c s v f e = ground (
  arith,
  any_snapshot-append f (held c) (s ∷ []),
  any_snapshot-append f (snapshots c.entries) (snapshots c.retired),
  any_snapshot-append f (snapshots (stored c s).entries) (snapshots c.retired),
  any_snapshot-put_new f (c.next_id + 1) (record { snapshot = s; readers = 0 }) c.entries,
  v.known (c.next_id + 1),
)

-- A stored checkpoint takes no more new bytes than its reservation holds.
pub stored-used :
    (c : Cache) (r : Reservation) (s : Snapshot) (completed : Bool) (used : ℕ)
    → Sound c
    → IsPublishable c r s completed
    → used_bytes c ≡ some used
    → (u : ℕ) × (used_bytes (stored c s) ≡ some u) × (u ≤ used + r.size)
unfolding used_bytes
stored-used c r s completed used v ok e =
    let (old, all, before, whole, le) = ok.fits in
    (
      all,
      footprint-eq (held (stored c s)) (held c ++ s ∷ []) (stored-Fewer c s v) (Fewer-stored c s v)
          ∙ whole,
      ground arith,
    )

module _ (w : World) (h : ℕ) (r : Reservation) (v : Inv w)
    (here : get h w.reservations ≡ some r) where
  weighed_basis :
      (j : ℕ)
      → weigh (basis_weight j) (del h w.reservations) + basis_weight j r
        ≡ weigh (basis_weight j) w.reservations
  weighed_basis j = weigh-del (basis_weight j) h r w.reservations v.unique_reservations here

  pub held_basis : BasisHeld w.cache r
  held_basis = elim (Option-cases r.basis) [
    | inl alone ↦ ground arith
    | inr (b, basis) ↦
        ground (arith, (v.live h r here).1 b basis, v.counted b.entry_id, weighed_basis b.entry_id)
  ]

  -- The world after a reservation was closed, whatever was stored before.
  ended-Inv :
      (d : Cache) (used : ℕ)
      → Sound d
      → d.budget_bytes ≡ w.cache.budget_bytes
      → d.max_entries ≡ w.cache.max_entries
      → used_bytes d ≡ some used
      → used ≤ v.fits.used + r.size
      → length d.entries + length d.retired ≤ length w.cache.entries + length w.cache.retired + 1
      → ((j : ℕ) → readers_of j d + basis_weight j r ≡ readers_of j w.cache)
      → d.pending_bytes ≡ w.cache.pending_bytes - r.size
      → d.pending_entries ≡ w.cache.pending_entries - 1
      → Inv (record w { cache = d; reservations = del h w.reservations })
  ended-Inv d used sound budget limit measured le places counts bytes entries =
      let sizes = weigh-del size_weight h r w.reservations v.unique_reservations here in
      let lengths = length-del h r w.reservations v.unique_reservations here in
      record {
        sound = sound;
        fits = record {
          used = used;
          measured = measured;
          bytes = omega (arith, v.fits.bytes, v.pending_bytes);
          entries = omega (arith, v.fits.entries, v.pending_entries);
        };
        unique_readers = v.unique_readers;
        unique_reservations = Unique-del h w.reservations v.unique_reservations;
        counted = λ j. omega (arith, counts j, v.counted j, weighed_basis j);
        pending_bytes = omega (arith, v.pending_bytes);
        pending_entries = omega (arith, v.pending_entries);
        live = λ n x e. v.live n x (ground (arith, get-del h n w.reservations));
        fresh = λ n le. ground (arith, get-del h n w.reservations, v.fresh n);
      }

  abandoned-Inv : Inv (after_abandon w h (close_reservation w.cache r))
  unfolding after_abandon
  abandoned-Inv =
      let (d, r', runs, dead, follows, counts, bytes, entries, epochs) =
        close_reservation_lem w.cache r v.sound (v.live h r here).0 held_basis in
      let (used, measured, le) =
        used_bytes_mono w.cache d v.fits.used follows.fewer v.fits.measured in
      rw runs (
        ended-Inv d used follows.sound follows.same_budget follows.same_limit measured (omega arith)
          (omega (arith, follows.shorter)) counts bytes entries)

  published-Inv :
      (s : Snapshot) (completed : Bool) → Inv (after_publish w h (publish w.cache r s completed))
  unfolding after_publish
  published-Inv s completed =
      let (d, r', dead, counts, bytes, entries, epochs, cases) =
        publish_lem w.cache r s completed v.sound (v.live h r here).0 held_basis in
      elim cases [
        | inr (_, (x, runs), follows, _) ↦
            let (used, measured, le) =
              used_bytes_mono w.cache d v.fits.used follows.fewer v.fits.measured in
            rw runs (
              ended-Inv d used follows.sound follows.same_budget follows.same_limit measured
                (omega arith) (omega (arith, follows.shorter)) counts bytes entries)
        | inl (ok, runs, follows, _) ↦
            let (whole, taken, more) =
              stored-used w.cache r s completed v.fits.used v.sound ok v.fits.measured in
            let (used, measured, le) =
              used_bytes_mono (stored w.cache s) d whole follows.fewer taken in
            let longer =
              length-put_new (w.cache.next_id + 1) (record { snapshot = s; readers = 0 })
                w.cache.entries (v.sound.known (w.cache.next_id + 1) (omega arith)).0 in
            rw runs (
              ended-Inv d used follows.sound follows.same_budget follows.same_limit measured
                (omega arith) (omega (arith, follows.shorter, longer)) counts bytes entries)
      ]

publishes-Inv :
    (w : World) (h : ℕ) (s : Snapshot) (completed : Bool)
    → Inv w
    → Inv (step w (publishes h s completed))
unfolding step
publishes-Inv w h s completed v = elim (Option-cases (get h w.reservations)) [
  | inl gone ↦ rw (gone, step) v
  | inr (r, here) ↦ rw (here, step) (published-Inv w h r v here s completed)
]

abandons-Inv : (w : World) (h : ℕ) → Inv w → Inv (step w (abandons h))
unfolding step
abandons-Inv w h v = elim (Option-cases (get h w.reservations)) [
  | inl gone ↦ rw (gone, step) v
  | inr (r, here) ↦ rw (here, step) (abandoned-Inv w h r v here)
]

resets-Inv : (w : World) → Inv w → Inv (step w resets)
unfolding step reset
resets-Inv w v =
    let (follows, epochs, empty, counts, kept) = reset_lem w.cache v.sound in
    record {
      sound = follows.sound;
      fits = Fits-Follows w.cache (reset w.cache) v.fits follows (omega arith) (omega arith);
      unique_readers = v.unique_readers;
      unique_reservations = v.unique_reservations;
      counted = λ j. counts j ∙ v.counted j;
      pending_bytes = v.pending_bytes;
      pending_entries = v.pending_entries;
      live = v.live;
      fresh = v.fresh;
    }

pub step-Inv : (w : World) (c : Call) → Inv w → Inv (step w c)
step-Inv w (acquires ns t limit counted i) v = acquire-Inv w ns t limit counted i v
step-Inv w (closes h) v = closes-Inv w h v
step-Inv w (reserves size) v = reserves-Inv w size v
step-Inv w (attaches h g) v = attaches-Inv w h g v
step-Inv w (publishes h s completed) v = publishes-Inv w h s completed v
step-Inv w (abandons h) v = abandons-Inv w h v
step-Inv w resets v = resets-Inv w v

pub run-Inv : (w : World) (cs : List Call) → Inv w → Inv (run w cs)
unfolding run
run-Inv w [] v = v
run-Inv w (c ∷ cs) v = run-Inv (step w c) cs (step-Inv w c v)
