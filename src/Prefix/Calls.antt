-- ===== src/Prefix/Calls.antt =====
-- Each call of a caller keeps the invariant of the world.
use qsa_hisparse.Prelude.{
  ℕ, ◌+◌, ◌<◌, ◌≡◌, refl, ◌∙◌, false, some, ◌==◌, if◌then◌else◌, inl, inr, Bool-cases, Option-cases,
  arith, Dict, get, put, del, get-put, get-del, Unique-put, Unique-del, weigh, weigh-put_new,
  weigh-put, weigh-del, length-put_new, length-put, done,
}
use qsa_hisparse.Prefix.Defs.{Cache, Reader, Reservation}
use qsa_hisparse.Prefix.Cache.{close_reader, used_bytes}
use qsa_hisparse.Prefix.Invariant.{Sound, readers_of}
use qsa_hisparse.Prefix.Moves.{Follows, release_lem}
use qsa_hisparse.Prefix.Room.{reserve_lem, granted, new_reservation}
use qsa_hisparse.Prefix.Close.{basis_weight}
use qsa_hisparse.Prefix.World.{
  World, closes, reserves, attaches, open_reader, step, after_close, after_reserve, attach,
}
use qsa_hisparse.Prefix.Safety.{
  Fits, Inv, IsLive, reader_weight, size_weight, holders, Fits-Follows,
}

pub close_lem :
    (c : Cache) (k : ℕ)
    → Sound c
    → 0 < readers_of k c
    → (d : Cache) × (r : Reader) × (close_reader c (open_reader k) ≡ done d r)
      × Follows c d
      × ((j : ℕ) → readers_of j d + (if k == j then 1 else 0) ≡ readers_of j c)
      × (d.pending_bytes ≡ c.pending_bytes)
      × (d.pending_entries ≡ c.pending_entries)
unfolding close_reader
close_lem c k v h =
    let (d, runs, follows, counts, bytes, entries, epochs) = release_lem c k v h in
    (d, record { entry_id = k; is_open = false }, ground arith, follows, counts, bytes, entries)

pub closes-Inv : (w : World) (h : ℕ) → Inv w → Inv (step w (closes h))
unfolding step
closes-Inv w h v = elim (Option-cases (get h w.readers)) [
  | inl gone ↦ rw (gone, step) v
  | inr (k, here) ↦
      let weighed = λ (j : ℕ). weigh-del (reader_weight j) h k w.readers v.unique_readers here in
      let (d, r, runs, follows, counts, bytes, entries) =
        close_lem w.cache k v.sound (positive k (v.counted k) (weighed k)) in
      rw (here, step)
        (rw (runs, after_close)
          (record {
            sound = follows.sound;
            fits = Fits-Follows w.cache d v.fits follows (omega arith) (omega arith);
            unique_readers = Unique-del h w.readers v.unique_readers;
            unique_reservations = v.unique_reservations;
            counted = λ j. omega (arith, counts j, v.counted j, weighed j);
            pending_bytes = bytes ∙ v.pending_bytes;
            pending_entries = entries ∙ v.pending_entries;
            live = v.live;
            fresh = λ g le. ground (arith, get-del h g w.readers, v.fresh g);
          }))
]
  where
    positive :
        (k : ℕ)
        → readers_of k w.cache ≡ holders k w
        → weigh (reader_weight k) (del h w.readers) + reader_weight k k
          ≡ weigh (reader_weight k) w.readers
        → 0 < readers_of k w.cache
    positive k e f = ground arith

used_granted :
    (d : Cache) (size u : ℕ) → used_bytes d ≡ some u → used_bytes (granted d size) ≡ some u
unfolding used_bytes
used_granted d size u e = e

IsLive-put :
    (d : Cache) (size k h : ℕ) (x : Reservation) (m : Dict Reservation)
    → ((h : ℕ) (r : Reservation) → get h m ≡ some r → IsLive r)
    → get h (put k (new_reservation d size) m) ≡ some x
    → IsLive x
IsLive-put d size k h x m live e = elim (Bool-cases (k == h)) [
  | inl same ↦
      let new : x ≡ new_reservation d size =
        ground (arith, get-put k h (new_reservation d size) m) in
      rw new (refl, λ b f. absurd (ground arith))
  | inr other ↦ live h x (ground (arith, get-put k h (new_reservation d size) m))
]

pub reserves-Inv : (w : World) (size : ℕ) → Inv w → Inv (step w (reserves size))
unfolding step
reserves-Inv w size v =
    let (d, left, ev, measured, cases) =
      reserve_lem w.cache size v.fits.used v.sound v.fits.measured in
    let fits : Fits d =
      Fits-Follows w.cache d v.fits ev.follows (omega (arith, ev.same_bytes))
        (omega (arith, ev.same_entries)) in
    elim cases [
      | inr (refused, _) ↦
          rw (refused, after_reserve)
            (record {
              sound = ev.follows.sound;
              fits = fits;
              unique_readers = v.unique_readers;
              unique_reservations = v.unique_reservations;
              counted = λ j. ev.readers j ∙ v.counted j;
              pending_bytes = ev.same_bytes ∙ v.pending_bytes;
              pending_entries = ev.same_entries ∙ v.pending_entries;
              live = v.live;
              fresh = v.fresh;
            })
      | inl (runs, positive, room, places) ↦
          let absent = (v.fresh w.next_handle (omega arith)).1 in
          let r = new_reservation d size in
          rw (runs, after_reserve)
            (record {
              sound = record {
                unique = ev.follows.sound.unique;
                unique_retired = ev.follows.sound.unique_retired;
                apart = ev.follows.sound.apart;
                known = ev.follows.sound.known;
                pinned = ev.follows.sound.pinned;
                aligned = ev.follows.sound.aligned;
              };
              fits = record {
                used = left;
                measured = used_granted d size left measured;
                bytes = omega arith;
                entries = omega arith;
              };
              unique_readers = v.unique_readers;
              unique_reservations = Unique-put w.next_handle r w.reservations v.unique_reservations;
              counted = λ j. omega (
                arith,
                ev.readers j,
                v.counted j,
                weigh-put_new (basis_weight j) w.next_handle r w.reservations absent,
              );
              pending_bytes = omega (
                arith,
                ev.same_bytes,
                v.pending_bytes,
                weigh-put_new size_weight w.next_handle r w.reservations absent,
              );
              pending_entries = omega (
                arith,
                ev.same_entries,
                v.pending_entries,
                length-put_new w.next_handle r w.reservations absent,
              );
              live = λ h x e. IsLive-put d size w.next_handle h x w.reservations v.live e;
              fresh = λ h le. ground (arith, get-put w.next_handle h r w.reservations, v.fresh h);
            })
    ]

pub attaches-Inv : (w : World) (h g : ℕ) → Inv w → Inv (step w (attaches h g))
unfolding step attach
attaches-Inv w h g v = elim (Option-cases (get h w.readers)) [
  | inl gone ↦ rw (gone, step) v
  | inr (k, here) ↦ elim (Option-cases (get g w.reservations)) [
    | inl gone ↦ rw (here, gone, step) v
    | inr (r, found) ↦ elim (Option-cases r.basis) [
      | inr (b, taken) ↦ rw (here, found, taken, step, attach) v
      | inl free ↦
          let s : Reservation = record r { basis = some (open_reader k) } in
          rw (here, found, free, step, attach)
            (record {
              sound = v.sound;
              fits = v.fits;
              unique_readers = Unique-del h w.readers v.unique_readers;
              unique_reservations = Unique-put g s w.reservations v.unique_reservations;
              counted = λ j. ground (
                arith,
                v.counted j,
                weigh-del (reader_weight j) h k w.readers v.unique_readers here,
                weigh-put (basis_weight j) g s r w.reservations found,
              );
              pending_bytes =
                  omega (arith, v.pending_bytes, weigh-put size_weight g s r w.reservations found);
              pending_entries =
                  omega (arith, v.pending_entries, length-put g s r w.reservations found);
              live = λ n x e. elim (Bool-cases (g == n)) [
                | inl same ↦
                    let new : x ≡ s = ground (arith, get-put g n s w.reservations) in
                    rw new ((v.live g r found).0, λ b f. ground arith)
                | inr other ↦ v.live n x (ground (arith, get-put g n s w.reservations))
              ];
              fresh = λ n le. ground (
                arith,
                get-put g n s w.reservations,
                get-del h n w.readers,
                v.fresh n,
                v.fresh g,
              );
            })
    ]
  ]
]
