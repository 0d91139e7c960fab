-- ===== src/Prefix/Safety.antt =====
-- Whatever the callers do, the host bytes stay within the budget, and no count goes wrong.
use qsa_hisparse.Prelude.{
  ℕ, ◌+◌, ◌≤◌, ◌≡◌, ◌∙◌, Bool, true, Option, none, some, ◌==◌, if◌then◌else◌, inl, inr, arith, get,
  get-put, Unique, Unique-put, weigh, weigh-put_new, length,
}
use qsa_hisparse.Image.Defs.{Identity}
use qsa_hisparse.Prefix.Defs.{Cache, Bytes, Namespace, Reader, Reservation}
use qsa_hisparse.Prefix.Cache.{used_bytes}
use qsa_hisparse.Prefix.Invariant.{Sound, readers_of}
use qsa_hisparse.Prefix.Moves.{Follows, used_bytes_mono}
use qsa_hisparse.Prefix.Close.{basis_weight}
use qsa_hisparse.Prefix.Acquire.{acquire_lem}
use qsa_hisparse.Prefix.World.{World, acquires, step, after_acquire}

-- The bytes in use and reserved fit the budget, and so do the entries.
pub record Fits (c : Cache) : Type 0 where
  pub used : ℕ
  pub measured : used_bytes c ≡ some used
  pub bytes : used + c.pending_bytes ≤ c.budget_bytes
  pub entries : length c.entries + length c.retired + c.pending_entries ≤ c.max_entries

abbrev pub reader_weight : ℕ → ℕ → ℕ
reader_weight j k = if k == j then 1 else 0

abbrev pub size_weight : Reservation → ℕ
size_weight r = r.size

-- The readers of an id are those that the callers hold.
abbrev pub holders : ℕ → World → ℕ
holders j w = weigh (reader_weight j) w.readers + weigh (basis_weight j) w.reservations

-- A reservation that a caller holds is live, and its reader is open.
abbrev pub IsLive : Reservation → Type 0
IsLive r = (r.active ≡ true) × ((b : Reader) → r.basis ≡ some b → b.is_open ≡ true)

pub record Inv (w : World) : Type 0 where
  pub sound : Sound w.cache
  pub fits : Fits w.cache
  pub unique_readers : Unique w.readers
  pub unique_reservations : Unique w.reservations
  pub counted : (j : ℕ) → readers_of j w.cache ≡ holders j w
  pub pending_bytes : w.cache.pending_bytes ≡ weigh size_weight w.reservations
  pub pending_entries : w.cache.pending_entries ≡ length w.reservations
  pub live : (h : ℕ) (r : Reservation) → get h w.reservations ≡ some r → IsLive r
  pub fresh : (h : ℕ) → w.next_handle ≤ h → (get h w.readers ≡ none) × (get h w.reservations ≡ none)

-- What a change of the cache has to keep for the callers to hold what they held.
pub Fits-Follows :
    (c d : Cache)
    → Fits c
    → Follows c d
    → d.pending_bytes ≤ c.pending_bytes
    → d.pending_entries ≤ c.pending_entries
    → Fits d
Fits-Follows c d f h b e =
    let (used, measured, le) = used_bytes_mono c d f.used h.fewer f.measured in
    record {
      used = used;
      measured = measured;
      bytes = omega (arith, h.same_budget, f.bytes);
      entries = omega (arith, h.same_limit, h.shorter, f.entries);
    }

used_misses :
    (c : Cache) (m u : ℕ) → used_bytes c ≡ some u → used_bytes (record c { misses = m }) ≡ some u
unfolding used_bytes
used_misses c m u e = e

pub acquire-Inv :
    (w : World) (ns : Namespace) (t : Bytes) (limit : Option ℕ) (counted : Bool)
    (i : Option Identity)
    → Inv w
    → Inv (step w (acquires ns t limit counted i))
unfolding step
acquire-Inv w ns t limit counted i v = elim (acquire_lem w.cache ns t limit counted i v.sound) [
  | inr (m, runs, _) ↦
      rw (runs, after_acquire)
        (record {
          sound = record {
            unique = v.sound.unique;
            unique_retired = v.sound.unique_retired;
            apart = v.sound.apart;
            known = v.sound.known;
            pinned = v.sound.pinned;
            aligned = v.sound.aligned;
          };
          fits = record {
            used = v.fits.used;
            measured = same_used m;
            bytes = v.fits.bytes;
            entries = v.fits.entries;
          };
          unique_readers = v.unique_readers;
          unique_reservations = v.unique_reservations;
          counted = v.counted;
          pending_bytes = v.pending_bytes;
          pending_entries = v.pending_entries;
          live = v.live;
          fresh = v.fresh;
        })
  | inl (d, k, s, runs, follows, _, _, _, counts, bytes, entries, epochs) ↦
      let absent = (v.fresh w.next_handle (omega arith)).0 in
      rw (runs, after_acquire)
        (record {
          sound = follows.sound;
          fits = Fits-Follows w.cache d v.fits follows (omega arith) (omega arith);
          unique_readers = Unique-put w.next_handle k w.readers v.unique_readers;
          unique_reservations = v.unique_reservations;
          counted = λ j. omega (
            arith,
            counts j,
            v.counted j,
            weigh-put_new (reader_weight j) w.next_handle k w.readers absent,
          );
          pending_bytes = bytes ∙ v.pending_bytes;
          pending_entries = entries ∙ v.pending_entries;
          live = v.live;
          fresh = λ h le. ground (arith, get-put w.next_handle h k w.readers, v.fresh h);
        })
]
  where
    same_used : (m : ℕ) → used_bytes (record (w.cache) { misses = m }) ≡ some v.fits.used
    same_used m = used_misses w.cache m v.fits.used v.fits.measured
