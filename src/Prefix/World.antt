-- ===== src/Prefix/World.antt =====
-- The cache with everything that its callers hold: the open readers and the live reservations. A
-- caller may make any call at any time, with any arguments, on what it holds.
use qsa_hisparse.Prelude.{
  ℕ, ◌+◌, Bool, true, Option, none, some, List, [], ◌∷◌, Dict, get, put, del, Outcome, done, raised,
}
use qsa_hisparse.Image.Defs.{Identity}
use qsa_hisparse.Prefix.Defs.{Snapshot, Cache, Bytes, Namespace, Error, Reader, Reservation}
use qsa_hisparse.Prefix.Cache.{acquire, close_reader, reserve, publish, close_reservation, reset}

pub record World : Type 0 where
  pub cache : Cache
  pub readers : Dict ℕ
  pub reservations : Dict Reservation
  pub next_handle : ℕ

-- The calls of the callers. `attaches` is `reservation.basis_reader = reader` of a capture, which
-- hands the reader over to the reservation.
pub data Call : Type 0 where
  acquires : Namespace → Bytes → Option ℕ → Bool → Option Identity → Call
  closes : ℕ → Call
  reserves : ℕ → Call
  attaches : ℕ → ℕ → Call
  publishes : ℕ → Snapshot → Bool → Call
  abandons : ℕ → Call
  resets : Call

abbrev pub open_reader : ℕ → Reader
open_reader k = record { entry_id = k; is_open = true }

unfoldable pub after_acquire : World → Outcome Error Cache (Option (ℕ × Snapshot)) → World
after_acquire w (raised d e) = record w { cache = d }
after_acquire w (done d none) = record w { cache = d }
after_acquire w (done d (some (k, s))) = record w {
  cache = d;
  readers = put w.next_handle k w.readers;
  next_handle = w.next_handle + 1;
}

unfoldable pub after_close : World → ℕ → Outcome Error Cache Reader → World
after_close w h (raised d e) = record w { cache = d }
after_close w h (done d r) = record w { cache = d; readers = del h w.readers }

unfoldable pub after_reserve : World → Outcome Error Cache (Option Reservation) → World
after_reserve w (raised d e) = record w { cache = d }
after_reserve w (done d none) = record w { cache = d }
after_reserve w (done d (some r)) = record w {
  cache = d;
  reservations = put w.next_handle r w.reservations;
  next_handle = w.next_handle + 1;
}

unfoldable pub after_publish : World → ℕ → Outcome Error (Cache × Reservation) ℕ → World
after_publish w h (raised (d, r) e) = record w { cache = d; reservations = del h w.reservations }
after_publish w h (done (d, r) k) = record w { cache = d; reservations = del h w.reservations }

unfoldable pub after_abandon : World → ℕ → Outcome Error Cache Reservation → World
after_abandon w h (raised d e) = record w { cache = d }
after_abandon w h (done d r) = record w { cache = d; reservations = del h w.reservations }

unfoldable pub attach : World → ℕ → ℕ → ℕ → Reservation → World
attach w h g k r = elim r.basis [
  | some b ↦ w
  | none ↦ record w {
    readers = del h w.readers;
    reservations = put g (record r { basis = some (open_reader k) }) w.reservations;
  }
]

unfoldable pub step : World → Call → World
unfolding after_acquire after_close after_reserve after_publish after_abandon attach
step w (acquires ns t limit counted i) = after_acquire w (acquire w.cache ns t limit counted i)
step w (closes h) = elim (get h w.readers) [
  | none ↦ w
  | some k ↦ after_close w h (close_reader w.cache (open_reader k))
]
step w (reserves size) = after_reserve w (reserve w.cache size)
step w (attaches h g) = elim (get h w.readers) [
  | none ↦ w
  | some k ↦ elim (get g w.reservations) [ none ↦ w | some r ↦ attach w h g k r ]
]
step w (publishes h s completed) = elim (get h w.reservations) [
  | none ↦ w
  | some r ↦ after_publish w h (publish w.cache r s completed)
]
step w (abandons h) = elim (get h w.reservations) [
  | none ↦ w
  | some r ↦ after_abandon w h (close_reservation w.cache r)
]
step w resets = record w { cache = reset w.cache }

unfoldable pub run : World → List Call → World
run w [] = w
run w (c ∷ cs) = run (step w c) cs

unfoldable pub start : Cache → World
start c = record { cache = c; readers = []; reservations = []; next_handle = 0 }
