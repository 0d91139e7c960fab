-- ===== src/Prefix/Close.antt =====
-- `PrefixReservation.close`: what a reservation gives back.
use qsa_hisparse.Prelude.{
  ℕ, ◌+◌, ◌-◌, ◌<◌, ◌≡◌, refl, true, false, none, some, ◌==◌, if◌then◌else◌, inl, inr, Option-cases,
  arith, done, Option, Bool-cases, Outcome-cases, get, get-put,
}
use qsa_hisparse.Prefix.Defs.{Cache, Reservation, Snapshot}
use qsa_hisparse.Prefix.Cache.{close_reservation, close_reader, release}
use qsa_hisparse.Prefix.Invariant.{Sound, readers_of}
use qsa_hisparse.Prefix.Moves.{Follows, release_lem, lower}

-- The reader that a reservation holds, if any, is open and counted.
abbrev pub BasisHeld : Cache → Reservation → Type 0
BasisHeld c r = elim r.basis [
  | none ↦ Unit {0}
  | some b ↦ (b.is_open ≡ true) × (0 < readers_of b.entry_id c)
]

-- The weight of a reservation's reader on an entry.
abbrev pub basis_weight : ℕ → Reservation → ℕ
basis_weight j r = elim r.basis [ none ↦ 0 | some b ↦ if b.entry_id == j then 1 else 0 ]

abbrev pub given_back : Cache → Reservation → Cache
given_back c r = record c {
  pending_bytes = c.pending_bytes - r.size;
  pending_entries = c.pending_entries - 1;
}

given_back-Sound : (c : Cache) (r : Reservation) → Sound c → Sound (given_back c r)
given_back-Sound c r v = record {
  unique = v.unique;
  unique_retired = v.unique_retired;
  apart = v.apart;
  known = v.known;
  pinned = v.pinned;
  aligned = v.aligned;
}

-- Closing a live reservation gives its bytes and its entry back and lets go of its reader.
pub close_reservation_lem :
    (c : Cache) (r : Reservation)
    → Sound c
    → r.active ≡ true
    → BasisHeld c r
    → (d : Cache) × (r' : Reservation) × (close_reservation c r ≡ done d r')
      × (r'.active ≡ false)
      × Follows c d
      × ((j : ℕ) → readers_of j d + basis_weight j r ≡ readers_of j c)
      × (d.pending_bytes ≡ c.pending_bytes - r.size)
      × (d.pending_entries ≡ c.pending_entries - 1)
      × (d.epoch ≡ c.epoch)
unfolding close_reservation close_reader
close_reservation_lem c r v live b = elim (Option-cases r.basis) [
  | inl alone ↦ (
    given_back c r,
    record r { active = false },
    ground arith,
    refl,
    record {
      sound = given_back-Sound c r v;
      fewer = λ f e. e;
      shorter = omega arith;
      same_budget = refl;
      same_limit = refl;
      same_id = refl;
      stays = λ k p q. refl;
    },
    (λ j. ground arith),
    refl,
    refl,
    refl,
  )
  | inr (reader, basis) ↦
      let h : (reader.is_open ≡ true) × (0 < readers_of reader.entry_id c) = ground arith in
      let (d, runs, follows, counts, bytes, entries, epochs) =
        release_lem (given_back c r) reader.entry_id (given_back-Sound c r v) h.1 in
      (
        d,
        record r { active = false; basis = some (record reader { is_open = false }) },
        ground arith,
        refl,
        record {
          sound = follows.sound;
          fewer = follows.fewer;
          shorter = follows.shorter;
          same_budget = follows.same_budget;
          same_limit = follows.same_limit;
          same_id = follows.same_id;
          stays = follows.stays;
        },
        (λ j. ground (arith, counts j)),
        bytes,
        entries,
        epochs,
      )
]

-- What a reader of the id would get.
abbrev pub live_snapshot : ℕ → Cache → Option Snapshot
live_snapshot k c = elim (get k c.entries) [ none ↦ none | some e ↦ some e.snapshot ]

-- A close takes no live entry away.
release-live_snapshot :
    (c d : Cache) (k j : ℕ) → release c k ≡ done d tt → live_snapshot j d ≡ live_snapshot j c
unfolding release
release-live_snapshot c d k j e = elim (Option-cases (get k c.entries)) [
  | inl gone ↦ elim (Option-cases (get k c.retired)) [
    | inl never ↦ absurd (ground arith)
    | inr (x, here) ↦ ground arith
  ]
  | inr (x, here) ↦ ground (arith, get-put k j (lower x) c.entries)
]

pub close_reservation-live_snapshot :
    (c d : Cache) (r r' : Reservation) (j : ℕ)
    → close_reservation c r ≡ done d r'
    → live_snapshot j d ≡ live_snapshot j c
unfolding close_reservation close_reader
close_reservation-live_snapshot c d r r' j e = elim (Bool-cases r.active) [
  | inr closed ↦ ground arith
  | inl live ↦ elim (Option-cases r.basis) [
    | inl alone ↦ ground arith
    | inr (b, basis) ↦ elim (Bool-cases b.is_open) [
      | inr shut ↦ ground arith
      | inl open_ ↦ elim (Outcome-cases (release (given_back c r) b.entry_id)) [
        | inr (x, y, bad) ↦ absurd (ground arith)
        | inl (x, y, runs) ↦
            let same : live_snapshot j x ≡ live_snapshot j c =
              release-live_snapshot (given_back c r) x b.entry_id j runs in
            ground arith
      ]
    ]
  ]
]
