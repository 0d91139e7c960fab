-- ===== src/Prefix/Invariant.antt =====
-- The invariant of the cache's two tables, and what the bookkeeping of readers says of an entry.
use qsa_hisparse.Prelude.{
  ℕ, ◌+◌, ◌%◌, ◌<◌, ◌≡◌, refl, Bool, ◌||◌, Option, none, some, List, [], ◌∷◌, ◌++◌, ◌==◌,
  if◌then◌else◌, arith, Dict, get, del, get-del, Unique, Unique-del, Unique-append_one,
  get-append_one, length, length-append, length-del,
}
use qsa_hisparse.Prefix.Defs.{Snapshot, Entry, Cache, snapshot_length}
use qsa_hisparse.Prefix.Cache.{snapshots, pin}
use qsa_hisparse.Prefix.Space.{any_snapshot, Fewer, Fewer-del, any_snapshot-get}

-- A checkpoint ends on a page of 64 tokens.
abbrev pub IsAligned : Snapshot → Type 0
IsAligned s = (0 < snapshot_length s) × (snapshot_length s % 64 ≡ 0)

pub record Sound (c : Cache) : Type 0 where
  pub unique : Unique c.entries
  pub unique_retired : Unique c.retired
  pub apart : (k : ℕ) (e : Entry) → get k c.entries ≡ some e → get k c.retired ≡ none
  pub known : (k : ℕ) → c.next_id < k → (get k c.entries ≡ none) × (get k c.retired ≡ none)
  pub pinned : (k : ℕ) (e : Entry) → get k c.retired ≡ some e → 0 < e.readers
  pub aligned : (k : ℕ) (e : Entry) → get k c.entries ≡ some e → IsAligned e.snapshot

-- The entry of an id, in either table.
abbrev pub entry_of : ℕ → Cache → Option Entry
entry_of k c = elim (get k c.entries) [ some e ↦ some e | none ↦ get k c.retired ]

abbrev pub readers_of : ℕ → Cache → ℕ
readers_of k c = elim (entry_of k c) [ none ↦ 0 | some e ↦ e.readers ]

abbrev pub held : Cache → List Snapshot
held c = snapshots c.entries ++ snapshots c.retired

snapshots-append :
    (f : Snapshot → Bool) (m n : Dict Entry)
    → any_snapshot f (snapshots (m ++ n))
      ≡ (any_snapshot f (snapshots m) || any_snapshot f (snapshots n))
unfolding snapshots
snapshots-append f [] n = refl
snapshots-append f ((k, e) ∷ m) n = ground (arith, snapshots-append f m n)

-- One more reader on an entry that moves to the end.
module _ (k : ℕ) (e : Entry) (m : Dict Entry) (u : Unique m) (here : get k m ≡ some e) where
  absent_after : get k (del k m) ≡ none
  absent_after = ground (arith, get-del k k m)

  pub get-pin :
      (j : ℕ)
      → get j (pin k m) ≡ (if k == j then some (record e { readers = e.readers + 1 }) else get j m)
  unfolding pin
  get-pin j = ground (
    arith,
    get-append_one j k (record e { readers = e.readers + 1 }) (del k m) absent_after,
    get-del k j m,
  )

  pub Unique-pin : Unique (pin k m)
  unfolding pin
  Unique-pin = ground (
    arith,
    Unique-append_one (del k m) k (record e { readers = e.readers + 1 }) (Unique-del k m u)
        absent_after,
  )

  pub length-pin : length (pin k m) ≡ length m
  unfolding pin
  length-pin = ground (
    arith,
    length-append (del k m) ((k, record e { readers = e.readers + 1 }) ∷ []),
    length-del k e m u here,
  )

  pub Fewer-pin : Fewer (snapshots (pin k m)) (snapshots m)
  unfolding pin snapshots
  Fewer-pin f h = ground (
    arith,
    snapshots-append f (del k m) ((k, record e { readers = e.readers + 1 }) ∷ []),
    Fewer-del k m f,
    any_snapshot-get f k e m here,
  )
