-- ===== src/Prefix/Moves.antt =====
-- What each method does to the tables: which entries stay, how many readers an id has, and that the
-- tables stay sound.
use qsa_hisparse.Prelude.{
  ℕ, ◌+◌, ◌-◌, ◌≤◌, ◌<◌, ◌≡◌, refl, false, ◌&&◌, Option, none, some, [], ◌∷◌, ◌==◌, if◌then◌else◌,
  inl, inr, Bool-cases, Option-cases, arith, Dict, get, put, del, get-put, get-del, Unique,
  Unique-put, Unique-del, length, length-put, length-del, ◌⊎◌, done,
}
use qsa_hisparse.Image.Defs.{Identity}
use qsa_hisparse.Prefix.Defs.{Snapshot, Entry, Cache, Bytes, Namespace}
use qsa_hisparse.Prefix.Cache.{snapshots, pin, used_bytes, scan, is_match, release, is_longer}
use qsa_hisparse.Prefix.Space.{
  any_snapshot-append, any_snapshot-put, Fewer, Fewer-del, footprint_mono,
}
use qsa_hisparse.Prefix.Invariant.{
  Sound, entry_of, readers_of, held, get-pin, Unique-pin, length-pin, Fewer-pin,
}

abbrev pub snapshot_of : ℕ → Cache → Option Snapshot
snapshot_of k c = elim (entry_of k c) [ none ↦ none | some e ↦ some e.snapshot ]

-- The tables of `d` hold nothing new beside those of `c`, and what readers hold is kept.
pub record Follows (c d : Cache) : Type 0 where
  pub sound : Sound d
  pub fewer : Fewer (held d) (held c)
  pub shorter : length d.entries + length d.retired ≤ length c.entries + length c.retired
  pub same_budget : d.budget_bytes ≡ c.budget_bytes
  pub same_limit : d.max_entries ≡ c.max_entries
  pub same_id : d.next_id ≡ c.next_id
  pub stays : (k : ℕ) → 0 < readers_of k c → 0 < readers_of k d → snapshot_of k d ≡ snapshot_of k c

pub scan-get :
    (ns : Namespace) (t : Bytes) (cap : ℕ) (i : Option Identity) (m : Dict Entry)
    (best : Option (ℕ × Snapshot)) (k : ℕ) (s : Snapshot)
    → Unique m
    → scan ns t cap i m best ≡ some (some (k, s))
    → (best ≡ some (k, s)) ⊎ ((e : Entry) × (get k m ≡ some e) × (e.snapshot ≡ s))
unfolding scan get
scan-get ns t cap i [] best k s u h = inl (ground arith)
scan-get ns t cap i ((j, x) ∷ m) best k s u h =
    elim (Option-cases (is_match ns t cap i x.snapshot)) [
      | inl bad ↦ absurd (ground arith)
      | inr (hit, here) ↦
          let next : Option (ℕ × Snapshot) =
            if hit && is_longer best x.snapshot then some (j, x.snapshot) else best in
          elim (scan-get ns t cap i m next k s u.1 (ground arith)) [
            | inr (e, found, same) ↦ inr (e, ground arith, same)
            | inl picked ↦ elim (Bool-cases (hit && is_longer best x.snapshot)) [
              | inl taken ↦ inr (x, ground arith, ground arith)
              | inr kept ↦ inl (ground arith)
            ]
          ]
    ]

-- A pinned entry counts one reader more, and nothing else changes.
module _ (c : Cache) (k : ℕ) (e : Entry) (v : Sound c) (here : get k c.entries ≡ some e) where
  pub pin-Follows :
      (h m : ℕ) → Follows c (record c { entries = pin k c.entries; hits = h; misses = m })
  pin-Follows h m = record {
    sound = record {
      unique = Unique-pin k e c.entries v.unique here;
      unique_retired = v.unique_retired;
      apart = λ j x f.
          ground (arith, get-pin k e c.entries v.unique here j, v.apart j x, v.apart k e here);
      known = λ j f. ground (arith, get-pin k e c.entries v.unique here j, v.known j f);
      pinned = v.pinned;
      aligned = λ j x f.
          ground (arith, get-pin k e c.entries v.unique here j, v.aligned j x, v.aligned k e here);
    };
    fewer = λ f g. ground (
      arith,
      any_snapshot-append f (snapshots (pin k c.entries)) (snapshots c.retired),
      any_snapshot-append f (snapshots c.entries) (snapshots c.retired),
      Fewer-pin k e c.entries v.unique here f,
    );
    shorter = omega (arith, length-pin k e c.entries v.unique here);
    same_budget = refl;
    same_limit = refl;
    same_id = refl;
    stays = λ j p q. ground (arith, get-pin k e c.entries v.unique here j);
  }

  pub pin-readers_of :
      (j : ℕ)
      → readers_of j (record c { entries = pin k c.entries })
        ≡ readers_of j c + (if k == j then 1 else 0)
  pin-readers_of j = ground (arith, get-pin k e c.entries v.unique here j)

-- One reader fewer.
abbrev pub lower : Entry → Entry
lower e = record e { readers = e.readers - 1 }

module _ (c : Cache) (k : ℕ) (e : Entry) (v : Sound c) (some_reader : 0 < e.readers) where
  -- A live entry that a reader leaves.
  lower-Follows :
      get k c.entries ≡ some e → Follows c (record c { entries = put k (lower e) c.entries })
  lower-Follows here = record {
    sound = record {
      unique = Unique-put k (lower e) c.entries v.unique;
      unique_retired = v.unique_retired;
      apart =
          λ j x f. ground (arith, get-put k j (lower e) c.entries, v.apart j x, v.apart k e here);
      known = λ j f. ground (arith, get-put k j (lower e) c.entries, v.known j f);
      pinned = v.pinned;
      aligned = λ j x f.
          ground (arith, get-put k j (lower e) c.entries, v.aligned j x, v.aligned k e here);
    };
    fewer = λ f g. ground (
      arith,
      any_snapshot-append f (snapshots (put k (lower e) c.entries)) (snapshots c.retired),
      any_snapshot-append f (snapshots c.entries) (snapshots c.retired),
      any_snapshot-put f k e (lower e) c.entries here refl,
    );
    shorter = omega (arith, length-put k (lower e) e c.entries here);
    same_budget = refl;
    same_limit = refl;
    same_id = refl;
    stays = λ j p q. ground (arith, get-put k j (lower e) c.entries);
  }

  -- A retired entry that a reader leaves to others.
  lower_retired-Follows :
      get k c.entries ≡ none
      → get k c.retired ≡ some e
      → (e.readers == 1) ≡ false
      → Follows c (record c { retired = put k (lower e) c.retired })
  lower_retired-Follows gone here others = record {
    sound = record {
      unique = v.unique;
      unique_retired = Unique-put k (lower e) c.retired v.unique_retired;
      apart = λ j x f. ground (arith, get-put k j (lower e) c.retired, v.apart j x);
      known = λ j f. ground (arith, get-put k j (lower e) c.retired, v.known j f);
      pinned = λ j x f. ground (arith, get-put k j (lower e) c.retired, v.pinned j x);
      aligned = v.aligned;
    };
    fewer = λ f g. ground (
      arith,
      any_snapshot-append f (snapshots c.entries) (snapshots (put k (lower e) c.retired)),
      any_snapshot-append f (snapshots c.entries) (snapshots c.retired),
      any_snapshot-put f k e (lower e) c.retired here refl,
    );
    shorter = omega (arith, length-put k (lower e) e c.retired here);
    same_budget = refl;
    same_limit = refl;
    same_id = refl;
    stays = λ j p q. ground (arith, get-put k j (lower e) c.retired);
  }

  -- The last reader of a retired entry leaves, and the entry goes.
  drop_retired-Follows :
      get k c.entries ≡ none
      → get k c.retired ≡ some e
      → Follows c (record c { retired = del k c.retired })
  drop_retired-Follows gone here = record {
    sound = record {
      unique = v.unique;
      unique_retired = Unique-del k c.retired v.unique_retired;
      apart = λ j x f. ground (arith, get-del k j c.retired, v.apart j x);
      known = λ j f. ground (arith, get-del k j c.retired, v.known j f);
      pinned = λ j x f. ground (arith, get-del k j c.retired, v.pinned j x);
      aligned = v.aligned;
    };
    fewer = λ f g. ground (
      arith,
      any_snapshot-append f (snapshots c.entries) (snapshots (del k c.retired)),
      any_snapshot-append f (snapshots c.entries) (snapshots c.retired),
      Fewer-del k c.retired f,
    );
    shorter = omega (arith, length-del k e c.retired v.unique_retired here);
    same_budget = refl;
    same_limit = refl;
    same_id = refl;
    stays = λ j p q. ground (arith, get-del k j c.retired);
  }

-- `_release` of an id that some reader holds returns, and takes one reader away.
pub release_lem :
    (c : Cache) (k : ℕ)
    → Sound c
    → 0 < readers_of k c
    → (d : Cache) × (release c k ≡ done d tt)
      × Follows c d
      × ((j : ℕ) → readers_of j d + (if k == j then 1 else 0) ≡ readers_of j c)
      × (d.pending_bytes ≡ c.pending_bytes)
      × (d.pending_entries ≡ c.pending_entries)
      × (d.epoch ≡ c.epoch)
unfolding release
release_lem c k v h = elim (Option-cases (get k c.entries)) [
  | inr (e, here) ↦ (
    record c { entries = put k (lower e) c.entries },
    ground arith,
    lower-Follows c k e v (ground arith) here,
    (λ j. ground (arith, get-put k j (lower e) c.entries)),
    refl,
    refl,
    refl,
  )
  | inl gone ↦ elim (Option-cases (get k c.retired)) [
    | inl never ↦ absurd (ground arith)
    | inr (e, here) ↦ elim (Bool-cases (e.readers == 1)) [
      | inl last ↦ (
        record c { retired = del k c.retired },
        ground arith,
        drop_retired-Follows c k e v (ground arith) gone here,
        (λ j. ground (arith, get-del k j c.retired)),
        refl,
        refl,
        refl,
      )
      | inr others ↦ (
        record c { retired = put k (lower e) c.retired },
        ground arith,
        lower_retired-Follows c k e v (ground arith) gone here others,
        (λ j. ground (arith, get-put k j (lower e) c.retired)),
        refl,
        refl,
        refl,
      )
    ]
  ]
]

pub used_bytes_mono :
    (c d : Cache) (u : ℕ)
    → Fewer (held d) (held c)
    → used_bytes c ≡ some u
    → (v : ℕ) × (used_bytes d ≡ some v) × (v ≤ u)
unfolding used_bytes
used_bytes_mono c d u h e = footprint_mono (held d) (held c) u h e
