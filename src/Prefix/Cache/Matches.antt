-- ===== src/Prefix/Cache/Matches.antt =====
-- The search of `acquire` in prefix.py.
use qsa_hisparse.Prelude.{
  ℕ, ◌+◌, ◌*◌, min, Bool, true, false, ◌&&◌, Option, none, some, [], ◌∷◌, ◌++◌, ltb, leb,
  if◌then◌else◌, length, Dict, get, del, starts_with,
}
use qsa_hisparse.Image.Defs.{Identity, key_eq}
use qsa_hisparse.Prefix.Defs.{
  Bytes, Namespace, Snapshot, Entry, token_count, snapshot_length, image_key, namespace_eq,
}

-- The conditions of `acquire` on one entry; `none` is the ValueError of a missing image digest.
unfoldable pub is_match : Namespace → Bytes → ℕ → Option Identity → Snapshot → Option Bool
is_match ns tokens cap identity s =
    if namespace_eq s.namespace ns
      && (leb (snapshot_length s) cap && starts_with tokens.words s.tokens.words)
    then (elim (image_key identity (snapshot_length s)) [
      | none ↦ none
      | some key ↦ some (key_eq s.image_key key)
    ])
    else some false

abbrev pub is_longer : Option (ℕ × Snapshot) → Snapshot → Bool
is_longer none s = true
is_longer (some (k, b)) s = ltb (snapshot_length b) (snapshot_length s)

-- The loop of `acquire` over the entries.
unfoldable pub scan :
    Namespace
    → Bytes
    → ℕ
    → Option Identity
    → Dict Entry
    → Option (ℕ × Snapshot)
    → Option (Option (ℕ × Snapshot))
unfolding is_match
scan ns tokens cap identity [] best = some best
scan ns tokens cap identity ((k, e) ∷ m) best = elim (is_match ns tokens cap identity e.snapshot) [
  | none ↦ none
  | some hit ↦
      scan ns tokens cap identity m
        (if hit && is_longer best e.snapshot then some (k, e.snapshot) else best)
]

unfoldable pub acquire_cap : Bytes → Option ℕ → Option Identity → ℕ
acquire_cap tokens limit identity =
    let cap : ℕ = elim limit [ none ↦ token_count tokens | some n ↦ n ] in
    elim identity [ none ↦ cap | some i ↦ min cap (64 * length i.page_digests) ]

-- `self.entries[entry_id][1] += 1; self.entries.move_to_end(entry_id)`
unfoldable pub pin : ℕ → Dict Entry → Dict Entry
pin k m = elim (get k m) [
  | none ↦ m
  | some e ↦ del k m ++ (k, record e { readers = e.readers + 1 }) ∷ []
]
