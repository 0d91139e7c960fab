-- ===== src/Prefix/Acquire.antt =====
-- `acquire`: the longest checkpoint that the request may reuse, or a miss.
use qsa_hisparse.Prelude.{
  ℕ, zero, suc, ◌+◌, ◌-◌, ◌/◌, ◌≤◌, ◌<◌, ◌≡◌, ◌↔◌, refl, Bool, true, false, ◌&&◌, Option, none,
  some, List, [], ◌∷◌, ◌++◌, ◌==◌, if◌then◌else◌, is_some, inl, inr, Option-cases, arith, Dict, get,
  Unique, length, ◌≢◌, ◌⊎◌, get_elem?, starts_with_iff, done,
}
use qsa_hisparse.Image.Defs.{Identity, key_eq_iff, key_at, digest_at}
use qsa_hisparse.Prefix.Defs.{
  Snapshot, Entry, Cache, Bytes, Namespace, snapshot_length, image_key, namespace_eq_iff,
}
use qsa_hisparse.Prefix.Cache.{pin, scan, is_match, acquire, acquire_cap, is_longer}
use qsa_hisparse.Prefix.Invariant.{Sound, IsAligned, readers_of}
use qsa_hisparse.Prefix.Moves.{Follows, pin-Follows, pin-readers_of, scan-get}

-- A checkpoint that a request may reuse: of its namespace, no longer than the cap, with tokens that
-- the request's begin with, and computed from the same images and positions.
pub record Matches (ns : Namespace) (t : Bytes) (cap : ℕ) (i : Option Identity) (s : Snapshot)
    : Type 0 where
  pub same_namespace : s.namespace ≡ ns
  pub short : snapshot_length s ≤ cap
  pub prefix : (rest : List ℕ) × (t.words ≡ s.tokens.words ++ rest)
  pub same_images : image_key i (snapshot_length s) ≡ some s.image_key

pub is_match_iff :
    (ns : Namespace) (t : Bytes) (cap : ℕ) (i : Option Identity) (s : Snapshot)
    → (is_match ns t cap i s ≡ some true) ↔ Matches ns t cap i s
unfolding is_match
is_match_iff ns t cap i s = (to, from)
  where
    to : is_match ns t cap i s ≡ some true → Matches ns t cap i s
    to e = elim (Option-cases (image_key i (snapshot_length s))) [
      | inl gone ↦ absurd (ground arith)
      | inr (key, here) ↦ record {
        same_namespace = ground (arith, namespace_eq_iff s.namespace ns);
        short = ground arith;
        prefix = (starts_with_iff t.words s.tokens.words).0 (ground arith);
        same_images = ground (arith, key_eq_iff s.image_key key);
      }
    ]

    from : Matches ns t cap i s → is_match ns t cap i s ≡ some true
    from h = ground (
      arith,
      namespace_eq_iff s.namespace ns,
      h.same_namespace,
      (starts_with_iff t.words s.tokens.words).1 h.prefix,
      key_eq_iff s.image_key s.image_key,
      h.same_images,
      h.short,
    )

get_elem?-some {ℓ} :
    {A : Type ℓ} (xs : List A) (k : ℕ) → k < length xs → is_some (get_elem? xs k) ≡ true
get_elem?-some [] k h = absurd (omega arith)
get_elem?-some (x ∷ xs) zero h = refl
get_elem?-some (x ∷ xs) (suc k) h = get_elem?-some xs k (omega arith)

-- An image key exists at every page boundary that the digests reach.
image_key-some :
    (i : Option Identity) (t : Bytes) (limit : Option ℕ) (s : Snapshot)
    → IsAligned s
    → snapshot_length s ≤ acquire_cap t limit i
    → is_some (image_key i (snapshot_length s)) ≡ true
unfolding image_key key_at digest_at acquire_cap
image_key-some none t limit s a h = refl
image_key-some (some i) t limit s a h =
    ground (arith, a, get_elem?-some i.page_digests (snapshot_length s / 64 - 1))

module _ (ns : Namespace) (t : Bytes) (cap : ℕ) (i : Option Identity) where
  -- What the loop has found once it is through: nothing fits better.
  scan-best :
      (m : Dict Entry) (best : Option (ℕ × Snapshot)) (k : ℕ) (s : Snapshot)
      → scan ns t cap i m best ≡ some (some (k, s))
      → ((b : Snapshot) → is_longer best b ≡ false → snapshot_length b ≤ snapshot_length s)
        × ((j : ℕ) (e : Entry)
            → get j m ≡ some e
            → is_match ns t cap i e.snapshot ≡ some true
            → snapshot_length e.snapshot ≤ snapshot_length s)
  unfolding scan get
  scan-best [] best k s h = ((λ b f. ground arith), (λ j e f g. absurd (ground arith)))
  scan-best ((n, x) ∷ m) best k s h = elim (Option-cases (is_match ns t cap i x.snapshot)) [
    | inl bad ↦ absurd (ground arith)
    | inr (hit, here) ↦
        let next : Option (ℕ × Snapshot) =
          if hit && is_longer best x.snapshot then some (n, x.snapshot) else best in
        let (kept, rest) = scan-best m next k s (ground arith) in
        (
          (λ b f. ground (arith, kept b, kept x.snapshot)),
          (λ j e f g. ground (arith, rest j e, kept e.snapshot)),
        )
  ]

  scan-hit :
      (m : Dict Entry) (best : Option (ℕ × Snapshot)) (k : ℕ) (s : Snapshot)
      → scan ns t cap i m best ≡ some (some (k, s))
      → (best ≡ some (k, s)) ⊎ (is_match ns t cap i s ≡ some true)
  unfolding scan
  scan-hit [] best k s h = inl (ground arith)
  scan-hit ((n, x) ∷ m) best k s h = elim (Option-cases (is_match ns t cap i x.snapshot)) [
    | inl bad ↦ absurd (ground arith)
    | inr (hit, here) ↦ ground (
      arith,
      scan-hit m (if hit && is_longer best x.snapshot then some (n, x.snapshot) else best) k s,
    )
  ]

  scan-miss :
      (m : Dict Entry) (best : Option (ℕ × Snapshot)) (j : ℕ) (e : Entry)
      → scan ns t cap i m best ≡ some none
      → (best ≡ none) × (get j m ≡ some e → is_match ns t cap i e.snapshot ≢ some true)
  unfolding scan get
  scan-miss [] best j e h = (ground arith, λ f. absurd (ground arith))
  scan-miss ((n, x) ∷ m) best j e h = elim (Option-cases (is_match ns t cap i x.snapshot)) [
    | inl bad ↦ absurd (ground arith)
    | inr (hit, here) ↦
        let (gone, rest) =
          scan-miss m (if hit && is_longer best x.snapshot then some (n, x.snapshot) else best) j e
            (ground arith) in
        (ground arith, λ f g. absurd (ground (arith, rest)))
  ]

  scan-some :
      (m : Dict Entry) (best : Option (ℕ × Snapshot))
      → Unique m
      → ((j : ℕ) (e : Entry) → get j m ≡ some e → is_some (is_match ns t cap i e.snapshot) ≡ true)
      → is_some (scan ns t cap i m best) ≡ true
  unfolding scan get
  scan-some [] best u h = refl
  scan-some ((n, x) ∷ m) best u h = elim (Option-cases (is_match ns t cap i x.snapshot)) [
    | inl bad ↦ absurd (ground (arith, h n x))
    | inr (hit, here) ↦
        let rest =
          scan-some m (if hit && is_longer best x.snapshot then some (n, x.snapshot) else best) u.1
            (λ j e f. h j e (ground arith)) in
        ground arith
  ]

is_match-some :
    (ns : Namespace) (t : Bytes) (limit : Option ℕ) (i : Option Identity) (s : Snapshot)
    → IsAligned s
    → is_some (is_match ns t (acquire_cap t limit i) i s) ≡ true
unfolding is_match
is_match-some ns t limit i s a = ground (arith, image_key-some i t limit s)

-- On a sound cache `acquire` returns, and never for want of an image digest. A hit is an entry that
-- matches, and no entry that matches is longer; a miss means that no entry matches. A hit pins its
-- entry once; a miss changes the tables not at all.
pub acquire_lem :
    (c : Cache) (ns : Namespace) (t : Bytes) (limit : Option ℕ) (counted : Bool)
    (i : Option Identity)
    → Sound c
    → let cap = acquire_cap t limit i in
      ((d : Cache) × (k : ℕ) × (s : Snapshot) × (acquire c ns t limit counted i
          ≡ done d (some (k, s)))
        × Follows c d
        × ((e : Entry) × (get k c.entries ≡ some e) × (e.snapshot ≡ s))
        × Matches ns t cap i s
        × ((j : ℕ) (e : Entry)
            → get j c.entries ≡ some e
            → Matches ns t cap i e.snapshot
            → snapshot_length e.snapshot ≤ snapshot_length s)
        × ((j : ℕ) → readers_of j d ≡ readers_of j c + (if k == j then 1 else 0))
        × (d.pending_bytes ≡ c.pending_bytes)
        × (d.pending_entries ≡ c.pending_entries)
        × (d.epoch ≡ c.epoch))
      ⊎ ((m : ℕ) × (acquire c ns t limit counted i ≡ done (record c { misses = m }) none)
          × ((j : ℕ) (e : Entry) → get j c.entries ≡ some e → ¬ Matches ns t cap i e.snapshot))
unfolding acquire
acquire_lem c ns t limit counted i v =
    elim (Option-cases (scan ns t (acquire_cap t limit i) i c.entries none)) [
      | inl bad ↦ absurd (ground (arith, total))
      | inr (best, through) ↦ elim (Option-cases best) [
        | inl miss ↦ inr (
          (if counted then c.misses + 1 else c.misses),
          ground arith,
          (λ j e f g.
              (scan-miss ns t (acquire_cap t limit i) i c.entries none j e (ground arith)).1 f
                ((is_match_iff ns t (acquire_cap t limit i) i e.snapshot).1 g)),
        )
        | inr ((k, s), hit) ↦
            elim (scan-get ns t (acquire_cap t limit i) i c.entries none k s v.unique
              (ground arith)) [
                | inl never ↦ absurd (ground arith)
                | inr (e, here, same) ↦
                    let f =
                      pin-Follows c k e v here (if counted then c.hits + 1 else c.hits) c.misses in
                    let (_, longest) =
                      scan-best ns t (acquire_cap t limit i) i c.entries none k s (ground arith) in
                    inl (
                      record c {
                        entries = pin k c.entries;
                        hits = if counted then c.hits + 1 else c.hits;
                      },
                      k,
                      s,
                      ground arith,
                      f,
                      (e, here, same),
                      matched k s (ground arith),
                      (λ j x g h.
                          longest j x g
                            ((is_match_iff ns t (acquire_cap t limit i) i x.snapshot).1 h)),
                      (λ j. pin-readers_of c k e v here j),
                      refl,
                      refl,
                      refl,
                    )
              ]
      ]
    ]
  where
    total : is_some (scan ns t (acquire_cap t limit i) i c.entries none) ≡ true
    total =
        scan-some ns t (acquire_cap t limit i) i c.entries none v.unique
          (λ j e f. is_match-some ns t limit i e.snapshot (v.aligned j e f))

    matched :
        (k : ℕ) (s : Snapshot)
        → scan ns t (acquire_cap t limit i) i c.entries none ≡ some (some (k, s))
        → Matches ns t (acquire_cap t limit i) i s
    matched k s e = elim (scan-hit ns t (acquire_cap t limit i) i c.entries none k s e) [
      | inl never ↦ absurd (ground arith)
      | inr hit ↦ (is_match_iff ns t (acquire_cap t limit i) i s).0 hit
    ]
