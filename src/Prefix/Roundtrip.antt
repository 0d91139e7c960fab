-- ===== src/Prefix/Roundtrip.antt =====
-- What was published is found again.
use qsa_hisparse.Prelude.{
  ℕ, ◌+◌, ◌≤◌, ◌≡◌, refl, sym, ◌∙◌, ap, Bool, true, Option, none, some, List, [], ◌∷◌, ◌++◌, inl,
  inr, Option-cases, arith, get, get-put, length, Outcome-cases, done, subst,
}
use mathlib.Core.List.{append-nil}
use qsa_hisparse.Image.Defs.{Identity, key_at, digest_at}
use qsa_hisparse.Prefix.Defs.{
  Snapshot, Cache, Bytes, Reservation, snapshot_length, image_key, token_count,
}
use qsa_hisparse.Prefix.Cache.{acquire, publish, close_reservation, acquire_cap, store}
use qsa_hisparse.Prefix.Invariant.{Sound, IsAligned}
use qsa_hisparse.Prefix.Close.{BasisHeld, live_snapshot, close_reservation-live_snapshot}
use qsa_hisparse.Prefix.Publish.{IsPublishable, stored, publish_lem, store-IsPublishable}
use qsa_hisparse.Prefix.Acquire.{acquire_lem, Matches}

publish-live_snapshot :
    (c d : Cache) (r r' : Reservation) (s : Snapshot) (completed : Bool) (k j : ℕ)
    → r.active ≡ true
    → publish c r s completed ≡ done (d, r') k
    → IsPublishable c r s completed
      × (live_snapshot j d ≡ live_snapshot j (stored c s))
      × (k ≡ c.next_id + 1)
unfolding publish
publish-live_snapshot c d r r' s completed k j live e =
    elim (Outcome-cases (store c r s completed)) [
      | inr (x, y, bad) ↦ elim (Outcome-cases (close_reservation x r)) [
        | inl (p, q, runs) ↦ absurd (ground arith)
        | inr (p, q, runs) ↦ absurd (ground arith)
      ]
      | inl (x, n, good) ↦
          let (ok, same, id) = store-IsPublishable c x r s completed n live good in
          elim (Outcome-cases (close_reservation x r)) [
            | inr (p, q, runs) ↦ absurd (ground arith)
            | inl (p, q, runs) ↦
                let kept = close_reservation-live_snapshot x p r q j runs in
                (ok, ground (arith, kept), ground arith)
          ]
    ]

live-stored : (c : Cache) (s : Snapshot) → live_snapshot (c.next_id + 1) (stored c s) ≡ some s
live-stored c s = ground (
  arith,
  get-put (c.next_id + 1) (c.next_id + 1) (record { snapshot = s; readers = 0 }) c.entries,
)

append-whole : (xs rest : List ℕ) → length (xs ++ rest) ≤ length xs → xs ++ rest ≡ xs
append-whole [] [] h = refl
append-whole [] (y ∷ rest) h = absurd (omega arith)
append-whole (x ∷ xs) rest h = ap (◌∷◌ x) (append-whole xs rest (omega arith))

-- The digests of an identity reach every length that it has a key for.
image_key-reach :
    (i : Option Identity) (t : Bytes) (s : Snapshot)
    → IsAligned s
    → image_key i (snapshot_length s) ≡ some s.image_key
    → snapshot_length s ≤ token_count t
    → snapshot_length s ≤ acquire_cap t none i
unfolding image_key key_at digest_at acquire_cap
image_key-reach none t s a e h = h
image_key-reach (some i) t s a e h = ground (arith, a)

publish-Sound :
    (c d : Cache) (r r' : Reservation) (s : Snapshot) (completed : Bool) (k : ℕ)
    → Sound c
    → r.active ≡ true
    → BasisHeld c r
    → publish c r s completed ≡ done (d, r') k
    → Sound d
publish-Sound c d r r' s completed k v live b e =
    let (x, y, _, _, _, _, _, cases) = publish_lem c r s completed v live b in
    elim cases [
      | inr (_, (_, bad), _, _) ↦ absurd (ground arith)
      | inl (_, runs, follows, _) ↦
          let same : x ≡ d = ground arith in subst Sound same follows.sound
    ]

-- A checkpoint that was just published is found by a request with its tokens, its namespace and its
-- images: the request gets a checkpoint of exactly these tokens and this image key.
pub acquire-publish :
    (c d : Cache) (r r' : Reservation) (s : Snapshot) (completed counted : Bool) (k : ℕ) (t : Bytes)
    (i : Option Identity)
    → Sound c
    → r.active ≡ true
    → BasisHeld c r
    → publish c r s completed ≡ done (d, r') k
    → t.words ≡ s.tokens.words
    → image_key i (snapshot_length s) ≡ some s.image_key
    → (d' : Cache) × (k' : ℕ) × (s' : Snapshot) × (acquire d s.namespace t none counted i
        ≡ done d' (some (k', s')))
      × (s'.namespace ≡ s.namespace)
      × (s'.tokens.words ≡ s.tokens.words)
      × (s'.image_key ≡ s.image_key)
acquire-publish c d r r' s completed counted k t i v live b e same images =
    let (ok, kept, id) = publish-live_snapshot c d r r' s completed k (c.next_id + 1) live e in
    let there : live_snapshot (c.next_id + 1) d ≡ some s = kept ∙ live-stored c s in
    let sound : Sound d = publish-Sound c d r r' s completed k v live b e in
    elim (Option-cases (get (c.next_id + 1) d.entries)) [
      | inl gone ↦ absurd (ground arith)
      | inr (x, here) ↦
          let whole : x.snapshot ≡ s = ground arith in
          let fits : Matches s.namespace t (acquire_cap t none i) i s = record {
            same_namespace = refl;
            short = image_key-reach i t s ok.aligned images (omega (arith, ap length same));
            prefix = ([], same ∙ sym (append-nil s.tokens.words));
            same_images = images;
          } in
          let match = subst (Matches s.namespace t (acquire_cap t none i) i) (sym whole) fits in
          elim (acquire_lem d s.namespace t none counted i sound) [
            | inr (m, _, miss) ↦ absurd (miss (c.next_id + 1) x here match)
            | inl (d', k', s', runs, _, _, found, longest, _, _, _, _) ↦
                let longer = longest (c.next_id + 1) x here match in
                let full : s'.tokens.words ≡ s.tokens.words =
                  same_words s' found.prefix.0 found.prefix.1 (ground (arith, longer)) in
                (d', k', s', runs, found.same_namespace, full, ground (arith, found.same_images))
          ]
    ]
  where
    same_words :
        (s' : Snapshot) (rest : List ℕ)
        → t.words ≡ s'.tokens.words ++ rest
        → snapshot_length s ≤ snapshot_length s'
        → s'.tokens.words ≡ s.tokens.words
    same_words s' rest f le =
        sym (append-whole s'.tokens.words rest (omega (arith, ap length f, ap length same)))
        ∙ (sym f ∙ same)
