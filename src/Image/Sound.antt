-- ===== src/Image/Sound.antt =====
-- Equal keys mean equal images and equal positions, and what lies behind the prefix does not matter.
use qsa_hisparse.Prelude.{
  ℕ, zero, suc, ◌+◌, ◌*◌, ◌≤◌, ◌≡◌, refl, inl, inr, sym, ◌∙◌, ap, subst, some, List, [], ◌∷◌,
  length, arith, take, Option-cases, ltb, if◌then◌else◌, ◌++◌,
}
use qsa_hisparse.Image.Defs.{
  page, Digest, Identity, ImageRecord, Key, keep_before, records_at, digest_at, key_at, page_blocks,
}
use qsa_hisparse.Image.Keys.{identify, cut, digest_at-identify, length-page_blocks}
use qsa_hisparse.Image.Cuts.{
  Blocks, Reaches, digests_from-injective, Reaches-mono, page_blocks-Blocks, cut-page_blocks,
  cut-zero,
}

key_at-inv :
    (i : Identity) (n : ℕ) (key : Key)
    → key_at i n ≡ some key
    → (records_at i n ≡ key.records) × (digest_at i n ≡ some key.digest)
unfolding key_at
key_at-inv i n key e = elim (Option-cases (digest_at i n)) [
  | inl none_here ↦ absurd (ground arith)
  | inr (d, here) ↦ (ground arith, ground arith)
]

take-whole : (k : ℕ) (xs : List (List ℕ)) → length xs ≡ k → take k xs ≡ xs
take-whole zero [] h = refl
take-whole zero (x ∷ xs) h = absurd (omega arith)
take-whole (suc k) [] h = absurd (omega arith)
take-whole (suc k) (x ∷ xs) h = ap (◌∷◌ x) (take-whole k xs (omega arith))

-- The images that start before a position, in their order.
abbrev pub starts_before : ℕ → List ImageRecord → List ImageRecord
starts_before n [] = []
starts_before n (r ∷ rs) = (if ltb r.start n then r ∷ [] else []) ++ starts_before n rs

keep_before-starts_before : (n : ℕ) (rs : List ImageRecord) → keep_before n rs ≡ starts_before n rs
unfolding keep_before
keep_before-starts_before n [] = refl
keep_before-starts_before n (r ∷ rs) = ground (arith, keep_before-starts_before n rs)

-- Under a hash without collisions, two requests with one key at a page boundary have the same images
-- that start before it, also those that reach beyond it, in the same order, and the same M-RoPE
-- positions on every axis up to it; and the key holds exactly those images.
pub key_at_sound :
    (sha : List ℕ → Digest) (a b : List ImageRecord) (p q : List (List ℕ)) (n m k : ℕ) (key : Key)
    → ((x y : List ℕ) → sha x ≡ sha y → x ≡ y)
    → length p ≡ length q
    → Reaches n p
    → Reaches m q
    → page * suc k ≤ n
    → page * suc k ≤ m
    → key_at (identify sha a p n) (page * suc k) ≡ some key
    → key_at (identify sha b q m) (page * suc k) ≡ some key
    → (starts_before (page * suc k) a ≡ starts_before (page * suc k) b)
      × (key.records ≡ starts_before (page * suc k) a)
      × (cut (page * suc k) p ≡ cut (page * suc k) q)
unfolding records_at
key_at_sound sha a b p q n m k key inj axes rp rq hn hm e f =
    let (ra, da) = key_at-inv (identify sha a p n) (page * suc k) key e in
    let (rb, db) = key_at-inv (identify sha b q m) (page * suc k) key f in
    let hp = Reaches-mono (0 + page * suc k) n p (omega arith) rp in
    let hq = Reaches-mono (0 + page * suc k) m q (omega arith) rq in
    let width : page * length q ≡ page * length p = omega arith in
    let (_, blocks) =
      digests_from-injective sha inj (page * length p) [] [] (page_blocks p 0 (suc k))
        (page_blocks q 0 (suc k)) k key.digest (page_blocks-Blocks 0 (suc k) p hp)
        (subst (λ w. Blocks w (page_blocks q 0 (suc k))) width (page_blocks-Blocks 0 (suc k) q hq))
        (sym (digest_at-identify sha a p n k hn) ∙ da)
        (sym (digest_at-identify sha b q m k hm) ∙ db) in
    let same : page_blocks p 0 (suc k) ≡ page_blocks q 0 (suc k) =
      sym (take-whole (suc k) (page_blocks p 0 (suc k)) (length-page_blocks p 0 (suc k)))
      ∙ (blocks ∙ take-whole (suc k) (page_blocks q 0 (suc k)) (length-page_blocks q 0 (suc k))) in
    let z : 0 + page * suc k ≡ page * suc k = omega arith in
    (
      ground (
        arith,
        keep_before-starts_before (page * suc k) a,
        keep_before-starts_before (page * suc k) b,
      ),
      ground (arith, keep_before-starts_before (page * suc k) a),
      subst (λ w. cut w p ≡ cut w q) z
          (cut-page_blocks 0 (suc k) p q axes hp hq (cut-zero p q axes) same),
    )
