-- ===== src/Image/Keys.antt =====
-- What a prefix key says of the M-RoPE positions, and what it leaves out.
use qsa_hisparse.Prelude.{
  ℕ, zero, suc, ◌+◌, ◌*◌, ◌/◌, ◌≤◌, ◌≡◌, refl, sym, ◌∙◌, ap, List, [], ◌∷◌, ◌++◌, length, get_elem?,
  arith, take, drop, map,
}
use qsa_hisparse.Image.Defs.{
  page, Digest, Identity, ImageRecord, digest_at, digests_from, page_block, page_blocks,
  page_digests,
}

-- A page of an axis that lies below `n` is a page of the axis cut at `n`.
pub take-drop-take :
    (k start n : ℕ) (xs : List ℕ)
    → start + k ≤ n
    → take k (drop start (take n xs)) ≡ take k (drop start xs)
take-drop-take zero start n xs h = refl
take-drop-take (suc k) zero zero xs h = absurd (omega arith)
take-drop-take (suc k) zero (suc n) [] h = refl
take-drop-take (suc k) zero (suc n) (x ∷ xs) h =
    ap (◌∷◌ x) (take-drop-take k zero n xs (omega arith))
take-drop-take (suc k) (suc start) zero xs h = absurd (omega arith)
take-drop-take (suc k) (suc start) (suc n) [] h = refl
take-drop-take (suc k) (suc start) (suc n) (x ∷ xs) h =
    take-drop-take (suc k) start n xs (omega arith)

abbrev pub cut : ℕ → List (List ℕ) → List (List ℕ)
cut n = map (take n)

pub page_block-cut :
    (n start : ℕ) (axes : List (List ℕ))
    → start + page ≤ n
    → page_block (cut n axes) start ≡ page_block axes start
unfolding page_block
page_block-cut n start [] h = refl
page_block-cut n start (axis ∷ axes) h =
    rw (take-drop-take page start n axis h, page_block-cut n start axes h)

-- The blocks of the first `k` pages lie below `n`, however many pages follow.
pub page_blocks-cut :
    (n start k a : ℕ) (axes : List (List ℕ))
    → start + page * k ≤ n
    → k ≤ a
    → take k (page_blocks (cut n axes) start a) ≡ take k (page_blocks axes start a)
unfolding page_blocks
page_blocks-cut n start zero a axes h le = refl
page_blocks-cut n start (suc k) zero axes h le = absurd (omega arith)
page_blocks-cut n start (suc k) (suc a) axes h le = rw (
  page_block-cut n start axes (omega arith),
  page_blocks-cut n (start + page) k a axes (omega arith) (omega arith),
)

pub take-page_blocks :
    (start k a : ℕ) (axes : List (List ℕ))
    → k ≤ a
    → take k (page_blocks axes start a) ≡ page_blocks axes start k
unfolding page_blocks
take-page_blocks start zero a axes h = refl
take-page_blocks start (suc k) zero axes h = absurd (omega arith)
take-page_blocks start (suc k) (suc a) axes h =
    rw (take-page_blocks (start + page) k a axes (omega arith))

pub get_elem?-digests_from :
    (sha : List ℕ → Digest) (previous : Digest) (i : ℕ) (xs : List (List ℕ))
    → get_elem? (digests_from sha previous xs) i
      ≡ get_elem? (digests_from sha previous (take (suc i) xs)) i
unfolding digests_from
get_elem?-digests_from sha previous i [] = refl
get_elem?-digests_from sha previous zero (x ∷ xs) = refl
get_elem?-digests_from sha previous (suc i) (x ∷ xs) =
    get_elem?-digests_from sha (sha (previous ++ x)) i xs

pub length-digests_from :
    (sha : List ℕ → Digest) (previous : Digest) (xs : List (List ℕ))
    → length (digests_from sha previous xs) ≡ length xs
unfolding digests_from
length-digests_from sha previous [] = refl
length-digests_from sha previous (x ∷ xs) =
    ap suc (length-digests_from sha (sha (previous ++ x)) xs)

pub length-page_blocks :
    (axes : List (List ℕ)) (start k : ℕ) → length (page_blocks axes start k) ≡ k
unfolding page_blocks
length-page_blocks axes start zero = refl
length-page_blocks axes start (suc k) = ap suc (length-page_blocks axes (start + page) k)

-- The identity that a request has by its records and its positions.
abbrev pub identify : (List ℕ → Digest) → List ImageRecord → List (List ℕ) → ℕ → Identity
identify sha records positions n = record {
  records = records;
  page_digests = page_digests sha positions n;
}

-- The digest of the first `k + 1` pages, by the pages alone.
pub digest_at-identify :
    (sha : List ℕ → Digest) (records : List ImageRecord) (positions : List (List ℕ)) (n k : ℕ)
    → page * suc k ≤ n
    → digest_at (identify sha records positions n) (page * suc k)
      ≡ get_elem? (digests_from sha [] (page_blocks positions 0 (suc k))) k
unfolding digest_at page_digests
digest_at-identify sha records positions n k h = ground (
  arith,
  length-digests_from sha [] (page_blocks positions 0 (n / page)),
  length-page_blocks positions 0 (n / page),
  get_elem?-digests_from sha [] k (page_blocks positions 0 (n / page)),
  take-page_blocks 0 (suc k) (n / page) positions,
)

pub page_blocks-of_cut :
    (k n m : ℕ) (p q : List (List ℕ))
    → cut (page * k) p ≡ cut (page * k) q
    → page_blocks p 0 k ≡ page_blocks q 0 k
page_blocks-of_cut k n m p q same =
    sym (blocks p) ∙ (ap (λ axes. page_blocks axes 0 k) same ∙ blocks q)
  where
    blocks : (r : List (List ℕ)) → page_blocks (cut (page * k) r) 0 k ≡ page_blocks r 0 k
    blocks r =
        sym (take-page_blocks 0 k k (cut (page * k) r) (omega arith))
        ∙ (page_blocks-cut (page * k) 0 k k r (omega arith) (omega arith)
            ∙ take-page_blocks 0 k k r (omega arith))
