-- ===== src/Image/Cuts.antt =====
-- The blocks that are hashed determine the positions that they were cut from.
use qsa_hisparse.Prelude.{
  ℕ, zero, suc, ◌+◌, ◌*◌, ◌≤◌, ◌≡◌, refl, sym, ◌∙◌, ap, ap₂, subst, some, List, [], ◌∷◌, ◌++◌,
  length, get_elem?, arith, take, drop, length-append,
}
use qsa_hisparse.Image.Defs.{page, Digest, digests_from, page_block, page_blocks}
use qsa_hisparse.Image.Keys.{cut}

pub append-injective :
    (a b c d : List ℕ) → length b ≡ length d → a ++ b ≡ c ++ d → (a ≡ c) × (b ≡ d)
append-injective [] b [] d h e = (refl, e)
append-injective [] b (z ∷ c) d h e = absurd (omega (arith, ap length e, length-append c d))
append-injective (x ∷ a) b [] d h e = absurd (omega (arith, ap length e, length-append a b))
append-injective (x ∷ a) b (z ∷ c) d h e =
    let (f, g) = append-injective a b c d h (ground arith) in (ground arith, g)

-- Blocks of one length.
abbrev pub Blocks : ℕ → List (List ℕ) → Type 0
Blocks w [] = Unit {0}
Blocks w (x ∷ xs) = (length x ≡ w) × Blocks w xs

-- A hash without collisions, chained over the blocks, determines every block.
pub digests_from-injective :
    (sha : List ℕ → Digest)
    → ((x y : List ℕ) → sha x ≡ sha y → x ≡ y)
    → (w : ℕ) (previous other : Digest) (xs ys : List (List ℕ)) (k : ℕ) (d : Digest) → Blocks w xs
    → Blocks w ys
    → get_elem? (digests_from sha previous xs) k ≡ some d
    → get_elem? (digests_from sha other ys) k ≡ some d
    → (previous ≡ other) × (take (suc k) xs ≡ take (suc k) ys)
unfolding digests_from
digests_from-injective sha inj w previous other [] ys k d bx by e f = absurd (ground arith)
digests_from-injective sha inj w previous other (x ∷ xs) [] k d bx by e f = absurd (ground arith)
digests_from-injective sha inj w previous other (x ∷ xs) (y ∷ ys) zero d bx by e f =
    let (g, h) =
      append-injective previous x other y (bx.0 ∙ sym by.0)
        (inj (previous ++ x) (other ++ y) (ground arith)) in
    (g, rw h)
digests_from-injective sha inj w previous other (x ∷ xs) (y ∷ ys) (suc k) d bx by e f =
    let (same, rest) =
      digests_from-injective sha inj w (sha (previous ++ x)) (sha (other ++ y)) xs ys k d bx.1 by.1
        e f in
    let (g, h) =
      append-injective previous x other y (bx.0 ∙ sym by.0)
        (inj (previous ++ x) (other ++ y) same) in
    (g, rw (h, rest))

-- Every axis has at least `n` positions.
abbrev pub Reaches : ℕ → List (List ℕ) → Type 0
Reaches n [] = Unit {0}
Reaches n (x ∷ xs) = (n ≤ length x) × Reaches n xs

length-page_of :
    (k start : ℕ) (xs : List ℕ) → start + k ≤ length xs → length (take k (drop start xs)) ≡ k
length-page_of zero start xs h = refl
length-page_of (suc k) zero [] h = absurd (omega arith)
length-page_of (suc k) zero (x ∷ xs) h = ap suc (length-page_of k zero xs (omega arith))
length-page_of (suc k) (suc start) [] h = absurd (omega arith)
length-page_of (suc k) (suc start) (x ∷ xs) h = length-page_of (suc k) start xs (omega arith)

pub length-page_block :
    (start : ℕ) (axes : List (List ℕ))
    → Reaches (start + page) axes
    → length (page_block axes start) ≡ page * length axes
unfolding page_block
length-page_block start [] r = refl
length-page_block start (x ∷ axes) r = omega (
  arith,
  length-append (take page (drop start x)) (page_block axes start),
  length-page_of page start x r.0,
  length-page_block start axes r.1,
)

pub Reaches-mono : (n m : ℕ) (axes : List (List ℕ)) → n ≤ m → Reaches m axes → Reaches n axes
Reaches-mono n m [] h r = tt
Reaches-mono n m (x ∷ axes) h r = (omega arith, Reaches-mono n m axes h r.1)

pub page_blocks-Blocks :
    (start k : ℕ) (axes : List (List ℕ))
    → Reaches (start + page * k) axes
    → Blocks (page * length axes) (page_blocks axes start k)
unfolding page_blocks
page_blocks-Blocks start zero axes r = tt
page_blocks-Blocks start (suc k) axes r = (
  length-page_block start axes (Reaches-mono (start + page) _ axes (omega arith) r),
  page_blocks-Blocks (start + page) k axes
      (Reaches-mono (start + page + page * k) _ axes (omega arith) r),
)

take-add : (s k : ℕ) (xs : List ℕ) → take (s + k) xs ≡ take s xs ++ take k (drop s xs)
take-add zero k xs = let e : 0 + k ≡ k = omega arith in rw e
take-add (suc s) zero [] = let e : suc s + 0 ≡ suc s = omega arith in rw e
take-add (suc s) (suc k) [] = let e : suc s + suc k ≡ suc (s + suc k) = omega arith in rw e
take-add (suc s) k (x ∷ xs) =
    let e : suc s + k ≡ suc (s + k) = omega arith in rw e (ap (◌∷◌ x) (take-add s k xs))

-- One page block, and the cut before it, give the cut behind it.
cut-page_block :
    (start : ℕ) (p q : List (List ℕ))
    → length p ≡ length q
    → Reaches (start + page) p
    → Reaches (start + page) q
    → cut start p ≡ cut start q
    → page_block p start ≡ page_block q start
    → cut (start + page) p ≡ cut (start + page) q
unfolding page_block
cut-page_block start [] [] h r t e f = refl
cut-page_block start [] (y ∷ q) h r t e f = absurd (omega arith)
cut-page_block start (x ∷ p) [] h r t e f = absurd (omega arith)
cut-page_block start (x ∷ p) (y ∷ q) h r t e f =
    let (same, rest) = append_split in
    let tail = cut-page_block start p q (omega arith) r.1 t.1 (ground arith) rest in
    let head : take (start + page) x ≡ take (start + page) y =
      take-add start page x
      ∙ (ap₂ (λ a b. a ++ b) (ground arith) same ∙ sym (take-add start page y)) in
    ap₂ ◌∷◌ head tail
  where
    append_split :
        (take page (drop start x) ≡ take page (drop start y))
        × (page_block p start ≡ page_block q start)
    append_split =
        append-injective (take page (drop start x)) (page_block p start) (take page (drop start y))
          (page_block q start)
          (omega (arith, length-page_block start p r.1, length-page_block start q t.1)) f

pub cut-page_blocks :
    (start k : ℕ) (p q : List (List ℕ))
    → length p ≡ length q
    → Reaches (start + page * k) p
    → Reaches (start + page * k) q
    → cut start p ≡ cut start q
    → page_blocks p start k ≡ page_blocks q start k
    → cut (start + page * k) p ≡ cut (start + page * k) q
unfolding page_blocks
cut-page_blocks start zero p q h r t e f = let z : start + page * 0 ≡ start = omega arith in rw z e
cut-page_blocks start (suc k) p q h r t e f =
    let z : start + page * suc k ≡ start + page + page * k = omega arith in
    rw z (
      cut-page_blocks (start + page) k p q h (subst (λ n. Reaches n p) z r)
        (subst (λ n. Reaches n q) z t)
        (cut-page_block start p q h (Reaches-mono (start + page) _ p (omega arith) r)
          (Reaches-mono (start + page) _ q (omega arith) t) e (ground arith))
        (ground arith))

pub cut-zero : (p q : List (List ℕ)) → length p ≡ length q → cut 0 p ≡ cut 0 q
cut-zero [] [] h = refl
cut-zero [] (y ∷ q) h = absurd (omega arith)
cut-zero (x ∷ p) [] h = absurd (omega arith)
cut-zero (x ∷ p) (y ∷ q) h = ap (◌∷◌ []) (cut-zero p q (omega arith))
