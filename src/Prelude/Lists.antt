-- ===== src/Prelude/Lists.antt =====
-- Lists measured by native numbers, Boolean searches in them, and sorting.
use Prim.Native.Nat.{ℕ, zero, suc, ◌+◌, ◌≤◌}
use mathlib.Core.Path.{◌≡◌, refl}
use mathlib.Core.Bool.{◌&&◌}
use mathlib.Core.Logic.{◌⊎◌, inl, inr}
use mathlib.Core.List.{List, [], ◌∷◌, ◌++◌}
use mathlib.Core.Option.{Option, none, some}
use native.Mathlib.Omega.{arith}
use qsa_hisparse.Prelude.Tests.{ltb, leb, ◌==◌, if◌then◌else◌}

module _ {ℓ} {A : Type ℓ} where
  abbrev pub length : List A → ℕ
  length [] = 0
  length (x ∷ xs) = suc (length xs)

  abbrev pub get_elem? : List A → ℕ → Option A
  get_elem? [] i = none
  get_elem? (x ∷ xs) zero = some x
  get_elem? (x ∷ xs) (suc i) = get_elem? xs i

  pub length-append : (xs ys : List A) → length (xs ++ ys) ≡ length xs + length ys
  length-append [] ys = omega arith
  length-append (x ∷ xs) ys = omega (arith, length-append xs ys)

-- How often a number stands in a list.
abbrev pub count : ℕ → List ℕ → ℕ
count n [] = 0
count n (x ∷ xs) = (if x == n then 1 else 0) + count n xs

-- Insertion into an ascending list, and the sort of a list in ascending order.
unfoldable pub insert_sorted : ℕ → List ℕ → List ℕ
insert_sorted n [] = n ∷ []
insert_sorted n (x ∷ xs) = if leb n x then n ∷ x ∷ xs else x ∷ insert_sorted n xs

unfoldable pub sort : List ℕ → List ℕ
sort [] = []
sort (x ∷ xs) = insert_sorted x (sort xs)

-- Every element is at least the bound, and the list ascends.
abbrev pub Ascends : ℕ → List ℕ → Type 0
Ascends b [] = Unit {0}
Ascends b (x ∷ xs) = (b ≤ x) × Ascends x xs

pub count-insert_sorted :
    (k n : ℕ) (xs : List ℕ) → count k (insert_sorted n xs) ≡ (if n == k then 1 else 0) + count k xs
unfolding insert_sorted
count-insert_sorted k n [] = refl
count-insert_sorted k n (x ∷ xs) = ground (arith, count-insert_sorted k n xs)

pub count-sort : (k : ℕ) (xs : List ℕ) → count k (sort xs) ≡ count k xs
unfolding sort
count-sort k [] = refl
count-sort k (x ∷ xs) = omega (arith, count-insert_sorted k x (sort xs), count-sort k xs)

pub count-append : (k : ℕ) (xs ys : List ℕ) → count k (xs ++ ys) ≡ count k xs + count k ys
count-append k [] ys = omega arith
count-append k (x ∷ xs) ys = omega (arith, count-append k xs ys)

pub Ascends-insert_sorted :
    (b n : ℕ) (xs : List ℕ) → b ≤ n → Ascends b xs → Ascends b (insert_sorted n xs)
unfolding insert_sorted
Ascends-insert_sorted b n [] h a = (h, tt)
Ascends-insert_sorted b n (x ∷ xs) h a = ground (arith, Ascends-insert_sorted x n xs)

pub Ascends-sort : (xs : List ℕ) → Ascends 0 (sort xs)
unfolding sort
Ascends-sort [] = tt
Ascends-sort (x ∷ xs) = Ascends-insert_sorted 0 x (sort xs) (omega arith) (Ascends-sort xs)

Ascends-mono : (a b : ℕ) (xs : List ℕ) → a ≤ b → Ascends b xs → Ascends a xs
Ascends-mono a b [] h v = tt
Ascends-mono a b (x ∷ xs) h v = (omega arith, v.1)

-- A number that precedes an ascending list goes back to its head.
pub sort-append_head : (a : ℕ) (xs : List ℕ) → Ascends a xs → sort (xs ++ a ∷ []) ≡ a ∷ xs
unfolding sort insert_sorted
sort-append_head a [] v = refl
sort-append_head a (x ∷ xs) v =
    rw (sort-append_head a xs (Ascends-mono a x xs v.0 v.1)) (ground (arith, insert_head x xs v.1))
  where
    insert_head : (b : ℕ) (ys : List ℕ) → Ascends b ys → insert_sorted b ys ≡ b ∷ ys
    insert_head b [] w = refl
    insert_head b (y ∷ ys) w = ground arith

pub length-insert_sorted : (n : ℕ) (xs : List ℕ) → length (insert_sorted n xs) ≡ suc (length xs)
unfolding insert_sorted
length-insert_sorted n [] = refl
length-insert_sorted n (x ∷ xs) = ground (arith, length-insert_sorted n xs)

pub length-sort : (xs : List ℕ) → length (sort xs) ≡ length xs
unfolding sort
length-sort [] = refl
length-sort (x ∷ xs) = omega (arith, length-insert_sorted x (sort xs), length-sort xs)

-- `range(n)`, written from `start` on.
unfoldable pub range_from : ℕ → ℕ → List ℕ
range_from start zero = []
range_from start (suc n) = start ∷ range_from (start + 1) n

pub Ascends-range_from : (b start n : ℕ) → b ≤ start → Ascends b (range_from start n)
unfolding range_from
Ascends-range_from b start zero h = tt
Ascends-range_from b start (suc n) h = (h, Ascends-range_from start (start + 1) n (omega arith))

pub count-range_from :
    (k start n : ℕ)
    → count k (range_from start n) ≡ (if leb start k && ltb k (start + n) then 1 else 0)
unfolding range_from
count-range_from k start zero = ground arith
count-range_from k start (suc n) = ground (arith, count-range_from k (start + 1) n)

pub List-cases {ℓ} :
    {A : Type ℓ} (xs : List A) → (xs ≡ []) ⊎ ((a : A) × (rest : List A) × (xs ≡ a ∷ rest))
List-cases [] = inl refl
List-cases (x ∷ xs) = inr (x, xs, refl)

module _ {ℓ} {A : Type ℓ} where
  abbrev pub take : ℕ → List A → List A
  take zero xs = []
  take (suc n) [] = []
  take (suc n) (x ∷ xs) = x ∷ take n xs

  abbrev pub drop : ℕ → List A → List A
  drop zero xs = xs
  drop (suc n) [] = []
  drop (suc n) (x ∷ xs) = drop n xs
