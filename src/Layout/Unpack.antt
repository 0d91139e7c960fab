-- ===== src/Layout/Unpack.antt =====
-- Unpacking gives back the rows that were packed.
use qsa_hisparse.Prelude.{
  ℕ, zero, suc, ◌+◌, ◌*◌, ◌<◌, ◌≡◌, refl, sym, ◌∙◌, ap, some, List, [], ◌∷◌, ◌++◌, map, length,
  range_from, get_elem?, arith,
}
use qsa_hisparse.Layout.Defs.{join_c4, pack_c4, unpack_row, unpack_index}

get_elem?-shift :
    {A : Type 0} (a b c d e f g h : A) (xs : List A) (i : ℕ)
    → get_elem? (a ∷ b ∷ c ∷ d ∷ e ∷ f ∷ g ∷ h ∷ xs) (8 + i) ≡ get_elem? xs i
get_elem?-shift a b c d e f g h xs i =
    let z : 8 + i ≡ suc (suc (suc (suc (suc (suc (suc (suc i))))))) = omega arith in rw z refl

pub join_c4-rows :
    {A : Type 0} (n : ℕ) (k v : List A) (i : ℕ)
    → length k ≡ 4 * n
    → length v ≡ 4 * n
    → i < 4 * n
    → (get_elem? (join_c4 k v) (unpack_row i) ≡ get_elem? k i)
      × (get_elem? (join_c4 k v) (unpack_row i + 4) ≡ get_elem? v i)
unfolding join_c4
join_c4-rows zero k v i a b h = absurd (omega arith)
join_c4-rows (suc n) [] v i a b h = absurd (omega arith)
join_c4-rows (suc n) (x ∷ []) v i a b h = absurd (omega arith)
join_c4-rows (suc n) (x ∷ y ∷ []) v i a b h = absurd (omega arith)
join_c4-rows (suc n) (x ∷ y ∷ z ∷ []) v i a b h = absurd (omega arith)
join_c4-rows (suc n) (x ∷ y ∷ z ∷ w ∷ k) [] i a b h = absurd (omega arith)
join_c4-rows (suc n) (x ∷ y ∷ z ∷ w ∷ k) (p ∷ []) i a b h = absurd (omega arith)
join_c4-rows (suc n) (x ∷ y ∷ z ∷ w ∷ k) (p ∷ q ∷ []) i a b h = absurd (omega arith)
join_c4-rows (suc n) (x ∷ y ∷ z ∷ w ∷ k) (p ∷ q ∷ r ∷ []) i a b h = absurd (omega arith)
join_c4-rows (suc n) (x ∷ y ∷ z ∷ w ∷ k) (p ∷ q ∷ r ∷ s ∷ v) zero a b h = (refl, refl)
join_c4-rows (suc n) (x ∷ y ∷ z ∷ w ∷ k) (p ∷ q ∷ r ∷ s ∷ v) (suc zero) a b h = (refl, refl)
join_c4-rows (suc n) (x ∷ y ∷ z ∷ w ∷ k) (p ∷ q ∷ r ∷ s ∷ v) (suc (suc zero)) a b h = (refl, refl)
join_c4-rows (suc n) (x ∷ y ∷ z ∷ w ∷ k) (p ∷ q ∷ r ∷ s ∷ v) (suc (suc (suc zero))) a b h =
    (refl, refl)
join_c4-rows (suc n) (x ∷ y ∷ z ∷ w ∷ k) (p ∷ q ∷ r ∷ s ∷ v) (suc (suc (suc (suc i)))) a b h =
    let (one, two) = join_c4-rows n k v i (omega arith) (omega arith) (omega arith) in
    let here : unpack_row (suc (suc (suc (suc i)))) ≡ 8 + unpack_row i = omega arith in
    let there : unpack_row (suc (suc (suc (suc i)))) + 4 ≡ 8 + (unpack_row i + 4) = omega arith in
    (
      rw here (get_elem?-shift x y z w p q r s (join_c4 k v) (unpack_row i) ∙ one),
      rw there (get_elem?-shift x y z w p q r s (join_c4 k v) (unpack_row i + 4) ∙ two),
    )

get_elem?-range :
    (f : ℕ → ℕ) (start n i : ℕ)
    → i < n
    → get_elem? (map f (range_from start n)) i ≡ some (f (start + i))
unfolding range_from
get_elem?-range f start zero i h = absurd (omega arith)
get_elem?-range f start (suc n) zero h = ap (λ x. some (f x)) (omega arith)
get_elem?-range f start (suc n) (suc i) h =
    get_elem?-range f (start + 1) n i (omega arith) ∙ ap (λ x. some (f x)) (omega arith)

get_elem?-left :
    {A : Type 0} (xs ys : List A) (i : ℕ) → i < length xs → get_elem? (xs ++ ys) i ≡ get_elem? xs i
get_elem?-left [] ys i h = absurd (omega arith)
get_elem?-left (x ∷ xs) ys zero h = refl
get_elem?-left (x ∷ xs) ys (suc i) h = get_elem?-left xs ys i (omega arith)

get_elem?-right :
    {A : Type 0} (xs ys : List A) (i : ℕ) → get_elem? (xs ++ ys) (length xs + i) ≡ get_elem? ys i
get_elem?-right [] ys i = let z : 0 + i ≡ i = omega arith in rw z refl
get_elem?-right (x ∷ xs) ys i =
    let z : suc (length xs) + i ≡ suc (length xs + i) = omega arith in
    rw z (get_elem?-right xs ys i)

length-map_range : (f : ℕ → ℕ) (start n : ℕ) → length (map f (range_from start n)) ≡ n
unfolding range_from
length-map_range f start zero = refl
length-map_range f start (suc n) = omega (arith, length-map_range f (start + 1) n)

-- Rows that were packed into complete records come back by `unpack_index`: its entry for a token is
-- the place of the token's K row among the rows of the records, and its entry one half further is the
-- place of the token's V row.
pub unpack_index-pack_c4 :
    {A : Type 0} (n : ℕ) (k v records : List A) (i : ℕ)
    → length k ≡ 4 * n
    → pack_c4 k v ≡ some records
    → i < 4 * n
    → (row : ℕ) × (half : ℕ) × (get_elem? (unpack_index (4 * n)) i ≡ some row)
      × (get_elem? (unpack_index (4 * n)) (4 * n + i) ≡ some half)
      × (get_elem? records row ≡ get_elem? k i)
      × (get_elem? records half ≡ get_elem? v i)
unfolding pack_c4 unpack_index
unpack_index-pack_c4 n k v records i a e h =
    let same : length v ≡ 4 * n = ground arith in
    let (one, two) = join_c4-rows n k v i a same h in
    let ks = map unpack_row (range_from 0 (4 * n)) in
    let vs = map (λ row. unpack_row row + 4) (range_from 0 (4 * n)) in
    let len : length ks ≡ 4 * n = length-map_range unpack_row 0 (4 * n) in
    let joined : records ≡ join_c4 k v = ground arith in
    (
      unpack_row (0 + i),
      unpack_row (0 + i) + 4,
      get_elem?-left ks vs i (omega (arith, len)) ∙ get_elem?-range unpack_row 0 (4 * n) i h,
      ap (λ x. get_elem? (ks ++ vs) (x + i)) (sym len)
          ∙ (get_elem?-right ks vs i ∙ get_elem?-range (λ row. unpack_row row + 4) 0 (4 * n) i h),
      rw joined (let z : 0 + i ≡ i = omega arith in rw z one),
      rw joined (let z : 0 + i ≡ i = omega arith in rw z two),
    )
