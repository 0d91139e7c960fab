-- ===== src/Single/Table.antt =====
-- single_request.py: the table of a selection after its writes, and the tokens of its blocks.
use qsa_hisparse.Prelude.{
  ℕ, zero, suc, ◌+◌, ◌*◌, ◌/◌, ◌<◌, ◌≡◌, refl, ◌∙◌, ap, inl, inr, true, false, ◌||◌, Option, none,
  some, List, [], ◌∷◌, ◌++◌, if◌then◌else◌, ◌==◌, length, get_elem?, range_from, Bool-cases, arith,
}
use qsa_hisparse.Single.Handoff.{mem, distinct}
use qsa_hisparse.Single.Selection.{write_table, maps_in_order}

pub get_elem?-range_from :
    (start n i : ℕ) → i < n → get_elem? (range_from start n) i ≡ some (start + i)
unfolding range_from
get_elem?-range_from start zero i h = absurd (omega arith)
get_elem?-range_from start (suc n) zero h = ap some (omega arith)
get_elem?-range_from start (suc n) (suc i) h =
    get_elem?-range_from (start + 1) n i (omega arith) ∙ ap some (omega arith)

pub length-range_from : (start n : ℕ) → length (range_from start n) ≡ n
unfolding range_from
length-range_from start zero = refl
length-range_from start (suc n) = omega (arith, length-range_from (start + 1) n)

-- A table after the writes.
pub write_table_other :
    (table : ℕ → ℕ) (valid : List ℕ) (first t : ℕ)
    → mem t valid ≡ false
    → write_table table valid first t ≡ table t
unfolding write_table mem
write_table_other table [] first t h = refl
write_table_other table (x ∷ valid) first t h =
    ground (arith, write_table_other (λ j. if j == x then first else table j) valid (first + 1) t)

pub mem-get_elem? : (xs : List ℕ) (i t : ℕ) → get_elem? xs i ≡ some t → mem t xs ≡ true
unfolding mem
mem-get_elem? [] i t h = absurd (ground arith)
mem-get_elem? (x ∷ xs) zero t h = ground arith
mem-get_elem? (x ∷ xs) (suc i) t h = ground (arith, mem-get_elem? xs i t h)

pub write_table_at :
    (table : ℕ → ℕ) (valid : List ℕ) (first i t : ℕ)
    → distinct valid ≡ true
    → get_elem? valid i ≡ some t
    → write_table table valid first t ≡ first + i
unfolding write_table distinct
write_table_at table [] first i t d h = absurd (ground arith)
write_table_at table (x ∷ valid) first zero t d h =
    ground (arith, write_table_other (λ j. if j == x then first else table j) valid (first + 1) t)
write_table_at table (x ∷ valid) first (suc i) t d h =
    ground (arith, write_table_at (λ j. if j == x then first else table j) valid (first + 1) i t)

pub maps_in_order_all :
    (table : ℕ → ℕ) (valid : List ℕ) (first : ℕ)
    → ((i t : ℕ) → get_elem? valid i ≡ some t → table t ≡ first + i)
    → maps_in_order table valid first ≡ true
unfolding maps_in_order
maps_in_order_all table [] first h = refl
maps_in_order_all table (t ∷ valid) first h =
    let here = h 0 t refl in
    let rest = maps_in_order_all table valid (first + 1) (λ i u e. h (suc i) u e ∙ omega arith) in
    ground arith

-- The tokens of some blocks, in order.
abbrev pub tokens_of : List ℕ → List ℕ
tokens_of [] = []
tokens_of (b ∷ bs) = (b * 4) ∷ (b * 4 + 1) ∷ (b * 4 + 2) ∷ (b * 4 + 3) ∷ tokens_of bs

abbrev pub padding : ℕ → List (Option ℕ)
padding zero = []
padding (suc n) = none ∷ padding n

abbrev pub AllBelow : ℕ → List ℕ → Type 0
AllBelow n [] = Unit {0}
AllBelow n (x ∷ xs) = (x < n) × AllBelow n xs

pub mem-tokens_of : (t : ℕ) (bs : List ℕ) → mem t (tokens_of bs) ≡ mem (t / 4) bs
unfolding mem
mem-tokens_of t [] = refl
mem-tokens_of t (b ∷ bs) = elim (Bool-cases (b == t / 4)) [
  | inl e ↦ rw e (within (ground arith))
  | inr e ↦ rw e (ground (arith, mem-tokens_of t bs))
]
  where
    within : (t / 4 ≡ b) → mem t (tokens_of (b ∷ bs)) ≡ true
    within e = ground arith

pub mem-own : (t b : ℕ) (bs : List ℕ) → t / 4 ≡ b → mem t (tokens_of bs) ≡ mem b bs
mem-own t b bs h = mem-tokens_of t bs ∙ ap (λ x. mem x bs) h

pub distinct-tokens_of : (bs : List ℕ) → distinct bs ≡ true → distinct (tokens_of bs) ≡ true
unfolding distinct mem
distinct-tokens_of [] d = refl
distinct-tokens_of (b ∷ bs) d = ground (
  arith,
  mem-own (b * 4) b bs (omega arith),
  mem-own (b * 4 + 1) b bs (omega arith),
  mem-own (b * 4 + 2) b bs (omega arith),
  mem-own (b * 4 + 3) b bs (omega arith),
  distinct-tokens_of bs,
)

pub mem-append : (t : ℕ) (xs ys : List ℕ) → mem t (xs ++ ys) ≡ (mem t xs || mem t ys)
unfolding mem
mem-append t [] ys = refl
mem-append t (x ∷ xs) ys = ground (arith, mem-append t xs ys)

pub mem-range_from : (t start n : ℕ) → t < start → mem t (range_from start n) ≡ false
unfolding mem range_from
mem-range_from t start zero h = refl
mem-range_from t start (suc n) h = ground (arith, mem-range_from t (start + 1) n)

pub distinct-range_from : (start n : ℕ) → distinct (range_from start n) ≡ true
unfolding distinct range_from
distinct-range_from start zero = refl
distinct-range_from start (suc n) =
    ground (arith, mem-range_from start (start + 1) n, distinct-range_from (start + 1) n)

-- Tokens below `start`, each once, and a range from there on.
pub distinct-append_range :
    (xs : List ℕ) (start n : ℕ)
    → distinct xs ≡ true
    → AllBelow start xs
    → distinct (xs ++ range_from start n) ≡ true
unfolding distinct
distinct-append_range [] start n d b = distinct-range_from start n
distinct-append_range (x ∷ xs) start n d b = ground (
  arith,
  mem-append x xs (range_from start n),
  mem-range_from x start n,
  distinct-append_range xs start n,
)

pub AllBelow-tokens_of : (n : ℕ) (bs : List ℕ) → AllBelow n bs → AllBelow (n * 4) (tokens_of bs)
AllBelow-tokens_of n [] h = tt
AllBelow-tokens_of n (b ∷ bs) h =
    (omega arith, (omega arith, (omega arith, (omega arith, AllBelow-tokens_of n bs h.1))))
