-- ===== src/Single/Columns.antt =====
-- single_request.py: the columns of a selection, as its oracle reads them.
use qsa_hisparse.Prelude.{
  ℕ, zero, suc, ◌+◌, ◌-◌, ◌*◌, ◌/◌, ◌%◌, ◌<◌, ◌≡◌, refl, ◌∙◌, ap, min, true, Option, some, List, [],
  ◌∷◌, ◌++◌, length, take, drop, get_elem?, range_from, map, length-append, arith,
}
use mathlib.Core.List.{append_assoc}
use qsa_hisparse.Single.Rows.{Rows}
use qsa_hisparse.Single.Handoff.{mem, distinct}
use qsa_hisparse.Single.Selection.{
  selected_tokens, places, Sources, is_index, mem_index, valid_set, expands, pending_then_padding,
}
use qsa_hisparse.Single.Table.{length-range_from, tokens_of, padding, AllBelow}

-- What the kernels before it give to a selection of the blocks `bs`: the columns of the selection, its
-- blocks, and the unpacked rows of their records on the host.
pub record IsSelected {A : Type 0} (seq : ℕ) (bs : List ℕ) (host : Rows A) (sources : Sources A)
    : Type 0 where
  pub apart : distinct bs ≡ true
  pub complete : AllBelow (seq / 4) bs
  pub as_many : length bs ≡ min (seq / 4) 512
  pub unpacked :
      (n b j : ℕ)
      → get_elem? bs n ≡ some b
      → j < 4
      → (sources.unpacked_k (n * 4 + j) ≡ host (b * 8 + j))
        × (sources.unpacked_v (n * 4 + j) ≡ host (b * 8 + 4 + j))

abbrev pub raw_of : ℕ → List ℕ → List (Option ℕ)
raw_of seq bs =
    map some (tokens_of bs ++ range_from (seq / 4 * 4) (seq % 4))
    ++ padding (2051 - selected_tokens seq - seq % 4)

pub take_prefix : {B : Type 0} (n : ℕ) (xs ys : List B) → n ≡ length xs → take n (xs ++ ys) ≡ xs
take_prefix zero [] ys h = refl
take_prefix zero (x ∷ xs) ys h = absurd (omega arith)
take_prefix (suc n) [] ys h = absurd (omega arith)
take_prefix (suc n) (x ∷ xs) ys h = ap (λ l. x ∷ l) (take_prefix n xs ys (omega arith))

pub drop_prefix : {B : Type 0} (n : ℕ) (xs ys : List B) → n ≡ length xs → drop n (xs ++ ys) ≡ ys
drop_prefix zero [] ys h = refl
drop_prefix zero (x ∷ xs) ys h = absurd (omega arith)
drop_prefix (suc n) [] ys h = absurd (omega arith)
drop_prefix (suc n) (x ∷ xs) ys h = drop_prefix n xs ys (omega arith)

pub get_elem?-lt : (xs : List ℕ) (i t : ℕ) → get_elem? xs i ≡ some t → i < length xs
get_elem?-lt [] i t h = absurd (ground arith)
get_elem?-lt (x ∷ xs) zero t h = omega arith
get_elem?-lt (x ∷ xs) (suc i) t h = omega (arith, get_elem?-lt xs i t h)

pub places_plain : (capacity : ℕ) (xs : List ℕ) → places capacity (map some xs) ≡ xs
unfolding places
places_plain capacity [] = refl
places_plain capacity (x ∷ xs) = ap (λ l. x ∷ l) (places_plain capacity xs)

pub length-map_plain : (xs : List ℕ) → length (map some xs) ≡ length xs
length-map_plain [] = refl
length-map_plain (x ∷ xs) = omega (arith, length-map_plain xs)

pub length-tokens_of : (bs : List ℕ) → length (tokens_of bs) ≡ length bs * 4
length-tokens_of [] = omega arith
length-tokens_of (b ∷ bs) = omega (arith, length-tokens_of bs)

pub map-append_plain : (xs ys : List ℕ) → map some (xs ++ ys) ≡ map some xs ++ map some ys
map-append_plain [] ys = refl
map-append_plain (x ∷ xs) ys = ap (λ l. some x ∷ l) (map-append_plain xs ys)

-- The parts of the columns.
module _ (seq : ℕ) (bs : List ℕ) (as_many : length bs ≡ min (seq / 4) 512) where
  pub raw_valid :
      (capacity : ℕ)
      → places capacity (take (selected_tokens seq + seq % 4) (raw_of seq bs))
        ≡ tokens_of bs ++ range_from (seq / 4 * 4) (seq % 4)
  raw_valid capacity =
      let valid = tokens_of bs ++ range_from (seq / 4 * 4) (seq % 4) in
      let long : selected_tokens seq + seq % 4 ≡ length (map some valid) = omega (
        arith,
        length-map_plain valid,
        length-append (tokens_of bs) (range_from (seq / 4 * 4) (seq % 4)),
        length-tokens_of bs,
        length-range_from (seq / 4 * 4) (seq % 4),
      ) in
      rw
        (take_prefix (selected_tokens seq + seq % 4) (map some valid)
          (padding (2051 - selected_tokens seq - seq % 4)) long)
        (places_plain capacity valid)

  pub raw_selected :
      (take (selected_tokens seq) (raw_of seq bs) ≡ map some (tokens_of bs))
      × (drop (selected_tokens seq) (raw_of seq bs)
          ≡ map some (range_from (seq / 4 * 4) (seq % 4))
            ++ padding (2051 - selected_tokens seq - seq % 4))
  raw_selected =
      let range = range_from (seq / 4 * 4) (seq % 4) in
      let rest = padding (2051 - selected_tokens seq - seq % 4) in
      let long : selected_tokens seq ≡ length (map some (tokens_of bs)) =
        omega (arith, length-map_plain (tokens_of bs), length-tokens_of bs) in
      let split : raw_of seq bs ≡ map some (tokens_of bs) ++ (map some range ++ rest) =
        ap (λ l. l ++ rest) (map-append_plain (tokens_of bs) range)
        ∙ append_assoc (map some (tokens_of bs)) (map some range) rest in
      (
        rw split (
            take_prefix (selected_tokens seq) (map some (tokens_of bs)) (map some range ++ rest)
              long),
        rw split (
            drop_prefix (selected_tokens seq) (map some (tokens_of bs)) (map some range ++ rest)
              long),
      )

pub mem_index_lem : (t : ℕ) (xs : List ℕ) → mem_index (some t) (map some xs) ≡ mem t xs
unfolding mem_index mem
mem_index_lem t [] = refl
mem_index_lem t (x ∷ xs) = ground (arith, mem_index_lem t xs)

pub valid_set_lem :
    (n : ℕ) (bs : List ℕ) → distinct bs ≡ true → AllBelow n bs → valid_set n (map some bs) ≡ true
unfolding distinct valid_set
valid_set_lem n [] d b = refl
valid_set_lem n (x ∷ bs) d b = ground (arith, mem_index_lem x bs, valid_set_lem n bs)

pub expands_lem : (bs : List ℕ) → expands (map some (tokens_of bs)) (map some bs) ≡ true
unfolding expands is_index
expands_lem [] = refl
expands_lem (b ∷ bs) = ground (arith, expands_lem bs)

pub pending_padding : (start n : ℕ) → pending_then_padding start 0 n (padding n) ≡ true
unfolding pending_then_padding
pending_padding start zero = refl
pending_padding start (suc n) = pending_padding start n

pub pending_lem :
    (start tail n : ℕ)
    → pending_then_padding start tail n (map some (range_from start tail) ++ padding n) ≡ true
unfolding pending_then_padding is_index range_from
pending_lem start zero n = pending_padding start n
pending_lem start (suc tail) n = ground (arith, pending_lem (start + 1) tail n)
