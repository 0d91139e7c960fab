-- ===== src/Layout/Defs.antt =====
-- `pack_c4` and `unpack_index`. A row is the 256 bytes of one head; it is not looked into.
use qsa_hisparse.Prelude.{
  ℕ, ◌+◌, ◌*◌, ◌/◌, ◌%◌, ◌&&◌, Option, none, some, List, [], ◌∷◌, ◌++◌, map, ◌==◌, if◌then◌else◌,
  length, range_from,
}

module _ {A : Type 0} where
  -- `torch.cat` of the two tensors with four rows to a line, line by line.
  unfoldable pub join_c4 : List A → List A → List A
  join_c4 (a ∷ b ∷ c ∷ d ∷ ks) (e ∷ f ∷ g ∷ h ∷ vs) = a ∷ b ∷ c ∷ d ∷ e ∷ f ∷ g ∷ h ∷ join_c4 ks vs
  join_c4 ks vs = []

  -- `pack_c4` of K and V rows; `none` is the ValueError. The width of a row is 256 in both.
  unfoldable pub pack_c4 : List A → List A → Option (List A)
  unfolding join_c4
  pack_c4 k v = if (length k == length v) && (length k % 4 == 0) then some (join_c4 k v) else none

-- The K row of a token among the rows of the records.
abbrev pub unpack_row : ℕ → ℕ
unpack_row row = row / 4 * 8 + row % 4

-- `unpack_index`, which the source makes for 2048 rows: the K rows of all tokens, then their V rows.
unfoldable pub unpack_index : ℕ → List ℕ
unpack_index rows =
    map unpack_row (range_from 0 rows) ++ map (λ row. unpack_row row + 4) (range_from 0 rows)
