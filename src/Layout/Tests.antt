-- ===== src/Layout/Tests.antt =====
-- One record of four tokens, and the theorem of layout.py at it.
use qsa_hisparse.Prelude.{ℕ, ◌+◌, ◌*◌, ◌≡◌, refl, some, List, [], ◌∷◌, get_elem?, arith}
use qsa_hisparse.Layout.Defs.{join_c4, pack_c4, unpack_index}
use qsa_hisparse.Layout.Unpack.{unpack_index-pack_c4}

abbrev k_rows : List ℕ
k_rows = 10 ∷ 11 ∷ 12 ∷ 13 ∷ []

abbrev v_rows : List ℕ
v_rows = 20 ∷ 21 ∷ 22 ∷ 23 ∷ []

abbrev record_rows : List ℕ
record_rows = 10 ∷ 11 ∷ 12 ∷ 13 ∷ 20 ∷ 21 ∷ 22 ∷ 23 ∷ []

packed : pack_c4 k_rows v_rows ≡ some record_rows
unfolding pack_c4 join_c4
packed = refl

unpack_index-pack_c4_example :
    (row : ℕ) × (half : ℕ) × (get_elem? (unpack_index (4 * 1)) 2 ≡ some row)
    × (get_elem? (unpack_index (4 * 1)) (4 * 1 + 2) ≡ some half)
    × (get_elem? record_rows row ≡ get_elem? k_rows 2)
    × (get_elem? record_rows half ≡ get_elem? v_rows 2)
unpack_index-pack_c4_example =
    unpack_index-pack_c4 1 k_rows v_rows record_rows 2 refl packed (omega arith)
