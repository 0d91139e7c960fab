-- ===== src/Single/Chunks.antt =====
-- single_request.py: the copy in chunks puts every token's rows where the layout says.
use qsa_hisparse.Prelude.{
  ℕ, zero, suc, ◌+◌, ◌-◌, ◌*◌, ◌/◌, ◌%◌, ◌<◌, ◌≤◌, ◌≡◌, refl, sym, ◌∙◌, min, inl, inr, some, List,
  [], ◌∷◌, length, take, drop, get_elem?, ltb, Bool-cases, arith,
}
use qsa_hisparse.Layout.Defs.{pack_c4, join_c4, unpack_row}
use qsa_hisparse.Layout.Unpack.{join_c4-rows}
use qsa_hisparse.Single.Rows.{Rows, chunk, write_rows, gather, copy_chunks}

pub get_elem?-take :
    {A : Type 0} (n i : ℕ) (xs : List A) → i < n → get_elem? (take n xs) i ≡ get_elem? xs i
get_elem?-take zero i xs h = absurd (omega arith)
get_elem?-take (suc n) i [] h = refl
get_elem?-take (suc n) zero (x ∷ xs) h = refl
get_elem?-take (suc n) (suc i) (x ∷ xs) h = get_elem?-take n i xs (omega arith)

pub get_elem?-drop :
    {A : Type 0} (n i : ℕ) (xs : List A) → get_elem? (drop n xs) i ≡ get_elem? xs (n + i)
get_elem?-drop zero i xs = let z : 0 + i ≡ i = omega arith in rw z refl
get_elem?-drop (suc n) i [] = refl
get_elem?-drop (suc n) i (x ∷ xs) =
    let z : suc n + i ≡ suc (n + i) = omega arith in rw z (get_elem?-drop n i xs)

pub length-drop : {A : Type 0} (n : ℕ) (xs : List A) → length (drop n xs) ≡ length xs - n
length-drop zero xs = omega arith
length-drop (suc n) [] = omega arith
length-drop (suc n) (x ∷ xs) = omega (arith, length-drop n xs)

pub length-take : {A : Type 0} (n : ℕ) (xs : List A) → length (take n xs) ≡ min n (length xs)
length-take zero xs = omega arith
length-take (suc n) [] = omega arith
length-take (suc n) (x ∷ xs) = omega (arith, length-take n xs)

pub length-gather : {A : Type 0} (m : Rows A) (xs : List ℕ) → length (gather m xs) ≡ length xs
unfolding gather
length-gather m [] = refl
length-gather m (x ∷ xs) = omega (arith, length-gather m xs)

pub get_elem?-gather :
    {A : Type 0} (m : Rows A) (xs : List ℕ) (i p : ℕ)
    → get_elem? xs i ≡ some p
    → get_elem? (gather m xs) i ≡ some (m p)
unfolding gather
get_elem?-gather m [] i p h = absurd (ground arith)
get_elem?-gather m (x ∷ xs) zero p h = ground arith
get_elem?-gather m (x ∷ xs) (suc i) p h = get_elem?-gather m xs i p h

-- Inside what is written, and outside it.
pub write_rows_in :
    {A : Type 0} (m : Rows A) (start : ℕ) (rows : List A) (i : ℕ) (a : A)
    → get_elem? rows i ≡ some a
    → write_rows m start rows (start + i) ≡ a
unfolding write_rows
write_rows_in m start [] i a h = absurd (ground arith)
write_rows_in m start (r ∷ rows) zero a h = ground arith
write_rows_in m start (r ∷ rows) (suc i) a h =
    let z : start + suc i ≡ start + 1 + i = omega arith in
    rw z (ground (arith, write_rows_in m (start + 1) rows i a h))

pub write_rows_before :
    {A : Type 0} (m : Rows A) (start : ℕ) (rows : List A) (i : ℕ)
    → i < start
    → write_rows m start rows i ≡ m i
unfolding write_rows
write_rows_before m start [] i h = refl
write_rows_before m start (r ∷ rows) i h = ground (arith, write_rows_before m (start + 1) rows i)

pub write_rows_after :
    {A : Type 0} (m : Rows A) (start : ℕ) (rows : List A) (i : ℕ)
    → start + length rows ≤ i
    → write_rows m start rows i ≡ m i
unfolding write_rows
write_rows_after m start [] i h = refl
write_rows_after m start (r ∷ rows) i h = ground (arith, write_rows_after m (start + 1) rows i)

length-join_c4 :
    {A : Type 0} (n : ℕ) (k v : List A)
    → length k ≡ 4 * n
    → length v ≡ 4 * n
    → length (join_c4 k v) ≡ 8 * n
unfolding join_c4
length-join_c4 zero [] v a b = omega arith
length-join_c4 zero (x ∷ k) v a b = absurd (omega arith)
length-join_c4 (suc n) [] v a b = absurd (omega arith)
length-join_c4 (suc n) (x ∷ []) v a b = absurd (omega arith)
length-join_c4 (suc n) (x ∷ y ∷ []) v a b = absurd (omega arith)
length-join_c4 (suc n) (x ∷ y ∷ z ∷ []) v a b = absurd (omega arith)
length-join_c4 (suc n) (x ∷ y ∷ z ∷ w ∷ k) [] a b = absurd (omega arith)
length-join_c4 (suc n) (x ∷ y ∷ z ∷ w ∷ k) (p ∷ []) a b = absurd (omega arith)
length-join_c4 (suc n) (x ∷ y ∷ z ∷ w ∷ k) (p ∷ q ∷ []) a b = absurd (omega arith)
length-join_c4 (suc n) (x ∷ y ∷ z ∷ w ∷ k) (p ∷ q ∷ r ∷ []) a b = absurd (omega arith)
length-join_c4 (suc n) (x ∷ y ∷ z ∷ w ∷ k) (p ∷ q ∷ r ∷ s ∷ v) a b =
    omega (arith, length-join_c4 n k v (omega arith) (omega arith))

-- The rows of a token are in its record.
abbrev pub HasToken : {A : Type 0} → Rows A → Rows A → Rows A → ℕ → ℕ → Type 0
HasToken host k v t p = (host (unpack_row t) ≡ k p) × (host (unpack_row t + 4) ≡ v p)

-- One round of the copy: complete records of the tokens from `offset` on.
module _ {A : Type 0} (k v host : Rows A) (offset n : ℕ) (src : List ℕ) (aligned : offset % 4 ≡ 0)
    (full : length src ≡ 4 * n) where
  pack_c4-gather :
      pack_c4 (gather k src) (gather v src) ≡ some (join_c4 (gather k src) (gather v src))
  unfolding pack_c4
  pack_c4-gather = ground (arith, length-gather k src, length-gather v src)

  chunk_token :
      (t p : ℕ)
      → get_elem? src t ≡ some p
      → t < 4 * n
      → HasToken
          (write_rows host (offset * 2) (join_c4 (gather k src) (gather v src)))
          k
          v
          (offset + t)
          p
  chunk_token t p h lt =
      let (one, two) =
        join_c4-rows n (gather k src) (gather v src) t (omega (arith, length-gather k src))
          (omega (arith, length-gather v src)) lt in
      let packed = join_c4 (gather k src) (gather v src) in
      let here : unpack_row (offset + t) ≡ offset * 2 + unpack_row t = omega arith in
      let there : unpack_row (offset + t) + 4 ≡ offset * 2 + (unpack_row t + 4) = omega arith in
      (
        rw here (
            write_rows_in host (offset * 2) packed (unpack_row t) (k p)
              (one ∙ get_elem?-gather k src t p h)),
        rw there (
            write_rows_in host (offset * 2) packed (unpack_row t + 4) (v p)
              (two ∙ get_elem?-gather v src t p h)),
      )

  chunk_after :
      (r : ℕ)
      → offset * 2 + 8 * n ≤ r
      → write_rows host (offset * 2) (join_c4 (gather k src) (gather v src)) r ≡ host r
  chunk_after r h = write_rows_after host (offset * 2) (join_c4 (gather k src) (gather v src)) r (
      omega (
        arith,
        length-join_c4 n (gather k src) (gather v src) (omega (arith, length-gather k src))
            (omega (arith, length-gather v src)),
      ))

-- What a copy from `offset` on has to do.
pub record IsCopied {A : Type 0} (k v : Rows A) (slots : List ℕ) (host : Rows A) (offset total : ℕ)
    (result : Rows A) : Type 0 where
  pub tokens :
      (t p : ℕ) → offset ≤ t → t < total → get_elem? slots t ≡ some p → HasToken result k v t p
  pub before : (r : ℕ) → r < offset * 2 → result r ≡ host r
  pub beyond : (r : ℕ) → offset * 2 ≤ r → total * 2 ≤ r → result r ≡ host r

pub copy_chunks-IsCopied :
    {A : Type 0} (k v : Rows A) (slots : List ℕ) (total fuel offset : ℕ) (host : Rows A)
    → offset % 4 ≡ 0
    → total % 4 ≡ 0
    → total ≤ length slots
    → total ≤ offset + fuel * chunk
    → (result : Rows A) × (copy_chunks fuel offset total k v slots host ≡ some result)
      × IsCopied k v slots host offset total result
unfolding copy_chunks
copy_chunks-IsCopied k v slots total zero offset host a b c d = (
  host,
  refl,
  record {
    tokens = λ t p h lt e. absurd (omega arith);
    before = λ r h. refl;
    beyond = λ r g h. refl;
  },
)
copy_chunks-IsCopied k v slots total (suc fuel) offset host a b c d =
    elim (Bool-cases (ltb offset total)) [
      | inr e ↦ (
        host,
        ground arith,
        record {
          tokens = λ t p h lt f. absurd (ground arith);
          before = λ r h. refl;
          beyond = λ r g h. refl;
        },
      )
      | inl e ↦
          let m = min (offset + chunk) total - offset in
          let src = take m (drop offset slots) in
          let four : m ≡ 4 * (m / 4) = ground arith in
          let full : length src ≡ 4 * (m / 4) =
            ground (arith, length-take m (drop offset slots), length-drop offset slots) in
          let packed = pack_c4-gather k v host offset (m / 4) src a full in
          let host1 = write_rows host (offset * 2) (join_c4 (gather k src) (gather v src)) in
          let (result, run, copied) =
            copy_chunks-IsCopied k v slots total fuel (offset + chunk) host1 (omega arith) b c
              (omega arith) in
          (
            result,
            rw (e, packed) run,
            record {
              tokens = λ t p h lt f.
                  let here : offset + (t - offset) ≡ t = omega arith in
                  elim (Bool-cases (ltb t (offset + chunk))) [
                    | inr far ↦ copied.tokens t p (ground arith) lt f
                    | inl near ↦
                        let inside : t - offset < 4 * (m / 4) = ground arith in
                        let place : get_elem? src (t - offset) ≡ some p =
                          get_elem?-take m (t - offset) (drop offset slots) (omega arith)
                          ∙ (get_elem?-drop offset (t - offset) slots ∙ rw here f) in
                        let (one, two) =
                          chunk_token k v host offset (m / 4) src a full (t - offset) p place
                            inside in
                        (
                          copied.before (unpack_row t) (ground arith) ∙ rw (sym here) one,
                          copied.before (unpack_row t + 4) (ground arith) ∙ rw (sym here) two,
                        )
                  ];
              before = λ r h.
                  copied.before r (omega arith)
                  ∙ write_rows_before host (offset * 2) (join_c4 (gather k src) (gather v src)) r h;
              beyond = λ r g h.
                  let untouched = chunk_after k v host offset (m / 4) src a full r (ground arith) in
                  elim (Bool-cases (ltb r ((offset + chunk) * 2))) [
                    | inl near ↦ copied.before r (ground arith) ∙ untouched
                    | inr far ↦ copied.beyond r (ground arith) h ∙ untouched
                  ];
            },
          )
    ]
