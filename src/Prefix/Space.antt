-- ===== src/Prefix/Space.antt =====
-- The bytes of a set of snapshots: a block counts once, so only which blocks occur matters.
use qsa_hisparse.Prelude.{
  ℕ, ◌+◌, ◌≤◌, ◌≡◌, refl, sym, ◌∙◌, Bool, true, false, not, ◌&&◌, ◌||◌, none, some, List, [], ◌∷◌,
  ◌++◌, if◌then◌else◌, arith, Dict, get, put, del,
}
use qsa_hisparse.Prefix.Defs.{Snapshot, Entry, tensors, byte_length}
use qsa_hisparse.Prefix.Cache.{
  Block, block_eq, block_eq_iff, block_in, distinct, total, storages_of, all_host, storages, keys,
  are_host, bytes_of, snapshots, footprint,
}

-- Every block of the first list stands in the second.
abbrev pub Within : List Block → List Block → Type 0
Within xs ys = (b : Block) → block_in b xs ≡ true → block_in b ys ≡ true

pub block_in-append :
    (b : Block) (xs ys : List Block) → block_in b (xs ++ ys) ≡ (block_in b xs || block_in b ys)
unfolding block_in
block_in-append b [] ys = refl
block_in-append b (a ∷ xs) ys = ground (arith, block_in-append b xs ys)

-- A list without one block.
without : Block → List Block → List Block
without b [] = []
without b (a ∷ xs) = let rest = without b xs in if block_eq b a then rest else a ∷ rest

block_in-without :
    (b c : Block) (xs : List Block)
    → block_in c (without b xs) ≡ (not (block_eq b c) && block_in c xs)
unfolding block_in without
block_in-without b c [] = ground arith
block_in-without b c (a ∷ xs) =
    ground (arith, block_in-without b c xs, block_eq_iff b a, block_eq_iff b c, block_eq_iff c a)

-- No block stands twice.
abbrev Single : List Block → Type 0
Single [] = Unit {0}
Single (b ∷ xs) = (block_in b xs ≡ false) × Single xs

Single-distinct : (xs : List Block) → Single (distinct xs)
unfolding distinct
Single-distinct [] = tt
Single-distinct (b ∷ xs) = ground (arith, Single-distinct xs)

block_in-distinct : (b : Block) (xs : List Block) → block_in b (distinct xs) ≡ block_in b xs
unfolding block_in distinct
block_in-distinct b [] = refl
block_in-distinct b (a ∷ xs) =
    ground (arith, block_in-distinct b xs, block_in-distinct a xs, block_eq_iff b a)

total-without_le : (b : Block) (xs : List Block) → total (without b xs) ≤ total xs
unfolding without total
total-without_le b [] = omega arith
total-without_le b (a ∷ xs) = ground (arith, total-without_le b xs)

total-without :
    (b : Block) (xs : List Block) → block_in b xs ≡ true → b.1 + total (without b xs) ≤ total xs
unfolding block_in without total
total-without b [] h = absurd (ground arith)
total-without b (a ∷ xs) h =
    ground (arith, total-without b xs, total-without_le b xs, block_eq_iff b a)

total_mono : (xs ys : List Block) → Single xs → Within xs ys → total xs ≤ total ys
unfolding total block_in
total_mono [] ys s h = omega arith
total_mono (b ∷ xs) ys s h =
    let rest : total xs ≤ total (without b ys) =
      total_mono xs (without b ys) s.1
        (λ c e. ground (arith, h c, block_in-without b c ys, block_eq_iff b c)) in
    omega (arith, total-without b ys (h b (ground (arith, block_eq_iff b b))))

-- What is counted once: fewer blocks take no more bytes.
pub total-distinct_mono :
    (xs ys : List Block) → Within xs ys → total (distinct xs) ≤ total (distinct ys)
total-distinct_mono xs ys h =
    total_mono (distinct xs) (distinct ys) (Single-distinct xs)
      (λ b e. ground (arith, h b, block_in-distinct b xs, block_in-distinct b ys))

-- Whether some snapshot passes a test.
abbrev pub any_snapshot : (Snapshot → Bool) → List Snapshot → Bool
any_snapshot f [] = false
any_snapshot f (s ∷ ss) = f s || any_snapshot f ss

-- Every snapshot of the first list occurs in the second.
abbrev pub Fewer : List Snapshot → List Snapshot → Type 0
Fewer xs ys = (f : Snapshot → Bool) → any_snapshot f xs ≡ true → any_snapshot f ys ≡ true

pub any_snapshot-append :
    (f : Snapshot → Bool) (xs ys : List Snapshot)
    → any_snapshot f (xs ++ ys) ≡ (any_snapshot f xs || any_snapshot f ys)
any_snapshot-append f [] ys = refl
any_snapshot-append f (x ∷ xs) ys = ground (arith, any_snapshot-append f xs ys)

block_in-storages :
    (b : Block) (ss : List Snapshot)
    → block_in b (storages ss) ≡ any_snapshot (λ s. block_in b (storages_of (tensors s))) ss
unfolding block_in storages
block_in-storages b [] = refl
block_in-storages b (s ∷ ss) =
    ground
      (arith, block_in-append b (storages_of (tensors s)) (storages ss), block_in-storages b ss)

block_in-keys :
    (b : Block) (ss : List Snapshot)
    → block_in b (keys ss)
      ≡ any_snapshot (λ s. block_eq b (s.tokens.address, byte_length s.tokens)) ss
unfolding block_in keys
block_in-keys b [] = refl
block_in-keys b (s ∷ ss) = ground (arith, block_in-keys b ss)

are_host-any :
    (ss : List Snapshot) → are_host ss ≡ not (any_snapshot (λ s. not (all_host (tensors s))) ss)
unfolding are_host
are_host-any [] = refl
are_host-any (s ∷ ss) = ground (arith, are_host-any ss)

Bool-le : (a b : Bool) → (a ≡ true → b ≡ true) → not b ≡ true → not a ≡ true
Bool-le a b h e = ground arith

are_host-Fewer : (xs ys : List Snapshot) → Fewer xs ys → are_host ys ≡ true → are_host xs ≡ true
are_host-Fewer xs ys h e =
    are_host-any xs ∙ Bool-le _ _ (h (λ s. not (all_host (tensors s)))) (sym (are_host-any ys) ∙ e)

bytes_of_mono : (xs ys : List Snapshot) → Fewer xs ys → bytes_of xs ≤ bytes_of ys
unfolding bytes_of
bytes_of_mono xs ys h = omega (
  arith,
  total-distinct_mono (storages xs) (storages ys)
      λ b e. block_in-storages b ys ∙ h _ (sym (block_in-storages b xs) ∙ e),
  total-distinct_mono (keys xs) (keys ys)
      λ b e. block_in-keys b ys ∙ h _ (sym (block_in-keys b xs) ∙ e),
)

-- Fewer snapshots have a footprint where more have one, and it is no larger.
pub footprint_mono :
    (xs ys : List Snapshot) (u : ℕ)
    → Fewer xs ys
    → footprint ys ≡ some u
    → (v : ℕ) × (footprint xs ≡ some v) × (v ≤ u)
unfolding footprint
footprint_mono xs ys u h e =
    let host : are_host ys ≡ true = ground arith in
    (
      bytes_of xs,
      ground (arith, are_host-Fewer xs ys h host),
      ground (arith, bytes_of_mono xs ys h),
    )

pub footprint-eq : (xs ys : List Snapshot) → Fewer xs ys → Fewer ys xs → footprint xs ≡ footprint ys
unfolding footprint
footprint-eq xs ys h k = ground (
  arith,
  are_host-Fewer xs ys h,
  are_host-Fewer ys xs k,
  bytes_of_mono xs ys h,
  bytes_of_mono ys xs k,
)

any_snapshot-del :
    (f : Snapshot → Bool) (k : ℕ) (m : Dict Entry)
    → any_snapshot f (snapshots (del k m)) ≡ true
    → any_snapshot f (snapshots m) ≡ true
unfolding snapshots del
any_snapshot-del f k [] e = e
any_snapshot-del f k ((j, x) ∷ m) e = ground (arith, any_snapshot-del f k m)

-- An entry taken out, whatever else stands beside it.
pub Fewer-del : (k : ℕ) (m : Dict Entry) → Fewer (snapshots (del k m)) (snapshots m)
Fewer-del k m f e = any_snapshot-del f k m e

-- A change of the number of readers shows in no snapshot.
pub any_snapshot-put :
    (f : Snapshot → Bool) (k : ℕ) (e e' : Entry) (m : Dict Entry)
    → get k m ≡ some e
    → e'.snapshot ≡ e.snapshot
    → any_snapshot f (snapshots (put k e' m)) ≡ any_snapshot f (snapshots m)
unfolding snapshots get put
any_snapshot-put f k e e' [] g h = absurd (ground arith)
any_snapshot-put f k e e' ((j, x) ∷ m) g h = ground (arith, any_snapshot-put f k e e' m)

pub any_snapshot-put_new :
    (f : Snapshot → Bool) (k : ℕ) (e : Entry) (m : Dict Entry)
    → get k m ≡ none
    → any_snapshot f (snapshots (put k e m)) ≡ (any_snapshot f (snapshots m) || f e.snapshot)
unfolding snapshots get put
any_snapshot-put_new f k e [] g = ground arith
any_snapshot-put_new f k e ((j, x) ∷ m) g = ground (arith, any_snapshot-put_new f k e m)

pub any_snapshot-get :
    (f : Snapshot → Bool) (k : ℕ) (e : Entry) (m : Dict Entry)
    → get k m ≡ some e
    → f e.snapshot ≡ true
    → any_snapshot f (snapshots m) ≡ true
unfolding snapshots get
any_snapshot-get f k e [] g h = absurd (ground arith)
any_snapshot-get f k e ((j, x) ∷ m) g h = ground (arith, any_snapshot-get f k e m)
