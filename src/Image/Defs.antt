-- ===== src/Image/Defs.antt =====
-- The identity of a request's images, and the key that a prefix of it has.
use qsa_hisparse.Prelude.{
  ℕ, zero, suc, ◌+◌, ◌-◌, ◌/◌, ◌%◌, String, ◌≡◌, ◌↔◌, Bool, true, false, not, ◌&&◌, ◌||◌, Option,
  none, some, List, [], ◌∷◌, ◌++◌, ltb, ◌==◌, if◌then◌else◌, str_eq, str_eq_iff, length, get_elem?,
  arith, take, drop, words_eq, words_eq_iff,
}

-- `PAGE`
abbrev pub page : ℕ
page = 64

-- A SHA-256 digest, by its bytes.
abbrev pub Digest : Type 0
Digest = List ℕ

pub record ImageRecord : Type 0 where
  pub artifact_key : String
  pub order : ℕ
  pub start : ℕ
  pub stop : ℕ
  pub grid : List ℕ

-- `ImagePrefixIdentity`
pub record Identity : Type 0 where
  pub records : List ImageRecord
  pub page_digests : List Digest

-- The pair that `key_at` returns.
pub record Key : Type 0 where
  pub records : List ImageRecord
  pub digest : Digest

-- `tuple(r for r in self.records if r.start < length)`
unfoldable pub keep_before : ℕ → List ImageRecord → List ImageRecord
keep_before n [] = []
keep_before n (r ∷ rs) = let rest = keep_before n rs in if ltb r.start n then r ∷ rest else rest

unfoldable pub records_at : Identity → ℕ → List ImageRecord
unfolding keep_before
records_at i n = keep_before n i.records

-- `none` is the ValueError.
unfoldable pub digest_at : Identity → ℕ → Option Digest
digest_at i n =
    if not (n % page == 0) || ((n == 0) || ltb (length i.page_digests) (n / page))
    then none
    else get_elem? i.page_digests (n / page - 1)

unfoldable pub key_at : Identity → ℕ → Option Key
unfolding records_at digest_at
key_at i n = elim (digest_at i n) [
  | none ↦ none
  | some d ↦ some (record { records = records_at i n; digest = d })
]

-- `==` of two records, of two tuples of records, of two keys.
unfoldable pub record_eq : ImageRecord → ImageRecord → Bool
record_eq a b =
    str_eq a.artifact_key b.artifact_key
    && ((a.order == b.order)
        && ((a.start == b.start) && ((a.stop == b.stop) && words_eq a.grid b.grid)))

unfoldable pub records_eq : List ImageRecord → List ImageRecord → Bool
unfolding record_eq
records_eq [] [] = true
records_eq [] (b ∷ ys) = false
records_eq (a ∷ xs) [] = false
records_eq (a ∷ xs) (b ∷ ys) = record_eq a b && records_eq xs ys

unfoldable pub key_eq : Option Key → Option Key → Bool
unfolding records_eq
key_eq none none = true
key_eq none (some b) = false
key_eq (some a) none = false
key_eq (some a) (some b) = records_eq a.records b.records && words_eq a.digest b.digest

pub record_eq_iff : (a b : ImageRecord) → (record_eq a b ≡ true) ↔ (a ≡ b)
unfolding record_eq
record_eq_iff a b =
    ground (arith, str_eq_iff a.artifact_key b.artifact_key, words_eq_iff a.grid b.grid)

pub records_eq_iff : (xs ys : List ImageRecord) → (records_eq xs ys ≡ true) ↔ (xs ≡ ys)
unfolding records_eq
records_eq_iff [] [] = ground arith
records_eq_iff [] (b ∷ ys) = ground arith
records_eq_iff (a ∷ xs) [] = ground arith
records_eq_iff (a ∷ xs) (b ∷ ys) = ground (arith, record_eq_iff a b, records_eq_iff xs ys)

pub key_eq_iff : (a b : Option Key) → (key_eq a b ≡ true) ↔ (a ≡ b)
unfolding key_eq
key_eq_iff none none = ground arith
key_eq_iff none (some b) = ground arith
key_eq_iff (some a) none = ground arith
key_eq_iff (some a) (some b) =
    ground (arith, records_eq_iff a.records b.records, words_eq_iff a.digest b.digest)

-- `page_digests`: the positions are the rows of the three axes; `block` serializes one page of them,
-- and `sha` is the digest of the hash library.
unfoldable pub digests_from : (List ℕ → Digest) → Digest → List (List ℕ) → List Digest
digests_from sha previous [] = []
digests_from sha previous (block ∷ blocks) =
    let next = sha (previous ++ block) in next ∷ digests_from sha next blocks

-- The bytes of `positions[:, page * PAGE : (page + 1) * PAGE]`, one number to a position, for the
-- complete pages among `n` more positions from `start` on.
unfoldable pub page_block : List (List ℕ) → ℕ → List ℕ
page_block [] start = []
page_block (axis ∷ axes) start = take page (drop start axis) ++ page_block axes start

unfoldable pub page_blocks : List (List ℕ) → ℕ → ℕ → List (List ℕ)
unfolding page_block
page_blocks positions start zero = []
page_blocks positions start (suc pages) =
    page_block positions start ∷ page_blocks positions (start + page) pages

unfoldable pub page_digests : (List ℕ → Digest) → List (List ℕ) → ℕ → List Digest
unfolding digests_from page_blocks
page_digests sha positions n = digests_from sha [] (page_blocks positions 0 (n / page))
