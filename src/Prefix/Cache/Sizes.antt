-- ===== src/Prefix/Cache/Sizes.antt =====
-- `_footprint` and `used_bytes` of prefix.py.
use qsa_hisparse.Prelude.{
  ℕ, ◌+◌, ◌≡◌, ◌↔◌, Bool, true, false, ◌&&◌, ◌||◌, Option, none, some, List, [], ◌∷◌, ◌++◌, ◌==◌,
  if◌then◌else◌, arith, Dict,
}
use qsa_hisparse.Prefix.Defs.{Tensor, Snapshot, Entry, Cache, byte_length, tensors}

-- What has a size and is counted once: a storage, or a byte string, by its identity and its bytes.
abbrev pub Block : Type 0
Block = ℕ × ℕ

-- `==` of two identities with their sizes.
unfoldable pub block_eq : Block → Block → Bool
block_eq a b = (a.0 == b.0) && (a.1 == b.1)

pub block_eq_iff : (a b : Block) → (block_eq a b ≡ true) ↔ (a ≡ b)
unfolding block_eq
block_eq_iff a b = ground arith

unfoldable pub block_in : Block → List Block → Bool
block_in b [] = false
block_in b (a ∷ bs) = block_eq b a || block_in b bs

-- The keys of the dict that counts each block once.
unfoldable pub distinct : List Block → List Block
distinct [] = []
distinct (b ∷ bs) = let rest = distinct bs in if block_in b rest then rest else b ∷ rest

unfoldable pub total : List Block → ℕ
total [] = 0
total (b ∷ bs) = b.1 + total bs

unfoldable pub storages_of : List Tensor → List Block
storages_of [] = []
storages_of (t ∷ ts) = (t.data_ptr, t.nbytes) ∷ storages_of ts

unfoldable pub all_host : List Tensor → Bool
all_host [] = true
all_host (t ∷ ts) = t.on_cpu && all_host ts

unfoldable pub storages : List Snapshot → List Block
unfolding storages_of
storages [] = []
storages (s ∷ ss) = storages_of (tensors s) ++ storages ss

unfoldable pub keys : List Snapshot → List Block
keys [] = []
keys (s ∷ ss) = (s.tokens.address, byte_length s.tokens) ∷ keys ss

unfoldable pub are_host : List Snapshot → Bool
unfolding all_host
are_host [] = true
are_host (s ∷ ss) = all_host (tensors s) && are_host ss

-- The bytes of the snapshots, each storage and each token string once.
unfoldable pub bytes_of : List Snapshot → ℕ
unfolding distinct block_in block_eq total storages keys
bytes_of ss = total (distinct (storages ss)) + total (distinct (keys ss))

-- `_footprint`: `none` is the ValueError on a tensor that is not on the host.
unfoldable pub footprint : List Snapshot → Option ℕ
footprint ss = if are_host ss then some (bytes_of ss) else none

unfoldable pub snapshots : Dict Entry → List Snapshot
snapshots [] = []
snapshots ((k, e) ∷ m) = e.snapshot ∷ snapshots m

unfoldable pub used_bytes : Cache → Option ℕ
unfolding snapshots footprint
used_bytes c = footprint (snapshots c.entries ++ snapshots c.retired)
