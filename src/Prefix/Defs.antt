-- ===== src/Prefix/Defs.antt =====
-- The data of prefix.py. A tensor is its storage, its shape and whether it is on the host; a byte
-- string of tokens is its identity and its eight-byte words.
use qsa_hisparse.Prelude.{
  ℕ, ◌*◌, String, ◌≡◌, ◌↔◌, Bool, true, false, ◌&&◌, Option, none, some, List, [], ◌∷◌, ◌++◌, ◌==◌,
  str_eq, str_eq_iff, length, arith, Dict,
}
use qsa_hisparse.Image.Defs.{Key, Identity, key_at}

pub record Tensor : Type 0 where
  pub data_ptr : ℕ
  pub nbytes : ℕ
  pub shape : List ℕ
  pub on_cpu : Bool

pub record Bytes : Type 0 where
  pub address : ℕ
  pub words : List ℕ

-- `len` of the byte string.
abbrev pub byte_length : Bytes → ℕ
byte_length b = 8 * length b.words

-- `PrefixSegment`
pub record Segment : Type 0 where
  pub start : ℕ
  pub stop : ℕ
  pub raw : Tensor
  pub index : Tensor

-- The tuple of `_namespace` in prefix_cache.py; the model part is one text.
pub record Namespace : Type 0 where
  pub model : String
  pub epoch : ℕ
  pub extra_key : Option String
  pub cache_salt : Option String
  pub lora_id : Option String

-- `PrefixSnapshot`
pub record Snapshot : Type 0 where
  pub namespace : Namespace
  pub tokens : Bytes
  pub segments : List Segment
  pub pending : List Tensor
  pub rope : Tensor
  pub mamba : List Tensor
  pub image_key : Option Key

-- `length`: `len(self.tokens) // 8`
abbrev pub token_count : Bytes → ℕ
token_count b = length b.words

abbrev pub snapshot_length : Snapshot → ℕ
snapshot_length s = token_count s.tokens

-- `image_key`: `none` outside is the ValueError of `key_at`.
unfoldable pub image_key : Option Identity → ℕ → Option (Option Key)
image_key none n = some none
image_key (some i) n = elim (key_at i n) [ none ↦ none | some k ↦ some (some k) ]

-- `tensors(snapshot)`, in the order of the fields.
unfoldable pub segment_tensors : List Segment → List Tensor
segment_tensors [] = []
segment_tensors (s ∷ ss) = s.raw ∷ s.index ∷ segment_tensors ss

unfoldable pub tensors : Snapshot → List Tensor
unfolding segment_tensors
tensors s = segment_tensors s.segments ++ (s.pending ++ (s.rope ∷ s.mamba))

-- `==` of optional texts and of namespaces.
unfoldable pub opt_eq : Option String → Option String → Bool
opt_eq none none = true
opt_eq none (some b) = false
opt_eq (some a) none = false
opt_eq (some a) (some b) = str_eq a b

pub opt_eq_iff : (a b : Option String) → (opt_eq a b ≡ true) ↔ (a ≡ b)
unfolding opt_eq
opt_eq_iff none none = ground arith
opt_eq_iff none (some b) = ground arith
opt_eq_iff (some a) none = ground arith
opt_eq_iff (some a) (some b) = ground (arith, str_eq_iff a b)

unfoldable pub namespace_eq : Namespace → Namespace → Bool
namespace_eq a b =
    str_eq a.model b.model
    && ((a.epoch == b.epoch)
        && (opt_eq a.extra_key b.extra_key
            && (opt_eq a.cache_salt b.cache_salt && opt_eq a.lora_id b.lora_id)))

pub namespace_eq_iff : (a b : Namespace) → (namespace_eq a b ≡ true) ↔ (a ≡ b)
unfolding namespace_eq
namespace_eq_iff a b = ground (
  arith,
  str_eq_iff a.model b.model,
  opt_eq_iff a.extra_key b.extra_key,
  opt_eq_iff a.cache_salt b.cache_salt,
  opt_eq_iff a.lora_id b.lora_id,
)

-- An item of `entries` and `retired`: the list `[snapshot, readers]`.
pub record Entry : Type 0 where
  pub snapshot : Snapshot
  pub readers : ℕ

-- `HostPrefixCache`
pub record Cache : Type 0 where
  pub budget_bytes : ℕ
  pub max_entries : ℕ
  pub entries : Dict Entry
  pub retired : Dict Entry
  pub pending_bytes : ℕ
  pub pending_entries : ℕ
  pub epoch : ℕ
  pub next_id : ℕ
  pub hits : ℕ
  pub misses : ℕ
  pub reused_tokens : ℕ
  pub evictions : ℕ

-- `PrefixReader`: `snapshot is not None` is `is_open`.
pub record Reader : Type 0 where
  pub entry_id : ℕ
  pub is_open : Bool

-- `PrefixReservation`; `basis` is the reader that a capture attaches.
pub record Reservation : Type 0 where
  pub size : ℕ
  pub epoch : ℕ
  pub active : Bool
  pub basis : Option Reader

-- One constructor for each `raise`; `key_error` and `index_error` are the interpreter's own.
pub data Error : Type 0 where
  bad_budget not_host no_digest underflow key_error index_error : Error
  no_reservation incomplete flushed_epoch unaligned_checkpoint : Error
  segment_gap raw_length index_length missing_pages over_reservation : Error
