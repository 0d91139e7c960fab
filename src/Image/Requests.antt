-- ===== src/Image/Requests.antt =====
-- src/sglang_qsa_hisparse/hisparse/image_request.py: the identity of a scheduler request.
-- What a multimodal item answers is a record; a position tensor is its rows, one to an axis.
use qsa_hisparse.Prelude.{
  ℕ, ◌+◌, String, Bool, false, not, ◌&&◌, ◌||◌, Option, none, some, List, [], ◌∷◌, leb, ◌==◌,
  if◌then◌else◌,
}
use qsa_hisparse.Image.Defs.{Digest, Identity, ImageRecord, page_digests}

pub record Item : Type 0 where
  pub artifact_key : Option String
  pub is_image : Bool
  pub is_normal : Bool
  pub is_precomputed : Bool
  pub has_embeddings : Bool
  pub offsets : Option (List (ℕ × ℕ))
  pub grid : List ℕ

-- `multimodal_inputs`: positions on every axis with the length of their last axis, and the items.
pub record Multimodal : Type 0 where
  pub positions : Option (List (List ℕ) × ℕ)
  pub items : List Item

-- What `identity_for` returns: `None`, the identity, or `BYPASS`.
pub data Identified : Type 0 where
  text : Identified
  known : Identity → Identified
  bypass : Identified

unfoldable pub single_span : Option (List (ℕ × ℕ)) → Option (ℕ × ℕ)
single_span none = none
single_span (some []) = none
single_span (some (span ∷ [])) = some span
single_span (some (span ∷ other ∷ spans)) = none

-- The body of the loop: the record of an item, or `none` where it returns `BYPASS`.
unfoldable pub record_of : ℕ → Item → Option ImageRecord
unfolding single_span
record_of order item =
    if not item.is_image || (not item.is_normal || (item.is_precomputed || item.has_embeddings))
    then none
    else (elim (single_span item.offsets) [
      | none ↦ none
      | some (start, end_) ↦ elim item.artifact_key [
        | none ↦ none
        | some key ↦ some (record {
          artifact_key = key;
          order = order;
          start = start;
          stop = end_ + 1;
          grid = item.grid;
        })
      ]
    ])

-- The loop over `enumerate(items)`.
unfoldable pub records_of : ℕ → List Item → Option (List ImageRecord)
unfolding record_of
records_of order [] = some []
records_of order (item ∷ items) = elim (record_of order item) [
  | none ↦ none
  | some r ↦ elim (records_of (order + 1) items) [ none ↦ none | some rs ↦ some (r ∷ rs) ]
]

-- `records.sort(key=lambda record: record.start)`, which is stable.
unfoldable pub insert_record : ImageRecord → List ImageRecord → List ImageRecord
insert_record r [] = r ∷ []
insert_record r (x ∷ xs) = if leb r.start x.start then r ∷ x ∷ xs else x ∷ insert_record r xs

unfoldable pub sort_records : List ImageRecord → List ImageRecord
unfolding insert_record
sort_records [] = []
sort_records (r ∷ rs) = insert_record r (sort_records rs)

-- `_identity`; `sha` is the hash, `skip` the environment switch that turns item hashes off.
unfoldable pub identity : (List ℕ → Digest) → Bool → Multimodal → Identified
unfolding sort_records
identity sha skip mm = elim mm.positions [
  | none ↦ bypass
  | some (positions, n) ↦ elim mm.items [
    | [] ↦ bypass
    | item ∷ items ↦ if skip then bypass else (elim (records_of 0 (item ∷ items)) [
      | none ↦ bypass
      | some rs ↦
          known (record { records = sort_records rs; page_digests = page_digests sha positions n })
    ])
  ]
]

-- A request attempt: its handle and the length of its positions.
abbrev pub Attempt : Type 0
Attempt = ℕ × Option ℕ

pub record Request : Type 0 where
  pub handle : ℕ
  pub multimodal : Option Multimodal
  pub cached : Option (Attempt × Identified)

unfoldable pub attempt_of : ℕ → Multimodal → Attempt
attempt_of handle mm = (handle, elim mm.positions [ none ↦ none | some (positions, n) ↦ some n ])

unfoldable pub attempt_eq : Attempt → Attempt → Bool
attempt_eq (h, none) (k, none) = h == k
attempt_eq (h, none) (k, some m) = false
attempt_eq (h, some n) (k, none) = false
attempt_eq (h, some n) (k, some m) = (h == k) && (n == m)

-- `identity_for`: the request with its cached answer, and the answer.
unfoldable pub identity_for : (List ℕ → Digest) → Bool → Request → Request × Identified
unfolding attempt_of attempt_eq
identity_for sha skip req = elim req.multimodal [
  | none ↦ (req, text)
  | some mm ↦
      let fresh : Identified = identity sha skip mm in
      let stored : Request = record req { cached = some (attempt_of req.handle mm, fresh) } in
      elim req.cached [
        | none ↦ (stored, fresh)
        | some (attempt, answer) ↦
            if attempt_eq attempt (attempt_of req.handle mm) then (req, answer) else (stored, fresh)
      ]
]
