-- ===== src/Image/Tests.antt =====
-- Concrete images, positions and requests, and the theorems of image_identity.py and
-- image_request.py at them.
use qsa_hisparse.Prelude.{
  ℕ, suc, ◌*◌, ◌≡◌, refl, true, false, Option, none, some, List, [], ◌∷◌, arith, range_from, ◌==◌,
  if◌then◌else◌,
}
use qsa_hisparse.Image.Defs.{
  page, Digest, Identity, ImageRecord, Key, keep_before, records_at, digest_at, key_at,
  digests_from, page_block, page_blocks, page_digests,
}
use qsa_hisparse.Image.Keys.{identify, cut}
use qsa_hisparse.Image.Cuts.{Reaches}
use qsa_hisparse.Image.Sound.{starts_before, key_at_sound}
use qsa_hisparse.Image.Requests.{
  Item, Multimodal, Identified, known, bypass, Request, identity, records_of, record_of,
  sort_records, insert_record, single_span,
}
use qsa_hisparse.Image.Eligible.{
  Visit, visit_all, identities, AreFixed, KeepsLast, identity_for_visits,
}

-- The hash of the tests: the input itself, which has no collisions.
abbrev plain : List ℕ → Digest
plain bytes = bytes

abbrev cat : ImageRecord
cat = record { artifact_key = "cat"; order = 0; start = 3; stop = 9; grid = 1 ∷ 2 ∷ 2 ∷ [] }

abbrev dog : ImageRecord
dog = record { artifact_key = "dog"; order = 1; start = 70; stop = 80; grid = 1 ∷ 2 ∷ 2 ∷ [] }

-- One page of positions, the second list with one more position.
abbrev axis : List ℕ
axis = range_from 0 64

abbrev longer_axis : List ℕ
longer_axis = range_from 0 65

abbrev positions : List (List ℕ)
positions = axis ∷ axis ∷ axis ∷ []

abbrev longer : List (List ℕ)
longer = longer_axis ∷ longer_axis ∷ longer_axis ∷ []

abbrev cat_key : Key
cat_key = record { records = cat ∷ []; digest = page_block positions 0 }

abbrev item : Item
item = record {
  artifact_key = some "cat";
  is_image = true;
  is_normal = true;
  is_precomputed = false;
  has_embeddings = false;
  offsets = some ((3, 8) ∷ []);
  grid = 1 ∷ 2 ∷ 2 ∷ [];
}

abbrev images : Multimodal
images = record { positions = some (positions, 64); items = item ∷ [] }

abbrev request : Request
request = record { handle = 7; multimodal = some images; cached = none }

-- The identity of the images.
abbrev cat_identity : Identity
cat_identity = record { records = cat ∷ []; page_digests = page_digests plain positions 64 }

-- Without positions the images are bypassed.
abbrev unplaced : Multimodal
unplaced = record images { positions = none }

abbrev visits : List Visit
visits = (7, images) ∷ (7, images) ∷ (8, unplaced) ∷ []

abbrev fixed : ℕ → Option ℕ → Identified
fixed handle count = if handle == 7 then known cat_identity else bypass

visits-AreFixed : AreFixed plain false fixed visits
unfolding identity records_of record_of single_span sort_records insert_record
visits-AreFixed = (refl, (refl, (refl, tt)))

short_key : key_at (identify plain (cat ∷ []) positions 64) (page * suc 0) ≡ some cat_key
unfolding key_at records_at digest_at keep_before page_digests digests_from page_blocks page_block
    range_from
short_key = refl

longer_key : key_at (identify plain (cat ∷ dog ∷ []) longer 65) (page * suc 0) ≡ some cat_key
unfolding key_at records_at digest_at keep_before page_digests digests_from page_blocks page_block
    range_from
longer_key = refl

positions-Reaches : Reaches 64 positions
unfolding range_from
positions-Reaches = (omega arith, (omega arith, (omega arith, tt)))

longer-Reaches : Reaches 65 longer
unfolding range_from
longer-Reaches = (omega arith, (omega arith, (omega arith, tt)))

key_at_sound_example :
    (starts_before (page * suc 0) (cat ∷ []) ≡ starts_before (page * suc 0) (cat ∷ dog ∷ []))
    × (cat_key.records ≡ starts_before (page * suc 0) (cat ∷ []))
    × (cut (page * suc 0) positions ≡ cut (page * suc 0) longer)
key_at_sound_example =
    key_at_sound plain (cat ∷ []) (cat ∷ dog ∷ []) positions longer 64 65 0 cat_key (λ x y e. e)
      refl positions-Reaches longer-Reaches (omega arith) (omega arith) short_key longer_key

identity_for_visits_example :
    ((visit_all plain false request visits).1 ≡ identities plain false visits)
    × KeepsLast plain false (visit_all plain false request visits).0 visits
identity_for_visits_example =
    identity_for_visits plain false fixed request visits refl visits-AreFixed
