-- ===== src/Image/Eligible.antt =====
-- hisparse/image_request.py: the requests that have an identity, and the identity that a request keeps.
use qsa_hisparse.Prelude.{
  ℕ, ◌+◌, ◌≤◌, ◌≡◌, ◌↔◌, refl, Bool, true, false, Option, none, some, List, subst, sym, ap, ◌∙◌, [],
  ◌∷◌, if◌then◌else◌, arith, is_some, ◌≢◌, inl, inr, Option-cases, Bool-cases,
}
use qsa_hisparse.Image.Defs.{Digest, Identity, ImageRecord}
use qsa_hisparse.Image.Requests.{
  Item, Multimodal, Identified, known, bypass, single_span, record_of, records_of, insert_record,
  sort_records, identity, Attempt, Request, attempt_of, attempt_eq, identity_for,
}

-- Every start is at least the bound, and the starts ascend.
abbrev pub StartsAscend : ℕ → List ImageRecord → Type 0
StartsAscend b [] = Unit {0}
StartsAscend b (r ∷ rs) = (b ≤ r.start) × StartsAscend r.start rs

StartsAscend-insert_record :
    (b : ℕ) (r : ImageRecord) (rs : List ImageRecord)
    → b ≤ r.start
    → StartsAscend b rs
    → StartsAscend b (insert_record r rs)
unfolding insert_record
StartsAscend-insert_record b r [] h s = (h, tt)
StartsAscend-insert_record b r (x ∷ xs) h s =
    ground (arith, StartsAscend-insert_record x.start r xs)

StartsAscend-sort_records : (rs : List ImageRecord) → StartsAscend 0 (sort_records rs)
unfolding sort_records
StartsAscend-sort_records [] = tt
StartsAscend-sort_records (r ∷ rs) =
    StartsAscend-insert_record 0 r (sort_records rs) (omega arith) (StartsAscend-sort_records rs)

-- A test on records counts the same before and after the sort.
abbrev pub tally : (ImageRecord → Bool) → List ImageRecord → ℕ
tally f [] = 0
tally f (r ∷ rs) = (if f r then 1 else 0) + tally f rs

tally-insert_record :
    (f : ImageRecord → Bool) (r : ImageRecord) (rs : List ImageRecord)
    → tally f (insert_record r rs) ≡ (if f r then 1 else 0) + tally f rs
unfolding insert_record
tally-insert_record f r [] = refl
tally-insert_record f r (x ∷ xs) = ground (arith, tally-insert_record f r xs)

tally-sort_records :
    (f : ImageRecord → Bool) (rs : List ImageRecord) → tally f (sort_records rs) ≡ tally f rs
unfolding sort_records
tally-sort_records f [] = refl
tally-sort_records f (r ∷ rs) =
    omega (arith, tally-insert_record f r (sort_records rs), tally-sort_records f rs)

-- An item that a host prefix supports.
pub record IsSupported (item : Item) : Type 0 where
  pub image : item.is_image ≡ true
  pub normal : item.is_normal ≡ true
  pub computed : item.is_precomputed ≡ false
  pub bare : item.has_embeddings ≡ false
  pub span : is_some (single_span item.offsets) ≡ true
  pub keyed : is_some item.artifact_key ≡ true

abbrev pub AllSupported : List Item → Type 0
AllSupported [] = Unit {0}
AllSupported (item ∷ items) = IsSupported item × AllSupported items

record_of-some :
    (order : ℕ) (item : Item) → IsSupported item ↔ (is_some (record_of order item) ≡ true)
unfolding record_of
record_of-some order item = (
  (λ h. ground (arith, h.image, h.normal, h.computed, h.bare, h.span, h.keyed)),
  (λ e. record {
    image = ground arith;
    normal = ground arith;
    computed = ground arith;
    bare = ground arith;
    span = ground arith;
    keyed = ground arith;
  }),
)

records_of-some :
    (order : ℕ) (items : List Item) → AllSupported items ↔ (is_some (records_of order items) ≡ true)
unfolding records_of
records_of-some order [] = ((λ h. refl), (λ e. tt))
records_of-some order (item ∷ items) = (
  (λ h.
      ground (arith, (record_of-some order item).0 h.0, (records_of-some (order + 1) items).0 h.1)),
  (λ e. (
    (record_of-some order item).1 (ground arith),
    (records_of-some (order + 1) items).1 (ground arith),
  )),
)

-- A multimodal request whose images host prefixes can identify.
pub record IsEligible (skip : Bool) (mm : Multimodal) : Type 0 where
  pub positioned : is_some mm.positions ≡ true
  pub filled : mm.items ≢ []
  pub hashed : skip ≡ false
  pub supported : AllSupported mm.items

-- A request bypasses host prefixes exactly when it is not eligible: it has no positions or no items,
-- the item hashes are off, or some item is not a supported image with one span and an artifact key.
pub identity_bypass_iff :
    (sha : List ℕ → Digest) (skip : Bool) (mm : Multimodal)
    → (identity sha skip mm ≢ bypass) ↔ IsEligible skip mm
unfolding identity
identity_bypass_iff sha skip mm = (
  (λ e. record {
    positioned = elim (Option-cases mm.positions) [
      | inl gone ↦ absurd (e (ground arith))
      | inr (p, here) ↦ ground arith
    ];
    filled = λ empty. e (ground arith);
    hashed = elim (Bool-cases skip) [ inl on ↦ absurd (e (ground arith)) | inr off ↦ off ];
    supported = (records_of-some 0 mm.items).1 (elim (Option-cases (records_of 0 mm.items)) [
      | inl gone ↦ absurd (e (ground arith))
      | inr (rs, here) ↦ ground arith
    ]);
  }),
  (λ h e.
      ground (arith, h.positioned, h.filled, h.hashed, (records_of-some 0 mm.items).0 h.supported)),
)

-- The identity holds one record to an item, in ascending order of the first token.
pub identity_records :
    (sha : List ℕ → Digest) (skip : Bool) (mm : Multimodal) (i : Identity)
    → identity sha skip mm ≡ known i
    → (rs : List ImageRecord) × (records_of 0 mm.items ≡ some rs)
      × StartsAscend 0 i.records
      × ((f : ImageRecord → Bool) → tally f i.records ≡ tally f rs)
unfolding identity
identity_records sha skip mm i e = elim (Option-cases (records_of 0 mm.items)) [
  | inl gone ↦ absurd (ground arith)
  | inr (rs, here) ↦
      let sorted : i.records ≡ sort_records rs = ground arith in
      (rs, here, rw sorted (StartsAscend-sort_records rs), λ f. rw sorted (tally-sort_records f rs))
]

-- One time that a request asks for its identity: its handle then, and its inputs.
abbrev pub Visit : Type 0
Visit = ℕ × Multimodal

abbrev pub identities : (List ℕ → Digest) → Bool → List Visit → List Identified
identities sha skip [] = []
identities sha skip ((handle, mm) ∷ visits) = identity sha skip mm ∷ identities sha skip visits

-- The answers of `identity_for` to a request object at its visits, and the object after them.
abbrev pub visit_all : (List ℕ → Digest) → Bool → Request → List Visit → Request × List Identified
visit_all sha skip req [] = (req, [])
visit_all sha skip req ((handle, mm) ∷ visits) =
    let now : Request = record req { handle = handle; multimodal = some mm } in
    let rest = visit_all sha skip (identity_for sha skip now).0 visits in
    (rest.0, (identity_for sha skip now).1 ∷ rest.1)

abbrev pub position_count : Multimodal → Option ℕ
position_count mm = elim mm.positions [ none ↦ none | some (positions, n) ↦ some n ]

-- The inputs of a handle with so many positions have one identity, at all of the visits.
abbrev pub AreFixed : (List ℕ → Digest) → Bool → (ℕ → Option ℕ → Identified) → List Visit → Type 0
AreFixed sha skip fixed [] = Unit {0}
AreFixed sha skip fixed ((handle, mm) ∷ visits) =
    (identity sha skip mm ≡ fixed handle (position_count mm)) × AreFixed sha skip fixed visits

-- What the object keeps is the answer to the last visit.
abbrev pub KeepsLast : (List ℕ → Digest) → Bool → Request → List Visit → Type 0
KeepsLast sha skip req [] = Unit {0}
KeepsLast sha skip req ((handle, mm) ∷ []) =
    req.cached ≡ some ((handle, position_count mm), identity sha skip mm)
KeepsLast sha skip req ((handle, mm) ∷ visit ∷ visits) = KeepsLast sha skip req (visit ∷ visits)

attempt_eq_iff : (a b : Attempt) → (attempt_eq a b ≡ true) ↔ (a ≡ b)
unfolding attempt_eq
attempt_eq_iff (h, none) (k, none) = ground arith
attempt_eq_iff (h, none) (k, some m) = ground arith
attempt_eq_iff (h, some n) (k, none) = ground arith
attempt_eq_iff (h, some n) (k, some m) = ground arith

module _ (sha : List ℕ → Digest) (skip : Bool) (fixed : ℕ → Option ℕ → Identified) where
  Stores : Request → Type 0
  Stores req =
      (handle : ℕ) (count : Option ℕ) (answer : Identified)
      → req.cached ≡ some ((handle, count), answer)
      → answer ≡ fixed handle count

  -- One visit: the answer, and what is kept.
  identity_for-visit :
      (req : Request) (mm : Multimodal)
      → req.multimodal ≡ some mm
      → Stores req
      → identity sha skip mm ≡ fixed req.handle (position_count mm)
      → ((identity_for sha skip req).1 ≡ identity sha skip mm)
        × ((identity_for sha skip req).0.cached
            ≡ some ((req.handle, position_count mm), identity sha skip mm))
  unfolding identity_for Stores attempt_of
  identity_for-visit req mm here s f = elim (Option-cases req.cached) [
    | inl fresh ↦ (ground arith, ground arith)
    | inr (((handle, count), answer), stored) ↦
        let kept : answer ≡ fixed handle count = s handle count answer stored in
        elim (Bool-cases (attempt_eq (handle, count) (attempt_of req.handle mm))) [
          | inl same ↦
              let at = (attempt_eq_iff (handle, count) (attempt_of req.handle mm)).0 same in
              let moved : answer ≡ fixed req.handle (position_count mm) =
                subst (λ (a : Attempt). answer ≡ fixed a.0 a.1) at kept in
              let same_answer : answer ≡ identity sha skip mm = moved ∙ sym f in
              let same_key : (handle, count) ≡ (req.handle, position_count mm) = at in
              (ground arith, rw (here, stored, same) (rw (same_key, same_answer) refl))
          | inr other ↦ (ground arith, ground arith)
        ]
  ]

  keeps_last :
      (handle : ℕ) (mm : Multimodal) (visits : List Visit) (req : Request)
      → req.cached ≡ some ((handle, position_count mm), identity sha skip mm)
      → KeepsLast sha skip (visit_all sha skip req visits).0 visits
      → KeepsLast sha skip (visit_all sha skip req visits).0 ((handle, mm) ∷ visits)
  keeps_last handle mm [] req kept last = kept
  keeps_last handle mm ((h, m) ∷ visits) req kept last = last

  visit_all-fixed :
      (visits : List Visit) (req : Request)
      → Stores req
      → AreFixed sha skip fixed visits
      → ((visit_all sha skip req visits).1 ≡ identities sha skip visits)
        × KeepsLast sha skip (visit_all sha skip req visits).0 visits
  unfolding Stores
  visit_all-fixed [] req s f = (refl, tt)
  visit_all-fixed ((handle, mm) ∷ visits) req s f =
      let now : Request = record req { handle = handle; multimodal = some mm } in
      let (answer, kept) = identity_for-visit now mm refl s f.0 in
      let stores : Stores (identity_for sha skip now).0 = λ h count a e. ground (arith, f.0) in
      let (answers, last) = visit_all-fixed visits (identity_for sha skip now).0 stores f.1 in
      (
        rw answer (ap (λ rest. identity sha skip mm ∷ rest) answers),
        keeps_last handle mm visits (identity_for sha skip now).0 kept last,
      )

  -- A request object that has no answer yet is asked at any visits, under any handles and with any
  -- inputs, as long as the identity of the inputs is the same at all visits of one handle with as many
  -- positions: each answer is the identity of the inputs at that visit, and the object keeps the answer
  -- to the last one, with its handle and its number of positions.
  pub identity_for_visits :
      (req : Request) (visits : List Visit)
      → req.cached ≡ none
      → AreFixed sha skip fixed visits
      → ((visit_all sha skip req visits).1 ≡ identities sha skip visits)
        × KeepsLast sha skip (visit_all sha skip req visits).0 visits
  unfolding Stores
  identity_for_visits req visits e f =
      visit_all-fixed visits req (λ handle count answer h. absurd (ground arith)) f
