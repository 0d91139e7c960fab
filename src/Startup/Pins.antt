-- ===== src/Startup/Pins.antt =====
-- fingerprint.py: the pinned records, and the check of the modules that they name. What the files hold
-- is a parameter: `read` gives the digest of a file's bytes, `definition` the digest of one definition
-- in it, and both give nothing where the source's call raises.
use qsa_hisparse.Prelude.{
  String, ◌≡◌, ◌↔◌, ◌⊎◌, inl, inr, refl, sym, ap, Option, none, some, List, [], ◌∷◌, if◌then◌else◌,
  str_eq, str_eq_iff, Option-cases, Bool-cases, Sum-cases, List-cases, arith,
}

-- A record of fingerprints/*.json.
pub record Pin : Type 0 where
  pub file : String
  pub sha256 : String
  pub module_sha256 : String

pub record Files : Type 0 where
  pub read : String → Option String
  pub definition : String → String → Option String

pub data Changed : Type 0 where
  definition_differs module_differs definition_missing : Changed

pub data Problem : Type 0 where
  no_fingerprint cannot_read : Problem
  differs : Changed → Problem

-- A dict with text keys, its newest item first: only its look-ups are used.
unfoldable pub look_up : {V : Type 0} → String → List (String × V) → Option V
look_up k [] = none
look_up k ((j, v) ∷ m) = let rest = look_up k m in if str_eq j k then some v else rest

-- The digest of a module, from `hashes` when it is there; otherwise it is read and kept, also when it
-- cannot be read.
unfoldable pub hash_of :
    Files → List (String × Option String) → String → List (String × Option String) × Option String
unfolding look_up
hash_of files hashes file = elim (look_up file hashes) [
  | none ↦ ((file, files.read file) ∷ hashes, files.read file)
  | some h ↦ (hashes, h)
]

unfoldable pub changed : Files → Pin → String → Changed
changed files pin name = elim (files.definition pin.file name) [
  | none ↦ definition_missing
  | some actual ↦ if str_eq actual pin.sha256 then module_differs else definition_differs
]

-- One round of the loop of `verify`: the new hashes, and the name's problem or its record.
unfoldable pub check_name :
    Files
    → (String → Option Pin)
    → List (String × Option String)
    → String
    → List (String × Option String) × (Problem ⊎ Pin)
unfolding hash_of changed
check_name files pinned hashes name = elim (pinned name) [
  | none ↦ (hashes, inl no_fingerprint)
  | some pin ↦
      let hashed = hash_of files hashes pin.file in
      (
        hashed.0,
        elim hashed.1 [
          | none ↦ inl cannot_read
          | some digest ↦
              if str_eq digest pin.module_sha256
              then inr pin
              else inl (differs (changed files pin name))
        ],
      )
]

-- The problems and the records of a loop. The names are distinct: `activate` sorts a set.
pub record Findings : Type 0 where
  pub problems : List (String × Problem)
  pub records : List (String × Pin)

unfoldable pub add_finding : String → Problem ⊎ Pin → Findings → Findings
add_finding name (inl p) f = record f { problems = (name, p) ∷ f.problems }
add_finding name (inr pin) f = record f { records = (name, pin) ∷ f.records }

unfoldable pub check_names :
    Files → (String → Option Pin) → List (String × Option String) → List String → Findings
unfolding check_name add_finding
check_names files pinned hashes [] = record { problems = []; records = [] }
check_names files pinned hashes (name ∷ names) =
    let checked = check_name files pinned hashes name in
    add_finding name checked.1 (check_names files pinned checked.0 names)

-- `verify`: the problems of the FingerprintMismatch, or the records.
unfoldable pub verify :
    Files → (String → Option Pin) → List String → List (String × Problem) ⊎ List (String × Pin)
unfolding check_names
verify files pinned names = elim (check_names files pinned [] names).problems [
  | [] ↦ inr (check_names files pinned [] names).records
  | p ∷ ps ↦ inl (p ∷ ps)
]

-- The name has a record, and the bytes of its module are the pinned ones.
pub record IsPinned (files : Files) (pinned : String → Option Pin) (name : String) (pin : Pin)
    : Type 0 where
  pub recorded : pinned name ≡ some pin
  pub unchanged : files.read pin.file ≡ some pin.module_sha256

-- Each name is pinned, with the record that stands in its place.
abbrev pub ArePinned : Files → (String → Option Pin) → List String → List (String × Pin) → Type 0
ArePinned files pinned [] rs = rs ≡ []
ArePinned files pinned (name ∷ names) rs =
    (pin : Pin) × (rest : List (String × Pin)) × (rs ≡ (name, pin) ∷ rest)
    × IsPinned files pinned name pin
    × ArePinned files pinned names rest

-- What the loop remembers of a file is what the file holds.
abbrev Remembers : Files → List (String × Option String) → Type 0
Remembers files [] = Unit {0}
Remembers files ((file, h) ∷ hashes) = (h ≡ files.read file) × Remembers files hashes

look_up-Remembers :
    (files : Files) (hashes : List (String × Option String)) (file : String) (h : Option String)
    → Remembers files hashes
    → look_up file hashes ≡ some h
    → h ≡ files.read file
unfolding look_up
look_up-Remembers files [] file h r e = absurd (ground arith)
look_up-Remembers files ((j, d) ∷ hashes) file h r e = elim (Bool-cases (str_eq j file)) [
  | inl same ↦
      let here : files.read j ≡ files.read file = ap files.read ((str_eq_iff j file).0 same) in
      ground (arith, r.0)
  | inr other ↦ look_up-Remembers files hashes file h r.1 (ground arith)
]

hash_of-Remembers :
    (files : Files) (hashes : List (String × Option String)) (file : String)
    → Remembers files hashes
    → Remembers files (hash_of files hashes file).0
      × ((hash_of files hashes file).1 ≡ files.read file)
unfolding hash_of
hash_of-Remembers files hashes file r = elim (Option-cases (look_up file hashes)) [
  | inl new ↦ rw (new, hash_of) ((refl, r), refl)
  | inr (h, known) ↦ rw (known, hash_of) (r, look_up-Remembers files hashes file h r known)
]

check_name_lem :
    (files : Files) (pinned : String → Option Pin) (hashes : List (String × Option String))
    (name : String)
    → Remembers files hashes
    → Remembers files (check_name files pinned hashes name).0
      × ((pin : Pin)
          → ((check_name files pinned hashes name).1 ≡ inr pin) ↔ IsPinned files pinned name pin)
unfolding check_name
check_name_lem files pinned hashes name r = elim (Option-cases (pinned name)) [
  | inl gone ↦ (
    rw (gone, check_name) r,
    λ pin. ((λ e. absurd (ground arith)), (λ p. absurd (ground (arith, p.recorded)))),
  )
  | inr (pin, known) ↦
      let (kept, same) = hash_of-Remembers files hashes pin.file r in
      (
        rw (known, check_name) kept,
        λ other. (
          (λ e. elim (Option-cases (files.read pin.file)) [
            | inl unread ↦ absurd (ground arith)
            | inr (digest, read) ↦
                let it : other ≡ pin = ground arith in
                let right : digest ≡ pin.module_sha256 =
                  ground (arith, str_eq_iff digest pin.module_sha256) in
                record { recorded = ground arith; unchanged = ground arith }
          ]),
          (λ p.
              let it : other ≡ pin = ground (arith, p.recorded) in
              let read : files.read pin.file ≡ some pin.module_sha256 =
                ground (arith, p.unchanged) in
              ground (arith, str_eq_iff pin.module_sha256 pin.module_sha256)),
        ),
      )
]

check_names-ArePinned :
    (files : Files) (pinned : String → Option Pin) (hashes : List (String × Option String))
    (names : List String) (rs : List (String × Pin))
    → Remembers files hashes
    → (((check_names files pinned hashes names).problems ≡ [])
        × ((check_names files pinned hashes names).records ≡ rs))
      ↔ ArePinned files pinned names rs
unfolding check_names add_finding
check_names-ArePinned files pinned hashes [] rs r = ((λ e. sym e.1), (λ e. (refl, sym e)))
check_names-ArePinned files pinned hashes (name ∷ names) rs r =
    let (kept, one) = check_name_lem files pinned hashes name r in
    let hashes' = (check_name files pinned hashes name).0 in
    let found = check_names files pinned hashes' names in
    let rest = check_names-ArePinned files pinned hashes' names found.records kept in
    elim (Sum-cases (check_name files pinned hashes name).1) [
      | inl (p, bad) ↦
          ((λ e. absurd (ground arith)), (λ a. absurd (ground (arith, (one a.0).1 a.3))))
      | inr (pin, good) ↦ (
        (λ e. (pin, found.records, ground arith, (one pin).0 good, rest.0 (ground arith, refl))),
        (λ a.
            let its : (check_name files pinned hashes name).1 ≡ inr a.0 = (one a.0).1 a.3 in
            let tail = (check_names-ArePinned files pinned hashes' names a.1 kept).1 a.4 in
            (ground (arith, tail.0), ground (arith, its, tail.1, a.2))),
      )
    ]

-- `verify` returns records exactly when every name has a pinned record whose module can be read and
-- has the pinned digest, and then returns those records, one to a name, in the order of the names. So
-- a single edited module, or a name without a record, fails the whole check, and keeping the digests
-- of the modules that were read changes nothing.
pub verify_iff :
    (files : Files) (pinned : String → Option Pin) (names : List String) (rs : List (String × Pin))
    → (verify files pinned names ≡ inr rs) ↔ ArePinned files pinned names rs
unfolding verify
verify_iff files pinned names rs =
    let both = check_names-ArePinned files pinned [] names rs tt in
    (
      (λ e. elim (List-cases (check_names files pinned [] names).problems) [
        | inl fine ↦ both.0 (fine, ground arith)
        | inr (p, ps, bad) ↦ absurd (ground arith)
      ]),
      (λ a. let (fine, same) = both.1 a in ground arith),
    )
