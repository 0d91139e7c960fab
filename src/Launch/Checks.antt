-- ===== src/Launch/Checks.antt =====
-- launch.py: what an empty list of problems says of the activation records.
use qsa_hisparse.Prelude.{
  ℕ, ◌+◌, ◌<◌, ◌≡◌, ◌↔◌, refl, inl, inr, String, true, List, [], ◌∷◌, ◌++◌, if◌then◌else◌, ltb,
  str_eq_iff, range_from, count, count-range_from, Bool-cases, arith,
}
use qsa_hisparse.Startup.Switches.{Features, active}
use qsa_hisparse.Launch.Records.{
  Rank, rank, other_repr, Versions, Entry, File, unreadable, holds, Problem, cannot_read,
  wrong_ranks, is_text, is_mode, are_texts, versions_eq, rank_eq, Counter, tally, bump, tallies_eq,
  counter_eq, count_ranks, expected_ranks, entry_problems, check_files, check_records,
}

rank_eq_iff : (a b : Rank) → (rank_eq a b ≡ true) ↔ (a ≡ b)
unfolding rank_eq
rank_eq_iff (rank a) (rank b) = ground arith
rank_eq_iff (rank a) (other_repr t) = ground arith
rank_eq_iff (other_repr s) (rank b) = ground arith
rank_eq_iff (other_repr s) (other_repr t) = ground (arith, str_eq_iff s t)

tally-bump :
    (r q : Rank) (c : Counter) → tally r (bump q c) ≡ (if rank_eq q r then 1 else 0) + tally r c
unfolding tally bump
tally-bump r q [] = ground arith
tally-bump r q ((p, n) ∷ c) =
    ground (arith, tally-bump r q c, rank_eq_iff p r, rank_eq_iff p q, rank_eq_iff q r)

-- A rank is in the keys of a counter where it has a count.
tallies_eq_at :
    (c d keys : Counter) (r : Rank)
    → tallies_eq c d keys ≡ true
    → 0 < tally r keys
    → tally r c ≡ tally r d
unfolding tallies_eq tally
tallies_eq_at c d [] r h p = absurd (ground arith)
tallies_eq_at c d ((q, n) ∷ keys) r h p = ground (arith, tallies_eq_at c d keys r, rank_eq_iff q r)

tallies_eq_all :
    (c d keys : Counter) → ((r : Rank) → tally r c ≡ tally r d) → tallies_eq c d keys ≡ true
unfolding tallies_eq
tallies_eq_all c d [] h = refl
tallies_eq_all c d ((r, n) ∷ keys) h = ground (arith, h r, tallies_eq_all c d keys h)

counter_eq_iff : (c d : Counter) → (counter_eq c d ≡ true) ↔ ((r : Rank) → tally r c ≡ tally r d)
unfolding counter_eq
counter_eq_iff c d = (
  λ h r. ground (arith, tallies_eq_at c d c r, tallies_eq_at c d d r),
  λ h. ground (arith, tallies_eq_all c d c h, tallies_eq_all c d d h),
)

tally-count_ranks :
    (r : Rank) (ks : List ℕ) (c : Counter)
    → tally r (count_ranks ks c) ≡ tally r c + elim r [ rank k ↦ count k ks | other_repr t ↦ 0 ]
unfolding count_ranks
tally-count_ranks (rank k) [] c = omega arith
tally-count_ranks (other_repr t) [] c = omega arith
tally-count_ranks (rank k) (j ∷ ks) c = ground (
  arith,
  tally-count_ranks (rank k) ks (bump (rank j) c),
  tally-bump (rank k) (rank j) c,
  rank_eq_iff (rank j) (rank k),
)
tally-count_ranks (other_repr t) (j ∷ ks) c = ground (
  arith,
  tally-count_ranks (other_repr t) ks (bump (rank j) c),
  tally-bump (other_repr t) (rank j) c,
  rank_eq_iff (rank j) (other_repr t),
)

-- How many records a rank is to have.
abbrev pub wanted : ℕ → Rank → ℕ
wanted tp_size (rank k) = if ltb k tp_size then 1 else 0
wanted tp_size (other_repr t) = 0

tally-expected_ranks :
    (r : Rank) (tp_size : ℕ) → tally r (expected_ranks tp_size) ≡ wanted tp_size r
unfolding expected_ranks tally
tally-expected_ranks (rank k) tp_size =
    ground
      (arith, tally-count_ranks (rank k) (range_from 0 tp_size) [], count-range_from k 0 tp_size)
tally-expected_ranks (other_repr t) tp_size =
    ground (arith, tally-count_ranks (other_repr t) (range_from 0 tp_size) [])

-- The records of a rank among the files.
abbrev pub records_of : Rank → List (String × File) → ℕ
records_of r [] = 0
records_of r ((name, unreadable) ∷ files) = records_of r files
records_of r ((name, holds e) ∷ files) = (if rank_eq e.tp_rank r then 1 else 0) + records_of r files

-- A record of a scheduler with these features and these library versions.
abbrev pub IsGood : Features → Versions → Entry → Type 0
IsGood features lock e =
    (is_text e.role "scheduler" ≡ true)
    × (are_texts e.features (active features) ≡ true)
    × (is_mode e.hisparse_mode features.hisparse_mode ≡ true)
    × (versions_eq e.native_versions lock ≡ true)

abbrev pub AllGood : Features → Versions → List (String × File) → Type 0
AllGood features lock [] = Unit {0}
AllGood features lock ((name, unreadable) ∷ files) = ⊥
AllGood features lock ((name, holds e) ∷ files) =
    IsGood features lock e × AllGood features lock files

module _ (features : Features) (lock : Versions) where
  tally-check_files :
      (r : Rank) (files : List (String × File)) (ps : List Problem) (c : Counter)
      → tally r (check_files features lock files ps c).1 ≡ tally r c + records_of r files
  unfolding check_files
  tally-check_files r [] ps c = omega arith
  tally-check_files r ((name, unreadable) ∷ files) ps c = tally-check_files r files _ c
  tally-check_files r ((name, holds e) ∷ files) ps c = omega (
    arith,
    tally-check_files r files (ps ++ entry_problems features lock name e) (bump e.tp_rank c),
    tally-bump r e.tp_rank c,
  )

  entry_problems_iff :
      (name : String) (e : Entry)
      → (entry_problems features lock name e ≡ []) ↔ IsGood features lock e
  unfolding entry_problems
  entry_problems_iff name e = (λ h. ground arith, λ g. ground arith)

  append_nil_iff : (ps qs : List Problem) → (ps ++ qs ≡ []) ↔ ((ps ≡ []) × (qs ≡ []))
  append_nil_iff [] qs = ground arith
  append_nil_iff (p ∷ ps) qs = ground arith

  check_files_iff :
      (files : List (String × File)) (ps : List Problem) (c : Counter)
      → ((check_files features lock files ps c).0 ≡ []) ↔ ((ps ≡ []) × AllGood features lock files)
  unfolding check_files
  check_files_iff [] ps c = ground arith
  check_files_iff ((name, unreadable) ∷ files) ps c = ground (
    arith,
    check_files_iff files (ps ++ cannot_read name ∷ []) c,
    append_nil_iff ps (cannot_read name ∷ []),
  )
  check_files_iff ((name, holds e) ∷ files) ps c = ground (
    arith,
    check_files_iff files (ps ++ entry_problems features lock name e) (bump e.tp_rank c),
    append_nil_iff ps (entry_problems features lock name e),
    entry_problems_iff name e,
  )

empty_tally : (r : Rank) → tally r [] ≡ 0
unfolding tally
empty_tally r = refl

pub ranks_match_iff :
    (features : Features) (lock : Versions) (tp_size : ℕ) (files : List (String × File))
    → (counter_eq (check_files features lock files [] []).1 (expected_ranks tp_size) ≡ true)
      ↔ ((r : Rank) → records_of r files ≡ wanted tp_size r)
ranks_match_iff features lock tp_size files =
    let c = (check_files features lock files [] []).1 in
    (
      λ h r. omega (
        arith,
        (counter_eq_iff c (expected_ranks tp_size)).0 h r,
        tally-expected_ranks r tp_size,
        found r,
      ),
      λ h.
          (counter_eq_iff c (expected_ranks tp_size)).1
            λ r. omega (arith, h r, tally-expected_ranks r tp_size, found r),
    )
  where
    found : (r : Rank) → tally r (check_files features lock files [] []).1 ≡ records_of r files
    found r = omega (arith, tally-check_files features lock r files [] [], empty_tally r)

-- `check_records` reports no problem exactly when every file of the directory holds the record of a
-- scheduler with the requested features and the locked versions, and each rank below `tp_size` has
-- exactly one record, and no other value has one.
pub check_records_iff :
    (features : Features) (lock : Versions) (tp_size : ℕ) (files : List (String × File))
    → (check_records features lock tp_size files ≡ [])
      ↔ (AllGood features lock files × ((r : Rank) → records_of r files ≡ wanted tp_size r))
unfolding check_records
check_records_iff features lock tp_size files =
    let found = check_files features lock files [] [] in
    elim (Bool-cases (counter_eq found.1 (expected_ranks tp_size))) [
      | inl e ↦ (
        λ h. (
          ((check_files_iff features lock files [] []).0 (ground arith)).1,
          (ranks_match_iff features lock tp_size files).0 e,
        ),
        λ g. rw e ((check_files_iff features lock files [] []).1 (refl, g.0)),
      )
      | inr e ↦ (
        λ h. absurd (ground (arith, append_nil_iff features lock found.0 (wrong_ranks ∷ []))),
        λ g. absurd (ground (arith, (ranks_match_iff features lock tp_size files).1 g.1)),
      )
    ]
