-- ===== src/Launch/Records.antt =====
-- launch.py: the activation records of the schedulers, and the check that there is one good record for
-- each rank. A record is a JSON object; a field of another type than the launcher expects differs from
-- what it expects, as a field that is absent does.
use qsa_hisparse.Prelude.{
  ℕ, ◌+◌, String, Bool, true, false, ◌&&◌, Option, none, some, List, [], ◌∷◌, ◌++◌, if◌then◌else◌,
  str_eq, ◌==◌, length, range_from,
}
use qsa_hisparse.Startup.Switches.{Features, active}

-- `record.get(...)` of a field that holds a text.
pub data Value : Type 0 where
  absent : Value
  text : String → Value
  other_value : Value

-- `record.get("tp_rank")` by its `repr`: a natural number, or any other value.
pub data Rank : Type 0 where
  rank : ℕ → Rank
  other_repr : String → Rank

-- A dict of library versions; `none` is the version of a library that is not installed.
abbrev pub Versions : Type 0
Versions = List (String × Option String)

pub record Entry : Type 0 where
  pub role : Value
  pub features : Option (List String)
  pub hisparse_mode : Value
  pub native_versions : Versions
  pub tp_rank : Rank

-- A file of the activation directory: what `json.loads` makes of it, or an OSError or ValueError.
pub data File : Type 0 where
  unreadable : File
  holds : Entry → File

pub data Problem : Type 0 where
  cannot_read wrong_role wrong_features wrong_versions : String → Problem
  wrong_ranks : Problem

unfoldable pub is_text : Value → String → Bool
is_text absent s = false
is_text (text t) s = str_eq t s
is_text other_value s = false

unfoldable pub is_mode : Value → Option String → Bool
is_mode absent none = true
is_mode absent (some m) = false
is_mode (text t) none = false
is_mode (text t) (some m) = str_eq t m
is_mode other_value m = false

unfoldable pub texts_eq : List String → List String → Bool
texts_eq [] [] = true
texts_eq [] (t ∷ ts) = false
texts_eq (s ∷ ss) [] = false
texts_eq (s ∷ ss) (t ∷ ts) = str_eq s t && texts_eq ss ts

unfoldable pub are_texts : Option (List String) → List String → Bool
unfolding texts_eq
are_texts none ts = false
are_texts (some ss) ts = texts_eq ss ts

unfoldable pub version_eq : Option String → Option String → Bool
version_eq none none = true
version_eq none (some w) = false
version_eq (some v) none = false
version_eq (some v) (some w) = str_eq v w

unfoldable pub has_version : String → Option String → Versions → Bool
unfolding version_eq
has_version k v [] = false
has_version k v ((j, w) ∷ m) =
    let rest = has_version k v m in if str_eq j k then version_eq v w else rest

unfoldable pub covers : Versions → Versions → Bool
unfolding has_version
covers m [] = true
covers m ((k, v) ∷ rest) = has_version k v m && covers m rest

-- Equality of two dicts: as many items, and each item of the first in the second.
unfoldable pub versions_eq : Versions → Versions → Bool
unfolding covers
versions_eq m n = (length m == length n) && covers n m

unfoldable pub rank_eq : Rank → Rank → Bool
rank_eq (rank a) (rank b) = a == b
rank_eq (rank a) (other_repr t) = false
rank_eq (other_repr s) (rank b) = false
rank_eq (other_repr s) (other_repr t) = str_eq s t

-- A `Counter` of ranks.
abbrev pub Counter : Type 0
Counter = List (Rank × ℕ)

unfoldable pub tally : Rank → Counter → ℕ
unfolding rank_eq
tally r [] = 0
tally r ((q, n) ∷ c) = let rest = tally r c in if rank_eq q r then n else rest

-- `counter[r] += 1`
unfoldable pub bump : Rank → Counter → Counter
unfolding rank_eq
bump r [] = (r, 1) ∷ []
bump r ((q, n) ∷ c) = let rest = bump r c in if rank_eq q r then (q, n + 1) ∷ c else (q, n) ∷ rest

unfoldable pub tallies_eq : Counter → Counter → Counter → Bool
unfolding tally
tallies_eq c d [] = true
tallies_eq c d ((r, n) ∷ keys) = (tally r c == tally r d) && tallies_eq c d keys

-- Equality of two counters: every key of either has one count in both.
unfoldable pub counter_eq : Counter → Counter → Bool
unfolding tallies_eq
counter_eq c d = tallies_eq c d c && tallies_eq c d d

-- `Counter(repr(rank) for rank in ...)`
unfoldable pub count_ranks : List ℕ → Counter → Counter
unfolding bump
count_ranks [] c = c
count_ranks (k ∷ ks) c = count_ranks ks (bump (rank k) c)

unfoldable pub expected_ranks : ℕ → Counter
unfolding count_ranks range_from
expected_ranks tp_size = count_ranks (range_from 0 tp_size) []

-- The problems of one record, in the order of the checks.
unfoldable pub entry_problems : Features → Versions → String → Entry → List Problem
unfolding is_text are_texts is_mode versions_eq active
entry_problems features lock name e =
    (if is_text e.role "scheduler" then [] else wrong_role name ∷ [])
    ++ (if are_texts e.features (active features) && is_mode e.hisparse_mode features.hisparse_mode
        then []
        else wrong_features name ∷ [])
    ++ (if versions_eq e.native_versions lock then [] else wrong_versions name ∷ [])

-- The loop of `check_records` over the files in the order of their names.
unfoldable pub check_files :
    Features → Versions → List (String × File) → List Problem → Counter → List Problem × Counter
unfolding entry_problems bump
check_files features lock [] problems ranks = (problems, ranks)
check_files features lock ((name, unreadable) ∷ files) problems ranks =
    check_files features lock files (problems ++ cannot_read name ∷ []) ranks
check_files features lock ((name, holds e) ∷ files) problems ranks =
    check_files features lock files (problems ++ entry_problems features lock name e)
      (bump e.tp_rank ranks)

unfoldable pub check_records : Features → Versions → ℕ → List (String × File) → List Problem
unfolding check_files counter_eq expected_ranks
check_records features lock tp_size files =
    let checked = check_files features lock files [] [] in
    if counter_eq checked.1 (expected_ranks tp_size)
    then checked.0
    else checked.0 ++ wrong_ranks ∷ []
