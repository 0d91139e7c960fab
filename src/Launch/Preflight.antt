-- ===== src/Launch/Preflight.antt =====
-- launch.py: the selection of plugins, the environment of the server, the facts of the preflight
-- interpreter and the problems with them, and the address of the health check. What the interpreter
-- prints is an argument: a line that starts with the marker is given by the facts that it holds.
use Prim.Native.Char.{code}
use Prim.Native.String.{◌++◌ as join}
use qsa_hisparse.Prelude.{
  ℕ, String, Bool, true, false, not, ◌&&◌, ◌||◌, Option, none, some, List, [], ◌∷◌, ◌++◌,
  if◌then◌else◌, str_eq, ◌==◌, leb,
}
use qsa_hisparse.Launch.Records.{Versions, versions_eq, version_eq}

-- The code points of a text.
abbrev pub codes : String → List ℕ
codes String.[] = []
codes (String.◌∷◌ c s) = code c ∷ codes s

-- `str.isspace` of one code point.
unfoldable pub is_space : ℕ → Bool
is_space c =
    (leb 9 c && leb c 13)
    || ((leb 28 c && leb c 32)
        || (c == 0x85
            || (c == 0xa0
                || (c == 0x1680
                    || ((leb 0x2000 c && leb c 0x200a)
                        || (c == 0x2028
                            || (c == 0x2029 || (c == 0x202f || (c == 0x205f || c == 0x3000)))))))))

-- `n.strip()`
unfoldable pub strip_left : List ℕ → List ℕ
unfolding is_space
strip_left [] = []
strip_left (c ∷ cs) = let rest = strip_left cs in if is_space c then rest else c ∷ cs

unfoldable pub strip_right : List ℕ → List ℕ
unfolding is_space
strip_right [] = []
strip_right (c ∷ cs) = elim (strip_right cs) [
  | [] ↦ if is_space c then [] else c ∷ []
  | d ∷ rest ↦ c ∷ d ∷ rest
]

unfoldable pub strip : List ℕ → List ℕ
unfolding strip_left strip_right
strip cs = strip_right (strip_left cs)

-- `selected.split(",")`
unfoldable pub split_commas : List ℕ → List (List ℕ)
split_commas [] = [] ∷ []
split_commas (c ∷ cs) = elim (split_commas cs) [
  | [] ↦ (c ∷ []) ∷ []
  | part ∷ parts ↦ if c == b',' then [] ∷ part ∷ parts else (c ∷ part) ∷ parts
]

unfoldable pub codes_eq : List ℕ → List ℕ → Bool
codes_eq [] [] = true
codes_eq [] (d ∷ ds) = false
codes_eq (c ∷ cs) [] = false
codes_eq (c ∷ cs) (d ∷ ds) = c == d && codes_eq cs ds

-- `{n.strip() for n in selected.split(",") if n.strip()}`, with its repetitions.
unfoldable pub plugin_names : List (List ℕ) → List (List ℕ)
unfolding strip
plugin_names [] = []
plugin_names (part ∷ parts) = elim (strip part) [
  | [] ↦ plugin_names parts
  | c ∷ cs ↦ (c ∷ cs) ∷ plugin_names parts
]

unfoldable pub all_named : List ℕ → List (List ℕ) → Bool
unfolding codes_eq
all_named name [] = true
all_named name (n ∷ names) = codes_eq n name && all_named name names

-- A set of names is `{name}`.
unfoldable pub only_named : List ℕ → List (List ℕ) → Bool
unfolding all_named
only_named name [] = false
only_named name (n ∷ names) = all_named name (n ∷ names)

-- The test of SGLANG_PLUGINS in `launch`: whether it keeps the server from starting.
unfoldable pub selects_others : (String → Option String) → Bool
unfolding plugin_names split_commas only_named str_eq
selects_others environ = elim (environ "SGLANG_PLUGINS") [
  | none ↦ false
  | some selected ↦
      not (str_eq selected "")
      && not (only_named (codes "qsa_hisparse") (plugin_names (split_commas (codes selected))))
]

-- `server_environment`
unfoldable pub server_environment :
    (String → Option String) → String → String → String → Option String
unfolding str_eq
server_environment base site activation_dir key =
    if str_eq key "SGLANG_QSA_ACTIVATION_DIR"
    then some activation_dir
    else if str_eq key "SGLANG_PLUGINS"
    then some "qsa_hisparse"
    else if str_eq key "PYTHONPATH"
    then (elim (base "PYTHONPATH") [
      | none ↦ some site
      | some path ↦ if str_eq path "" then some site else some (join site (join ":" path))
    ])
    else base key

-- What the preflight interpreter finds.
pub record Facts : Type 0 where
  pub entry_points : List (String × Option String)
  pub package_file : String
  pub native_versions : Versions
  pub nnodes : ℕ
  pub pp_size : ℕ
  pub dp_size : ℕ
  pub tp_size : ℕ
  pub host : String
  pub port : ℕ

-- A line of its output.
pub data Line : Type 0 where
  marked : Facts → Line
  unmarked : Line

unfoldable pub marked_facts : List Line → List Facts
marked_facts [] = []
marked_facts (marked facts ∷ lines) = facts ∷ marked_facts lines
marked_facts (unmarked ∷ lines) = marked_facts lines

-- `preflight`, from the status and the lines of the interpreter; `none` is the LaunchError.
unfoldable pub preflight : Bool → List Line → Option Facts
unfolding marked_facts
preflight failed lines = elim (marked_facts lines) [
  | [] ↦ none
  | facts ∷ [] ↦ if failed then none else some facts
  | facts ∷ more ∷ rest ↦ none
]

pub data Mismatch : Type 0 where
  wrong_entry_points wrong_package wrong_native_versions wrong_topology : Mismatch

-- `facts["entry_points"] == [[ENTRY_POINT, DIST_NAME]]`
unfoldable pub sole_entry_point : List (String × Option String) → Bool
unfolding version_eq
sole_entry_point [] = false
sole_entry_point ((value, dist) ∷ []) =
    str_eq value "sglang_qsa_hisparse.plugin:load" && version_eq dist (some "sglang-qsa-hisparse")
sole_entry_point (e ∷ f ∷ rest) = false

-- `preflight_problems`; `package_file` is the file of this package.
unfoldable pub preflight_problems : String → Facts → Versions → List Mismatch
unfolding sole_entry_point versions_eq
preflight_problems package_file facts lock =
    (if sole_entry_point facts.entry_points then [] else wrong_entry_points ∷ [])
    ++ (if str_eq facts.package_file package_file then [] else wrong_package ∷ [])
    ++ (if versions_eq facts.native_versions lock then [] else wrong_native_versions ∷ [])
    ++ (if (facts.nnodes == 1) && ((facts.pp_size == 1) && (facts.dp_size == 1))
        then []
        else wrong_topology ∷ [])

-- The host that `_health_url` asks.
unfoldable pub health_host : String → String
unfolding str_eq
health_host host =
    if str_eq host ""
    then "127.0.0.1"
    else if str_eq host "0.0.0.0"
    then "127.0.0.1"
    else if str_eq host "::"
    then "::1"
    else host
