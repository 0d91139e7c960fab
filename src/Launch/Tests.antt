-- ===== src/Launch/Tests.antt =====
-- A launch of a server with two schedulers that answers in its third round and exits in its fifth.
use qsa_hisparse.Prelude.{
  ℕ, ◌≡◌, ◌↔◌, refl, ◌⊎◌, inr, String, true, false, Option, none, some, List, [], ◌∷◌,
  if◌then◌else◌, ltb, leb, str_eq, ℤ, pos, range_from, arith,
}
use qsa_hisparse.Startup.Switches.{Features, read_features, active, compat_of, mode_of}
use qsa_hisparse.Launch.Records.{
  Versions, Rank, rank, text, Entry, File, holds, check_records, check_files, entry_problems,
  expected_ranks, count_ranks, counter_eq, tallies_eq, tally, bump, rank_eq, is_text, are_texts,
  texts_eq, is_mode, versions_eq, covers, has_version, version_eq,
}
use qsa_hisparse.Launch.Preflight.{
  Facts, marked, unmarked, preflight, preflight_problems, marked_facts, selects_others,
  sole_entry_point, plugin_names, split_commas, only_named, strip, strip_left, strip_right,
  is_space, codes_eq, all_named, server_environment,
}
use qsa_hisparse.Launch.Process.{
  Server, exited, status_of, Action, make_run_dir, spawn, announce_ready, reap, Failure, Machine,
  Ready, prepare, inspect, launch, launch_prepared, serve, conclude, finish, stop_server, stop_with,
  wait_reap, wait_exit, wait_health, supervise, exits, main_end, end_with,
}
use qsa_hisparse.Launch.Checks.{AllGood, records_of, wanted, check_records_iff}
use qsa_hisparse.Launch.Ends.{IsPrepared, in_order, idle, launch-in_order}
use qsa_hisparse.Launch.Statuses.{IsReal, announces, launch-announces, launch_succeeds}
use qsa_hisparse.Launch.Environment.{server_environment_lem}

abbrev variables : String → Option String
variables key =
    if str_eq key "SGLANG_QSA_MODEL_COMPAT"
    then some "1"
    else if str_eq key "SGLANG_QSA_HISPARSE_V3"
    then some "p2-offload"
    else if str_eq key "SGLANG_PLUGINS"
    then some " qsa_hisparse ,"
    else none

abbrev features : Features
features = record { model_compat = true; hisparse_mode = some "p2-offload" }

abbrev lock : Versions
lock = ("torch", some "2.9") ∷ ("triton", some "3.5") ∷ []

abbrev entry : ℕ → Entry
entry k = record {
  role = text "scheduler";
  features = some ("model_compat" ∷ "hisparse" ∷ []);
  hisparse_mode = text "p2-offload";
  native_versions = ("triton", some "3.5") ∷ ("torch", some "2.9") ∷ [];
  tp_rank = rank k;
}

abbrev records : List (String × File)
records = ("a.json", holds (entry 1)) ∷ ("b.json", holds (entry 0)) ∷ []

abbrev facts : Facts
facts = record {
  entry_points = ("sglang_qsa_hisparse.plugin:load", some "sglang-qsa-hisparse") ∷ [];
  package_file = "/opt/qsa/__init__.py";
  native_versions = lock;
  nnodes = 1;
  pp_size = 1;
  dp_size = 1;
  tp_size = 2;
  host = "0.0.0.0";
  port = 30000;
}

abbrev server : Server
server = record {
  healthy = λ i. leb 2 i;
  signals = λ i. [];
  exit_state = λ i. if ltb i 4 then none else some (exited 0);
  group_gone = λ i. leb 4 i;
  clock = λ i. i;
}

abbrev machine : Machine
machine = record {
  environ = variables;
  lock = some lock;
  run_dir_taken = false;
  preflight_fails = false;
  preflight_lines = unmarked ∷ marked facts ∷ [];
  package_file = "/opt/qsa/__init__.py";
  server = server;
  records = records;
}

abbrev timeout : ℕ
timeout = 100

abbrev fuel : ℕ
fuel = 406

abbrev last_round : ℕ
last_round = 4

abbrev two_ranks : ℕ
two_ranks = 2

abbrev success : List Action × (Failure ⊎ ℤ)
success = (make_run_dir ∷ spawn ∷ announce_ready ∷ reap ∷ [], inr (pos 0))

server-IsReal : IsReal server
server-IsReal = record {
  sent = λ i signum h. absurd (ground arith);
  died = λ i signum h. ground arith;
}

launched : launch machine 100 406 ≡ some success
unfolding launch prepare inspect launch_prepared serve conclude finish stop_server stop_with
    wait_exit wait_reap wait_health supervise read_features compat_of mode_of active preflight
    preflight_problems marked_facts selects_others sole_entry_point plugin_names split_commas
    only_named strip strip_left strip_right is_space codes_eq all_named check_records check_files
    entry_problems expected_ranks count_ranks counter_eq tallies_eq tally bump rank_eq is_text
    are_texts texts_eq is_mode versions_eq covers has_version version_eq str_eq status_of range_from
launched = refl

ended_well : main_end success.1 ≡ exits 0
unfolding main_end end_with
ended_well = refl

check_records_iff_example :
    (check_records features lock two_ranks records ≡ [])
    ↔ (AllGood features lock records × ((r : Rank) → records_of r records ≡ wanted two_ranks r))
check_records_iff_example = check_records_iff features lock two_ranks records

launch-in_order_example : in_order idle success.0 ≡ true
launch-in_order_example = launch-in_order machine timeout fuel success launched

launch-announces_example :
    (r : Ready) × IsPrepared machine r
    × AllGood r.features r.lock machine.records
    × ((k : Rank) → records_of k machine.records ≡ wanted r.facts.tp_size k)
    × ((i : ℕ) × (machine.server.healthy i ≡ true))
launch-announces_example = launch-announces machine timeout fuel success launched refl

launch_succeeds_example :
    (announces success.0 ≡ true) × ((j : ℕ) × (machine.server.exit_state j ≡ some (exited 0)))
launch_succeeds_example =
    launch_succeeds machine timeout fuel success launched server-IsReal ended_well

server_environment_lem_example :
    (read_features (server_environment variables "/run/site" "/run/act") ≡ read_features variables)
    × (selects_others (server_environment variables "/run/site" "/run/act") ≡ false)
    × (server_environment variables "/run/site" "/run/act" "SGLANG_QSA_ACTIVATION_DIR"
        ≡ some "/run/act")
server_environment_lem_example = server_environment_lem variables "/run/site" "/run/act"
