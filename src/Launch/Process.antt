-- ===== src/Launch/Process.antt =====
-- launch.py: the launcher's run. The server is given by what a round of a loop sees of it: whether it
-- answers, the signals that have come, its exit state, and the clock. A loop that may go on for ever
-- takes fuel, and gives nothing when that is used up.
use qsa_hisparse.Prelude.{
  ℕ, zero, suc, ◌+◌, String, Bool, true, false, Option, none, some, ◌⊎◌, inl, inr, List, [], ◌∷◌,
  ◌++◌, if◌then◌else◌, ltb, ℤ, pos, negsuc, neg, str_eq,
}
use qsa_hisparse.Startup.Switches.{Features, ConfigError, read_features, active}
use qsa_hisparse.Launch.Records.{Versions, File, Problem, check_records}
use qsa_hisparse.Launch.Preflight.{
  Facts, Line, Mismatch, preflight, preflight_problems, selects_others,
}

-- `os.waitid`: CLD_EXITED with a status, or a signal.
pub data ExitState : Type 0 where
  exited killed : ℕ → ExitState

-- `_status`
unfoldable pub status_of : ExitState → ℤ
status_of (exited code) = pos code
status_of (killed signum) = neg signum

-- `_status(state) or 1`
unfoldable pub failing_status : ExitState → ℤ
failing_status (exited zero) = pos 1
failing_status (exited (suc code)) = pos (suc code)
failing_status (killed zero) = pos 1
failing_status (killed (suc signum)) = negsuc signum

-- What each round of the launcher's loops sees.
pub record Server : Type 0 where
  pub healthy : ℕ → Bool
  pub signals : ℕ → List ℕ
  pub exit_state : ℕ → Option ExitState
  pub group_gone : ℕ → Bool
  pub clock : ℕ → ℕ

pub data WaitEnd : Type 0 where
  answered timed_out : WaitEnd
  by_signal : ℕ → WaitEnd
  by_exit : ExitState → WaitEnd

-- The loop of `_wait_until_ready`: the round in which it ends, and how.
unfoldable pub wait_health : Server → ℕ → ℕ → ℕ → Option (ℕ × WaitEnd)
wait_health s deadline zero i = none
wait_health s deadline (suc fuel) i =
    let rest = wait_health s deadline fuel (i + 1) in
    if s.healthy i then some (i, answered) else (elim (s.signals i) [
      | signum ∷ more ↦ some (i, by_signal signum)
      | [] ↦ elim (s.exit_state i) [
        | some state ↦ some (i, by_exit state)
        | none ↦ if ltb deadline (s.clock i) then some (i, timed_out) else rest
      ]
    ])

-- The loop of `launch` after readiness: the round in which it ends, and the status.
unfoldable pub supervise : Server → ℕ → ℕ → Option (ℕ × ℤ)
unfolding status_of
supervise s zero i = none
supervise s (suc fuel) i =
    let rest = supervise s fuel (i + 1) in
    elim (s.signals i) [
      | signum ∷ more ↦ some (i, neg signum)
      | [] ↦ elim (s.exit_state i) [ some state ↦ some (i, status_of state) | none ↦ rest ]
    ]

pub data Action : Type 0 where
  make_run_dir spawn announce_ready reap : Action
  signal_group : ℕ → Action

-- The wait of `stop_server` for the exit: the round in which it ends.
unfoldable pub wait_exit : Server → ℕ → ℕ → ℕ → Option ℕ
wait_exit s deadline zero i = none
wait_exit s deadline (suc fuel) i =
    let rest = wait_exit s deadline fuel (i + 1) in
    elim (s.exit_state i) [
      | some state ↦ some i
      | none ↦ if ltb (s.clock i) deadline then rest else some i
    ]

-- STOP_TIMEOUT_SECONDS, with ten rounds of the clock to the second.
abbrev pub stop_timeout : ℕ
stop_timeout = 300

-- `server.wait()`, which returns when the server has exited.
unfoldable pub wait_reap : Server → ℕ → ℕ → Option (List Action)
wait_reap s zero i = none
wait_reap s (suc fuel) i =
    let rest = wait_reap s fuel (i + 1) in
    elim (s.exit_state i) [ some state ↦ some (reap ∷ []) | none ↦ rest ]

-- The loop of `stop_server` over the signals, and the wait behind it.
unfoldable pub stop_with : Server → ℕ → List ℕ → ℕ → Option (List Action)
unfolding wait_exit wait_reap
stop_with s fuel [] i = wait_reap s fuel i
stop_with s fuel (signum ∷ signums) i = elim (s.group_gone i) [
  | true ↦ wait_reap s fuel i
  | false ↦ elim (wait_exit s (s.clock i + stop_timeout) fuel i) [
    | none ↦ none
    | some j ↦ elim (stop_with s fuel signums j) [
      | none ↦ none
      | some actions ↦ some (signal_group signum ∷ actions)
    ]
  ]
]

-- `stop_server`: SIGTERM, then SIGKILL.
unfoldable pub stop_server : Server → ℕ → ℕ → Option (List Action)
unfolding stop_with
stop_server s fuel i = stop_with s fuel (15 ∷ 9 ∷ []) i

-- The LaunchErrors.
pub data Failure : Type 0 where
  bad_features : ConfigError → Failure
  no_feature other_plugins no_lock run_dir_exists preflight_raised not_ready_in_time : Failure
  preflight_failed : List Mismatch → Failure
  stopped_early : ExitState → Failure
  bad_records : List Problem → Failure

-- `LaunchError.status`
unfoldable pub failure_status : Failure → ℤ
unfolding failing_status
failure_status (stopped_early state) = failing_status state
failure_status (bad_features e) = pos 1
failure_status no_feature = pos 1
failure_status other_plugins = pos 1
failure_status no_lock = pos 1
failure_status run_dir_exists = pos 1
failure_status preflight_raised = pos 1
failure_status not_ready_in_time = pos 1
failure_status (preflight_failed problems) = pos 1
failure_status (bad_records problems) = pos 1

-- What `launch` finds around it; `records` is the activation directory when the server answers.
pub record Machine : Type 0 where
  pub environ : String → Option String
  pub lock : Option Versions
  pub run_dir_taken : Bool
  pub preflight_fails : Bool
  pub preflight_lines : List Line
  pub package_file : String
  pub server : Server
  pub records : List (String × File)

-- What the part of `launch` before the start of the server finds out.
pub record Ready : Type 0 where
  pub features : Features
  pub lock : Versions
  pub facts : Facts

-- `_make_run_dir` and what follows it up to the start.
unfoldable pub inspect : Machine → Features → Versions → List Action × (Failure ⊎ Ready)
inspect m features lock =
    if m.run_dir_taken
    then ([], inl run_dir_exists)
    else (elim (preflight m.preflight_fails m.preflight_lines) [
      | none ↦ (make_run_dir ∷ [], inl preflight_raised)
      | some facts ↦ elim (preflight_problems m.package_file facts lock) [
        | [] ↦ (make_run_dir ∷ [], inr (record { features = features; lock = lock; facts = facts }))
        | p ∷ ps ↦ (make_run_dir ∷ [], inl (preflight_failed (p ∷ ps)))
      ]
    ])

-- `launch` before the start of the server.
unfoldable pub prepare : Machine → List Action × (Failure ⊎ Ready)
unfolding inspect
prepare m = elim (read_features m.environ) [
  | inl e ↦ ([], inl (bad_features e))
  | inr features ↦ elim (active features) [
    | [] ↦ ([], inl no_feature)
    | name ∷ names ↦
        if selects_others m.environ
        then ([], inl other_plugins)
        else (elim m.lock [ none ↦ ([], inl no_lock) | some lock ↦ inspect m features lock ])
  ]
]

-- `finally: stop_server(server)`
unfoldable pub finish :
    Server → ℕ → ℕ → List Action → Failure ⊎ ℤ → Option (List Action × (Failure ⊎ ℤ))
unfolding stop_server
finish s fuel i actions result = elim (stop_server s fuel i) [
  | none ↦ none
  | some stops ↦ some (actions ++ stops, result)
]

-- `launch` after the wait for readiness, which ends in the round `i`.
unfoldable pub conclude : Machine → Ready → ℕ → ℕ → WaitEnd → Option (List Action × (Failure ⊎ ℤ))
unfolding check_records supervise finish
conclude m r fuel i answered = elim (check_records r.features r.lock r.facts.tp_size m.records) [
  | p ∷ ps ↦ finish m.server fuel i (spawn ∷ []) (inl (bad_records (p ∷ ps)))
  | [] ↦ elim (supervise m.server fuel i) [
    | none ↦ none
    | some ended ↦ finish m.server fuel ended.0 (spawn ∷ announce_ready ∷ []) (inr ended.1)
  ]
]
conclude m r fuel i timed_out = finish m.server fuel i (spawn ∷ []) (inl not_ready_in_time)
conclude m r fuel i (by_signal signum) = finish m.server fuel i (spawn ∷ []) (inr (neg signum))
conclude m r fuel i (by_exit state) =
    finish m.server fuel i (spawn ∷ []) (inl (stopped_early state))

-- `launch` from the start of the server on, in the round 0.
unfoldable pub serve : Machine → Ready → ℕ → ℕ → Option (List Action × (Failure ⊎ ℤ))
unfolding wait_health conclude
serve m r timeout fuel = elim (wait_health m.server (m.server.clock 0 + timeout) fuel 0) [
  | none ↦ none
  | some waited ↦ conclude m r fuel waited.0 waited.1
]

unfoldable pub launch_prepared :
    Machine → ℕ → ℕ → List Action × (Failure ⊎ Ready) → Option (List Action × (Failure ⊎ ℤ))
unfolding serve
launch_prepared m timeout fuel (actions, inl failure) = some (actions, inl failure)
launch_prepared m timeout fuel (actions, inr r) = elim (serve m r timeout fuel) [
  | none ↦ none
  | some served ↦ some (actions ++ served.0, served.1)
]

unfoldable pub launch : Machine → ℕ → ℕ → Option (List Action × (Failure ⊎ ℤ))
unfolding prepare launch_prepared
launch m timeout fuel = launch_prepared m timeout fuel (prepare m)

-- How `main` ends: with a status, or by a signal to itself, and with the status if it survives that.
pub data Ending : Type 0 where
  exits : ℕ → Ending
  by_signal_to_self : ℕ → ℕ → Ending

unfoldable pub end_with : ℤ → Ending
end_with (pos status) = exits status
end_with (negsuc n) = by_signal_to_self (n + 1) (128 + (n + 1))

-- `main` after the parse of its arguments.
unfoldable pub main_end : Failure ⊎ ℤ → Ending
unfolding failure_status end_with
main_end (inl failure) = end_with (failure_status failure)
main_end (inr status) = end_with status

-- `argv.index("--")`: the options and the arguments of the server; `none` is the parser's error.
unfoldable pub split_args : List String → Option (List String × List String)
unfolding str_eq
split_args [] = none
split_args (a ∷ argv) =
    let rest = split_args argv in
    if str_eq a "--"
    then some ([], argv)
    else (elim rest [ none ↦ none | some (before, after) ↦ some (a ∷ before, after) ])
