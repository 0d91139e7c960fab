-- ===== src/Launch/Ends.antt =====
-- launch.py: the order of what the launcher does, what it has checked when it reports that the server
-- is ready, and the status with which it ends.
use qsa_hisparse.Prelude.{
  ℕ, zero, suc, ◌+◌, ◌≡◌, ◌≢◌, ◌⊎◌, inl, inr, Bool, true, false, Option, none, some, List, [], ◌∷◌,
  ◌++◌, if◌then◌else◌, ◌==◌, ℤ, neg, Bool-cases, Option-cases, List-cases, Sum-cases, arith,
}
use qsa_hisparse.Startup.Switches.{Features, read_features, active}
use qsa_hisparse.Launch.Records.{Versions, check_records}
use qsa_hisparse.Launch.Preflight.{preflight, preflight_problems, selects_others}
use qsa_hisparse.Launch.Process.{
  Server, WaitEnd, answered, timed_out, by_signal, by_exit, wait_health, supervise, Action,
  make_run_dir, spawn, announce_ready, reap, signal_group, stop_with, wait_exit, wait_reap,
  stop_timeout, stop_server, Failure, bad_records, not_ready_in_time, stopped_early, Machine, Ready,
  inspect, prepare, finish, conclude, serve, launch_prepared, launch,
}

-- How far a run has come.
pub data Stage : Type 0 where
  idle directory running announced terminated killing over : Stage

-- The order that a run is to keep; `none` is an action out of order.
abbrev pub advance : Stage → Action → Option Stage
advance idle make_run_dir = some directory
advance directory spawn = some running
advance running announce_ready = some announced
advance running (signal_group signum) = if signum == 15 then some terminated else none
advance announced (signal_group signum) = if signum == 15 then some terminated else none
advance terminated (signal_group signum) = if signum == 9 then some killing else none
advance running reap = some over
advance announced reap = some over
advance terminated reap = some over
advance killing reap = some over
advance stage action = none

abbrev pub final_stage : Stage → Bool
final_stage idle = true
final_stage directory = true
final_stage over = true
final_stage stage = false

-- A list of actions in order, with the server reaped at its end if it was started.
abbrev pub in_order : Stage → List Action → Bool
in_order stage [] = final_stage stage
in_order stage (action ∷ actions) = elim (advance stage action) [
  | none ↦ false
  | some next ↦ in_order next actions
]

pub wait_reap_lem :
    (s : Server) (fuel i : ℕ) (stops : List Action)
    → wait_reap s fuel i ≡ some stops
    → stops ≡ reap ∷ []
unfolding wait_reap
wait_reap_lem s zero i stops h = absurd (ground arith)
wait_reap_lem s (suc fuel) i stops h = ground (arith, wait_reap_lem s fuel (i + 1) stops)

stop_with-in_order :
    (s : Server) (fuel i : ℕ) (stops : List Action)
    → stop_with s fuel (9 ∷ []) i ≡ some stops
    → in_order terminated stops ≡ true
unfolding stop_with
stop_with-in_order s fuel i stops h = elim (Bool-cases (s.group_gone i)) [
  | inl gone ↦ ground (arith, wait_reap_lem s fuel i stops)
  | inr there ↦ elim (Option-cases (wait_exit s (s.clock i + stop_timeout) fuel i)) [
    | inl e ↦ absurd (ground arith)
    | inr (j, e) ↦ elim (Option-cases (wait_reap s fuel j)) [
      | inl w ↦ absurd (ground arith)
      | inr (xs, w) ↦ ground (arith, wait_reap_lem s fuel j xs w)
    ]
  ]
]

pub stop_server-in_order :
    (s : Server) (fuel i : ℕ) (stops : List Action)
    → stop_server s fuel i ≡ some stops
    → (in_order running stops ≡ true) × (in_order announced stops ≡ true)
unfolding stop_server stop_with
stop_server-in_order s fuel i stops h = elim (Bool-cases (s.group_gone i)) [
  | inl gone ↦ ground (arith, wait_reap_lem s fuel i stops)
  | inr there ↦ elim (Option-cases (wait_exit s (s.clock i + stop_timeout) fuel i)) [
    | inl e ↦ absurd (ground arith)
    | inr (j, e) ↦ elim (Option-cases (stop_with s fuel (9 ∷ []) j)) [
      | inl w ↦ absurd (ground arith)
      | inr (xs, w) ↦ ground (arith, stop_with-in_order s fuel j xs w)
    ]
  ]
]

-- A run that is finished has stopped the server after its other actions.
pub finish_lem :
    (s : Server) (fuel i : ℕ) (actions : List Action) (result : Failure ⊎ ℤ)
    (out : List Action × (Failure ⊎ ℤ))
    → finish s fuel i actions result ≡ some out
    → (stops : List Action) × (stop_server s fuel i ≡ some stops)
      × (out.0 ≡ actions ++ stops)
      × (out.1 ≡ result)
unfolding finish
finish_lem s fuel i actions result out h = elim (Option-cases (stop_server s fuel i)) [
  | inl e ↦ absurd (ground arith)
  | inr (stops, e) ↦ (stops, e, ground arith, ground arith)
]

finish_silent :
    (s : Server) (fuel i : ℕ) (result : Failure ⊎ ℤ) (out : List Action × (Failure ⊎ ℤ))
    → finish s fuel i (spawn ∷ []) result ≡ some out
    → in_order directory out.0 ≡ true
finish_silent s fuel i result out h =
    let (stops, e, a, r) = finish_lem s fuel i (spawn ∷ []) result out h in
    ground (arith, stop_server-in_order s fuel i stops e)

pub conclude-in_order :
    (m : Machine) (r : Ready) (fuel i : ℕ) (end : WaitEnd) (out : List Action × (Failure ⊎ ℤ))
    → conclude m r fuel i end ≡ some out
    → in_order directory out.0 ≡ true
unfolding conclude
conclude-in_order m r fuel i answered out h =
    elim (List-cases (check_records r.features r.lock r.facts.tp_size m.records)) [
      | inr (p, ps, c) ↦
          finish_silent m.server fuel i (inl (bad_records (p ∷ ps))) out (ground arith)
      | inl c ↦ elim (Option-cases (supervise m.server fuel i)) [
        | inl v ↦ absurd (ground arith)
        | inr ((j, status), v) ↦
            let (stops, e, a, q) =
              finish_lem m.server fuel j (spawn ∷ announce_ready ∷ []) (inr status) out
                (ground arith) in
            ground (arith, stop_server-in_order m.server fuel j stops e)
      ]
    ]
conclude-in_order m r fuel i timed_out out h =
    finish_silent m.server fuel i (inl not_ready_in_time) out h
conclude-in_order m r fuel i (by_signal signum) out h =
    finish_silent m.server fuel i (inr (neg signum)) out h
conclude-in_order m r fuel i (by_exit state) out h =
    finish_silent m.server fuel i (inl (stopped_early state)) out h

-- The launcher may start the server: what was asked for, what it is checked against, and what the
-- preflight interpreter found.
pub record IsPrepared (m : Machine) (r : Ready) : Type 0 where
  pub requested : read_features m.environ ≡ inr r.features
  pub something : active r.features ≢ []
  pub alone : selects_others m.environ ≡ false
  pub locked : m.lock ≡ some r.lock
  pub fresh_dir : m.run_dir_taken ≡ false
  pub found : preflight m.preflight_fails m.preflight_lines ≡ some r.facts
  pub fits : preflight_problems m.package_file r.facts r.lock ≡ []

inspect_lem :
    (m : Machine) (f : Features) (lock : Versions) (r : Ready)
    → (inspect m f lock).1 ≡ inr r
    → ((inspect m f lock).0 ≡ make_run_dir ∷ [])
      × (r.features ≡ f)
      × (r.lock ≡ lock)
      × (m.run_dir_taken ≡ false)
      × (preflight m.preflight_fails m.preflight_lines ≡ some r.facts)
      × (preflight_problems m.package_file r.facts lock ≡ [])
unfolding inspect
inspect_lem m f lock r h = elim (Option-cases (preflight m.preflight_fails m.preflight_lines)) [
  | inl e ↦ absurd (ground arith)
  | inr (facts, e) ↦ elim (List-cases (preflight_problems m.package_file facts lock)) [
    | inl p ↦ ground arith
    | inr (q, qs, p) ↦ absurd (ground arith)
  ]
]

inspect_refused :
    (m : Machine) (f : Features) (lock : Versions) (failure : Failure)
    → (inspect m f lock).1 ≡ inl failure
    → in_order idle (inspect m f lock).0 ≡ true
unfolding inspect
inspect_refused m f lock failure h = ground arith

prepare_lem :
    (m : Machine) (r : Ready)
    → (prepare m).1 ≡ inr r
    → IsPrepared m r × ((prepare m).0 ≡ make_run_dir ∷ [])
unfolding prepare
prepare_lem m r h = elim (Sum-cases (read_features m.environ)) [
  | inl (e, q) ↦ absurd (ground arith)
  | inr (f, q) ↦ elim (List-cases (active f)) [
    | inl a ↦ absurd (ground arith)
    | inr (name, names, a) ↦ elim (Bool-cases (selects_others m.environ)) [
      | inl b ↦ absurd (ground arith)
      | inr b ↦ elim (Option-cases m.lock) [
        | inl l ↦ absurd (ground arith)
        | inr (lock, l) ↦
            let (d, rf, rl, t, found, fits) = inspect_lem m f lock r (ground arith) in
            (
              record {
                requested = ground arith;
                something = ground arith;
                alone = b;
                locked = ground arith;
                fresh_dir = t;
                found = found;
                fits = ground arith;
              },
              ground arith,
            )
      ]
    ]
  ]
]

prepare_refused :
    (m : Machine) (failure : Failure)
    → (prepare m).1 ≡ inl failure
    → in_order idle (prepare m).0 ≡ true
unfolding prepare
prepare_refused m failure h = ground arith

pub serve_lem :
    (m : Machine) (r : Ready) (timeout fuel : ℕ) (out : List Action × (Failure ⊎ ℤ))
    → serve m r timeout fuel ≡ some out
    → (i : ℕ) × (end : WaitEnd) × (wait_health m.server (m.server.clock 0 + timeout) fuel 0
        ≡ some (i, end))
      × (conclude m r fuel i end ≡ some out)
unfolding serve
serve_lem m r timeout fuel out h =
    elim (Option-cases (wait_health m.server (m.server.clock 0 + timeout) fuel 0)) [
      | inl w ↦ absurd (ground arith)
      | inr ((i, end), w) ↦ (i, end, w, ground arith)
    ]

-- A run either ends before the start of the server, or goes on to it.
pub launch_lem :
    (m : Machine) (timeout fuel : ℕ) (out : List Action × (Failure ⊎ ℤ))
    → launch m timeout fuel ≡ some out
    → ((failure : Failure) × ((prepare m).1 ≡ inl failure) × (out ≡ ((prepare m).0, inl failure)))
      ⊎ ((r : Ready) × (served : List Action × (Failure ⊎ ℤ)) × (IsPrepared m r)
          × (serve m r timeout fuel ≡ some served)
          × (out ≡ (make_run_dir ∷ served.0, served.1)))
unfolding launch launch_prepared
launch_lem m timeout fuel out h = elim (Sum-cases (prepare m).1) [
  | inl (failure, p) ↦ inl (failure, p, ground arith)
  | inr (r, p) ↦ elim (Option-cases (serve m r timeout fuel)) [
    | inl s ↦ absurd (ground arith)
    | inr (served, s) ↦
        let (prepared, dir) = prepare_lem m r p in inr (r, served, prepared, s, ground arith)
  ]
]

-- Whatever happens, a launch makes its run directory before it starts the server, reports readiness at
-- most once and after the start, signals only the server that it started, by SIGTERM and then by
-- SIGKILL, and ends with the server reaped if it was started.
pub launch-in_order :
    (m : Machine) (timeout fuel : ℕ) (out : List Action × (Failure ⊎ ℤ))
    → launch m timeout fuel ≡ some out
    → in_order idle out.0 ≡ true
launch-in_order m timeout fuel out h = elim (launch_lem m timeout fuel out h) [
  | inl (failure, p, e) ↦ ground (arith, prepare_refused m failure p)
  | inr (r, served, prepared, s, e) ↦
      let (i, end, w, c) = serve_lem m r timeout fuel served s in
      ground (arith, conclude-in_order m r fuel i end served c)
]
