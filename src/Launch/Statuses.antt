-- ===== src/Launch/Statuses.antt =====
-- launch.py: what the launcher has checked when it reports that the server is ready, and the status
-- with which it ends.
use qsa_hisparse.Prelude.{
  ℕ, zero, suc, ◌+◌, ◌<◌, ◌≡◌, ◌⊎◌, inl, inr, Bool, true, false, Option, none, some, List, [], ◌∷◌,
  ltb, ℤ, pos, neg, Bool-cases, Option-cases, List-cases, arith,
}
use qsa_hisparse.Launch.Records.{Rank, check_records}
use qsa_hisparse.Launch.Checks.{AllGood, records_of, wanted, check_records_iff}
use qsa_hisparse.Launch.Process.{
  Server, ExitState, exited, killed, status_of, WaitEnd, answered, timed_out, by_signal, by_exit,
  wait_health, supervise, Action, spawn, announce_ready, stop_with, wait_exit, stop_timeout,
  stop_server, Failure, bad_records, not_ready_in_time, stopped_early, failing_status,
  failure_status, Machine, Ready, inspect, make_run_dir, prepare, finish, conclude, launch, exits,
  end_with, main_end,
}
use qsa_hisparse.Launch.Ends.{IsPrepared, wait_reap_lem, finish_lem, serve_lem, launch_lem}

abbrev pub announces : List Action → Bool
announces [] = false
announces (announce_ready ∷ actions) = true
announces (action ∷ actions) = announces actions

stop_with-announces :
    (s : Server) (fuel i : ℕ) (signums : List ℕ) (stops : List Action)
    → stop_with s fuel signums i ≡ some stops
    → announces stops ≡ false
unfolding stop_with
stop_with-announces s fuel i [] stops h = ground (arith, wait_reap_lem s fuel i stops)
stop_with-announces s fuel i (signum ∷ signums) stops h = elim (Bool-cases (s.group_gone i)) [
  | inl gone ↦ ground (arith, wait_reap_lem s fuel i stops)
  | inr there ↦ elim (Option-cases (wait_exit s (s.clock i + stop_timeout) fuel i)) [
    | inl e ↦ absurd (ground arith)
    | inr (j, e) ↦ elim (Option-cases (stop_with s fuel signums j)) [
      | inl w ↦ absurd (ground arith)
      | inr (xs, w) ↦ ground (arith, stop_with-announces s fuel j signums xs w)
    ]
  ]
]

stop_server-announces :
    (s : Server) (fuel i : ℕ) (stops : List Action)
    → stop_server s fuel i ≡ some stops
    → announces stops ≡ false
unfolding stop_server
stop_server-announces s fuel i stops h = stop_with-announces s fuel i (15 ∷ 9 ∷ []) stops h

abbrev pub first_of : List ℕ → Option ℕ
first_of [] = none
first_of (n ∷ ns) = some n

-- What the launcher sees in the round in which its wait for readiness ends.
abbrev pub Sees : Server → ℕ → ℕ → WaitEnd → Type 0
Sees s deadline i answered = s.healthy i ≡ true
Sees s deadline i timed_out = deadline < s.clock i
Sees s deadline i (by_signal signum) = first_of (s.signals i) ≡ some signum
Sees s deadline i (by_exit state) = s.exit_state i ≡ some state

wait_health-Sees :
    (s : Server) (deadline fuel i j : ℕ) (end : WaitEnd)
    → wait_health s deadline fuel i ≡ some (j, end)
    → Sees s deadline j end
unfolding wait_health
wait_health-Sees s deadline zero i j end h = absurd (ground arith)
wait_health-Sees s deadline (suc fuel) i j end h = elim (Bool-cases (s.healthy i)) [
  | inl a ↦ ground arith
  | inr a ↦ elim (List-cases (s.signals i)) [
    | inr (signum, more, g) ↦ ground arith
    | inl g ↦ elim (Option-cases (s.exit_state i)) [
      | inr (state, x) ↦ ground arith
      | inl x ↦ elim (Bool-cases (ltb deadline (s.clock i))) [
        | inl t ↦ ground arith
        | inr t ↦ wait_health-Sees s deadline fuel (i + 1) j end (ground arith)
      ]
    ]
  ]
]

supervise_lem :
    (s : Server) (fuel i j : ℕ) (status : ℤ)
    → supervise s fuel i ≡ some (j, status)
    → ((signum : ℕ) × (first_of (s.signals j) ≡ some signum) × (status ≡ neg signum))
      ⊎ ((state : ExitState) × (s.exit_state j ≡ some state) × (status ≡ status_of state))
unfolding supervise
supervise_lem s zero i j status h = absurd (ground arith)
supervise_lem s (suc fuel) i j status h = elim (List-cases (s.signals i)) [
  | inr (signum, more, g) ↦ inl (signum, ground arith, ground arith)
  | inl g ↦ elim (Option-cases (s.exit_state i)) [
    | inr (state, x) ↦ inr (state, ground arith, ground arith)
    | inl x ↦ supervise_lem s fuel (i + 1) j status (ground arith)
  ]
]

-- The three ends of the wait that stop the server and report no readiness.
finish_silent :
    (s : Server) (fuel i : ℕ) (result : Failure ⊎ ℤ) (out : List Action × (Failure ⊎ ℤ))
    → finish s fuel i (spawn ∷ []) result ≡ some out
    → (announces out.0 ≡ false) × (out.1 ≡ result)
finish_silent s fuel i result out h =
    let (stops, e, a, r) = finish_lem s fuel i (spawn ∷ []) result out h in
    ground (arith, stop_server-announces s fuel i stops e)

-- How a run ends after the wait for readiness.
pub data Concluded (m : Machine) (r : Ready) (out : List Action × (Failure ⊎ ℤ)) : Type 0 where
  ready :
      (j fuel i : ℕ) (status : ℤ)
      → m.server.healthy i ≡ true
      → check_records r.features r.lock r.facts.tp_size m.records ≡ []
      → supervise m.server fuel i ≡ some (j, status)
      → announces out.0 ≡ true
      → out.1 ≡ inr status
      → Concluded m r out
  refused : (failure : Failure) → announces out.0 ≡ false → out.1 ≡ inl failure → Concluded m r out
  interrupted :
      (i signum : ℕ)
      → first_of (m.server.signals i) ≡ some signum
      → announces out.0 ≡ false
      → out.1 ≡ inr (neg signum)
      → Concluded m r out

conclude_lem :
    (m : Machine) (r : Ready) (fuel i : ℕ) (end : WaitEnd) (deadline : ℕ)
    (out : List Action × (Failure ⊎ ℤ))
    → Sees m.server deadline i end
    → conclude m r fuel i end ≡ some out
    → Concluded m r out
unfolding conclude
conclude_lem m r fuel i answered deadline out sees h =
    elim (List-cases (check_records r.features r.lock r.facts.tp_size m.records)) [
      | inr (p, ps, c) ↦
          let (a, q) =
            finish_silent m.server fuel i (inl (bad_records (p ∷ ps))) out (ground arith) in
          refused (bad_records (p ∷ ps)) a q
      | inl c ↦ elim (Option-cases (supervise m.server fuel i)) [
        | inl v ↦ absurd (ground arith)
        | inr ((j, status), v) ↦
            let (stops, e, a, q) =
              finish_lem m.server fuel j (spawn ∷ announce_ready ∷ []) (inr status) out
                (ground arith) in
            ready j fuel i status sees c v (ground arith) q
      ]
    ]
conclude_lem m r fuel i timed_out deadline out sees h =
    let (a, q) = finish_silent m.server fuel i (inl not_ready_in_time) out h in
    refused not_ready_in_time a q
conclude_lem m r fuel i (by_signal signum) deadline out sees h =
    let (a, q) = finish_silent m.server fuel i (inr (neg signum)) out h in
    interrupted i signum sees a q
conclude_lem m r fuel i (by_exit state) deadline out sees h =
    let (a, q) = finish_silent m.server fuel i (inl (stopped_early state)) out h in
    refused (stopped_early state) a q

prepare-announces :
    (m : Machine) (failure : Failure)
    → (prepare m).1 ≡ inl failure
    → announces (prepare m).0 ≡ false
unfolding prepare inspect
prepare-announces m failure h = ground arith

after_run_dir :
    (m : Machine) (r : Ready) (served out : List Action × (Failure ⊎ ℤ))
    → out ≡ (make_run_dir ∷ served.0, served.1)
    → Concluded m r served
    → Concluded m r out
after_run_dir m r served out e (ready j fuel i status sees c v a q) =
    ready j fuel i status sees c v (ground arith) (ground arith)
after_run_dir m r served out e (refused failure a q) = refused failure (ground arith) (ground arith)
after_run_dir m r served out e (interrupted i signum sees a q) =
    interrupted i signum sees (ground arith) (ground arith)

launch-Concluded :
    (m : Machine) (timeout fuel : ℕ) (out : List Action × (Failure ⊎ ℤ))
    → launch m timeout fuel ≡ some out
    → ((failure : Failure) × (announces out.0 ≡ false) × (out.1 ≡ inl failure))
      ⊎ ((r : Ready) × IsPrepared m r × Concluded m r out)
launch-Concluded m timeout fuel out h = elim (launch_lem m timeout fuel out h) [
  | inl (failure, p, e) ↦ inl (failure, ground (arith, prepare-announces m failure p), ground arith)
  | inr (r, served, prepared, s, e) ↦
      let (i, end, w, c) = serve_lem m r timeout fuel served s in
      let sees = wait_health-Sees m.server (m.server.clock 0 + timeout) fuel 0 i end w in
      inr (
        r,
        prepared,
        after_run_dir m r served out e
            (conclude_lem m r fuel i end (m.server.clock 0 + timeout) served sees c),
      )
]

-- When the launcher reports that the server is ready, the features that the environment asks for are
-- valid and not empty, no other plugin is selected, the preflight interpreter found this package and
-- the locked versions, the server has answered, and the activation directory holds the records of one
-- scheduler for each rank, all good, and nothing else.
pub launch-announces :
    (m : Machine) (timeout fuel : ℕ) (out : List Action × (Failure ⊎ ℤ))
    → launch m timeout fuel ≡ some out
    → announces out.0 ≡ true
    → (r : Ready) × IsPrepared m r
      × AllGood r.features r.lock m.records
      × ((k : Rank) → records_of k m.records ≡ wanted r.facts.tp_size k)
      × ((i : ℕ) × (m.server.healthy i ≡ true))
launch-announces m timeout fuel out h told = elim (launch-Concluded m timeout fuel out h) [
  | inl (failure, a, q) ↦ absurd (ground arith)
  | inr (r, prepared, concluded) ↦ elim concluded [
    | ready j fuel' i status sees c v a q ↦
        let (good, ranks) = (check_records_iff r.features r.lock r.facts.tp_size m.records).0 c in
        (r, prepared, good, ranks, (i, sees))
    | refused failure a q ↦ absurd (ground arith)
    | interrupted i signum sees a q ↦ absurd (ground arith)
  ]
]

-- Signals have positive numbers.
pub record IsReal (s : Server) : Type 0 where
  pub sent : (i signum : ℕ) → first_of (s.signals i) ≡ some signum → 0 < signum
  pub died : (i signum : ℕ) → s.exit_state i ≡ some (killed signum) → 0 < signum

failure_status-zero : (failure : Failure) → failure_status failure ≡ pos 0 → ⊥
unfolding failure_status failing_status
failure_status-zero failure h = ground arith

-- The launcher exits with the status 0 only if it has reported that the server is ready and the server
-- has exited with the status 0 itself: no failed check, no time limit, no signal and no crash of the
-- server ends in it.
pub launch_succeeds :
    (m : Machine) (timeout fuel : ℕ) (out : List Action × (Failure ⊎ ℤ))
    → launch m timeout fuel ≡ some out
    → IsReal m.server
    → main_end out.1 ≡ exits 0
    → (announces out.0 ≡ true) × ((j : ℕ) × (m.server.exit_state j ≡ some (exited 0)))
unfolding main_end end_with status_of
launch_succeeds m timeout fuel out h real z = elim (launch-Concluded m timeout fuel out h) [
  | inl (failure, a, q) ↦ absurd (ground (arith, failure_status-zero failure))
  | inr (r, prepared, concluded) ↦ elim concluded [
    | ready j fuel' i status sees c v a q ↦ elim (supervise_lem m.server fuel' i j status v) [
      | inl (signum, g, e) ↦ absurd (ground (arith, real.sent j signum g))
      | inr (exited code, x, e) ↦ (a, (j, ground arith))
      | inr (killed signum, x, e) ↦ absurd (ground (arith, real.died j signum x))
    ]
    | refused failure a q ↦ absurd (ground (arith, failure_status-zero failure))
    | interrupted i signum sees a q ↦ absurd (ground (arith, real.sent i signum sees))
  ]
]
