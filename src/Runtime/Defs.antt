-- ===== src/Runtime/Defs.antt =====
-- The release of a request in runtime.py. What the device, the allocator and the event log do in a
-- call are its arguments; `free_group` says that the allocator collects frees in a group.
use qsa_hisparse.Prelude.{
  ℕ, zero, suc, String, Bool, false, not, ◌&&◌, ◌||◌, Option, none, some, List, [], ◌∷◌, ◌++◌,
  if◌then◌else◌, str_eq, ◌==◌, get, get_or, put, del, has, Dict, length, map, Outcome, done, raised,
}
use qsa_hisparse.Slots.Defs.{
  Slots, Lease, Event, Error as SlotsError, drained, logical_flushed, lease_eq, phase_in, require,
  drain, logical_flush, commit_release,
}

-- `_RequestCache`, as far as its release reads it: the events of its layers that are there, and that
-- of its handoff.
pub record Request : Type 0 where
  pub lease : Lease
  pub done_events : List Event
  pub handoff_event : Option Event

-- `QSAHiSparseRuntime`
pub record Runtime : Type 0 where
  pub slots : Slots
  pub requests : Dict Request
  pub generations : Dict ℕ
  pub graph_failed_leases : List Lease
  pub pending_releases : List Lease
  pub batch_requests : List Lease
  pub has_producer_stream : Bool

pub data Error : Type 0 where
  partial_lease no_request identity_changed graph_drain no_producer : Error
  duplicate_release log_failure : Error
  of_slots : SlotsError → Error

unfoldable pub lease_in : Lease → List Lease → Bool
lease_in l [] = false
lease_in l (m ∷ ms) = lease_eq m l || lease_in l ms

unfoldable pub without : Lease → List Lease → List Lease
without l [] = []
without l (m ∷ ms) = let rest = without l ms in if lease_eq m l then rest else m ∷ rest

-- `_request`: the state of the request, or what it raises.
unfoldable pub request_of : Runtime → ℕ → String → Outcome Error (Unit {0}) Request
request_of r req_idx rid = elim (get req_idx r.requests) [
  | none ↦ raised tt no_request
  | some state ↦ elim (require r.slots state.lease []) [
    | some e ↦ raised tt (of_slots e)
    | none ↦
        if str_eq state.lease.rid rid && (state.lease.generation == get_or req_idx r.generations 0)
        then done tt state
        else raised tt identity_changed
  ]
]

-- The events that `release` waits for beside the terminal one.
unfoldable pub copy_events : Request → List (Option Event)
copy_events state =
    map (λ event. some event) state.done_events
    ++ (elim state.handoff_event [ none ↦ [] | some event ↦ some event ∷ [] ])

-- The part of `release` behind the check of the graph streams.
unfoldable pub drain_request : Runtime → Request → Event → Outcome Error Runtime (Option Lease)
unfolding copy_events
drain_request r state terminal =
    if not r.has_producer_stream
    then raised r no_producer
    else (elim (drain r.slots state.lease (some terminal) (copy_events state)) [
      | raised s e ↦ raised (record r { slots = s }) (of_slots e)
      | done s _ ↦ done (record r { slots = s }) (some state.lease)
    ])

-- `release`: `streams_drain` says whether `_drain_graph_streams` returns. The log is written before
-- and after the drain; here those writes succeed.
unfoldable pub release : Runtime → ℕ → String → Event → Bool → Outcome Error Runtime (Option Lease)
unfolding request_of lease_in without drain_request
release r req_idx rid terminal streams_drain =
    if not (has req_idx r.requests)
    then (if has req_idx r.slots.active then raised r partial_lease else done r none)
    else (elim (request_of r req_idx rid) [
      | raised _ e ↦ raised r e
      | done _ state ↦
          if lease_in state.lease r.graph_failed_leases
          then (if streams_drain
              then drain_request
                  (record r { graph_failed_leases = without state.lease r.graph_failed_leases })
                  state terminal
              else raised r graph_drain)
          else drain_request r state terminal
    ])

-- The end of `after_release`, behind the logical flush; `log` says whether its log write succeeds.
unfoldable pub commit : Runtime → Lease → Bool → Outcome Error Runtime (Unit {0})
unfolding without
commit r lease log = elim (get lease.req_pool_idx r.requests) [
  | none ↦ raised r no_request
  | some state ↦
      let cleared = record r {
        requests = put lease.req_pool_idx (record state { done_events = [] }) r.requests;
        batch_requests = without lease r.batch_requests;
      } in
      elim (commit_release r.slots lease) [
        | raised s e ↦ raised (record cleared { slots = s }) (of_slots e)
        | done s _ ↦
            let released = record cleared {
              slots = s;
              requests = del lease.req_pool_idx r.requests;
            } in
            if log then done released tt else raised released log_failure
      ]
]

-- `self.slots.phases[lease.req_pool_idx] == "drained"`
unfoldable pub is_drained : Slots → Lease → Bool
is_drained s lease = elim (get lease.req_pool_idx s.phases) [
  | none ↦ false
  | some p ↦ phase_in p (drained ∷ [])
]

unfoldable pub flush_and_commit : Runtime → Lease → Bool → Outcome Error Runtime (Unit {0})
unfolding is_drained commit
flush_and_commit r lease log =
    if is_drained r.slots lease
    then (elim (logical_flush r.slots lease false) [
      | raised s e ↦ raised (record r { slots = s }) (of_slots e)
      | done s _ ↦ commit (record r { slots = s }) lease log
    ])
    else commit r lease log

-- The branch of `after_release` that defers the release to the flush of the group.
unfoldable pub defer : Runtime → Lease → Bool → Outcome Error Runtime (Unit {0})
unfolding lease_in
defer r lease log = elim (require r.slots lease (drained ∷ [])) [
  | some e ↦ raised r (of_slots e)
  | none ↦
      let deferred = record r { pending_releases = r.pending_releases ++ lease ∷ [] } in
      if lease_in lease r.pending_releases
      then raised r duplicate_release
      else if log
      then done deferred tt
      else raised deferred log_failure
]

-- `after_release`
unfoldable pub after_release :
    Runtime → Option Lease → Bool → Bool → Outcome Error Runtime (Unit {0})
unfolding flush_and_commit defer
after_release r none free_group log = done r tt
after_release r (some lease) free_group log =
    elim (require r.slots lease (drained ∷ logical_flushed ∷ [])) [
      | some e ↦ raised r (of_slots e)
      | none ↦ if free_group then defer r lease log else flush_and_commit r lease log
    ]

-- The `finally` of the loop.
unfoldable pub drop_finished : Runtime → Lease → Runtime
drop_finished r lease =
    if has lease.req_pool_idx r.slots.active
    then r
    else record r { pending_releases = elim r.pending_releases [ [] ↦ [] | first ∷ rest ↦ rest ] }

-- The loop of `after_logical_flush`, on fuel: whether the allocator has an open group, and for which
-- leases the log write succeeds, are arguments.
unfoldable pub flush_loop : ℕ → Runtime → Bool → (Lease → Bool) → Outcome Error Runtime (Unit {0})
unfolding after_release drop_finished
flush_loop zero r free_group log = done r tt
flush_loop (suc fuel) r free_group log = elim r.pending_releases [
  | [] ↦ done r tt
  | lease ∷ rest ↦ elim (after_release r (some lease) free_group (log lease)) [
    | raised d e ↦ raised (drop_finished d lease) e
    | done d _ ↦ flush_loop fuel (drop_finished d lease) free_group log
  ]
]

unfoldable pub after_logical_flush :
    Runtime → Bool → (Lease → Bool) → Outcome Error Runtime (Unit {0})
unfolding flush_loop
after_logical_flush r free_group log = flush_loop (length r.pending_releases) r free_group log
