-- ===== src/Restore/Drain.antt =====
-- prefix_cache.py: the drain of the lease of a first allocation, inside `rollback_prefix_for_extend`. The
-- writes of the log of the runtime succeed or fail as the arguments say.
use qsa_hisparse.Prelude.{
  ℕ, String, Bool, true, false, not, ◌&&◌, Option, none, some, List, [], ◌∷◌, if◌then◌else◌, has,
  get, put, Outcome, done, raised, and_then,
}
use qsa_hisparse.Slots.Defs.{Lease, Event, drained, logical_flushed, lease_eq, phase_in}
use qsa_hisparse.Runtime.Defs.{
  Runtime, Error as RuntimeError, log_failure, partial_lease, graph_drain, lease_in, request_of,
  without, release,
}
use qsa_hisparse.Restore.State.{Transfer, State, Req, Error, of_runtime}

-- What a rollback finds: the row of the request, and how the runtime's calls go.
pub record Around : Type 0 where
  pub row : ℕ → ℕ → ℕ → List ℕ
  pub page_size : ℕ
  pub terminal : Event
  pub streams_drain : Bool
  pub begin_logged : Bool
  pub drain_logged : Bool
  pub free_group : Bool
  pub commit_logged : Bool

-- The lease of a record, which is looked for once.
unfoldable pub lease_of : Runtime → Transfer → Option Lease
lease_of r t = elim t.lease [
  | some lease ↦ lease
  | none ↦ elim t.req_idx [
    | none ↦ none
    | some none ↦ none
    | some (some idx) ↦ get idx r.slots.active
  ]
]

-- `slots.active.get(lease.req_pool_idx) == lease`
unfoldable pub is_active : Runtime → Lease → Bool
is_active r lease = elim (get lease.req_pool_idx r.slots.active) [
  | none ↦ false
  | some active ↦ lease_eq active lease
]

unfoldable pub already_drained : Runtime → Option Lease → Bool
unfolding is_active
already_drained r none = false
already_drained r (some lease) = is_active r lease && elim (get lease.req_pool_idx r.slots.phases) [
  | none ↦ false
  | some p ↦ phase_in p (drained ∷ logical_flushed ∷ [])
]

-- The runtime's `release` up to its first log write, which fails.
unfoldable pub release_unlogged :
    Runtime → ℕ → String → Bool → Outcome RuntimeError Runtime (Option Lease)
unfolding request_of lease_in without
release_unlogged r idx rid streams_drain =
    if not (has idx r.requests)
    then (if has idx r.slots.active then raised r partial_lease else done r none)
    else (elim (request_of r idx rid) [
      | raised _ e ↦ raised r e
      | done _ state ↦
          if not (lease_in state.lease r.graph_failed_leases)
          then raised r log_failure
          else if streams_drain
          then raised (record r { graph_failed_leases = without state.lease r.graph_failed_leases })
              log_failure
          else raised r graph_drain
    ])

-- The runtime's `release`, where each of its two log writes may fail, before the drain and after it.
unfoldable pub release_logged :
    Runtime → Option ℕ → String → Around → Outcome RuntimeError Runtime (Option Lease)
unfolding release release_unlogged
release_logged r none rid a = done r none
release_logged r (some idx) rid a =
    if not a.begin_logged
    then release_unlogged r idx rid a.streams_drain
    else and_then (release r idx rid a.terminal a.streams_drain) (λ d lease. elim lease [
      | none ↦ done d none
      | some l ↦ if a.drain_logged then done d (some l) else raised d log_failure
    ])

-- `record["req_idx"]`
unfoldable pub known_idx : Transfer → Option ℕ
known_idx t = elim t.req_idx [ none ↦ none | some idx ↦ idx ]

-- The drain of a first allocation: the record with its lease, and drained.
unfoldable pub drain_transfer : State → Req → Around → Transfer → Outcome Error State Transfer
unfolding lease_of already_drained release_logged known_idx
drain_transfer s req a t =
    let found : Transfer = record t { lease = some (lease_of s.runtime t) } in
    let noted : State = record s { restoring = put req.handle found s.restoring } in
    if t.drained
    then done noted found
    else if already_drained s.runtime (lease_of s.runtime t)
    then done noted (record found { drained = true })
    else (elim (release_logged s.runtime (known_idx t) req.rid a) [
      | raised r e ↦ raised (record noted { runtime = r }) (of_runtime e)
      | done r lease ↦
          done (record noted { runtime = r }) (record found { lease = some lease; drained = true })
    ])
