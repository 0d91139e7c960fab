-- ===== src/Restore/Rollback.antt =====
-- prefix_cache.py: `rollback_prefix_for_extend`, which undoes an allocation that failed. A call may
-- raise and be made again, and takes up its work where it stopped; the writes of the log of the runtime
-- succeed or fail as the arguments say.
use qsa_hisparse.Prelude.{
  ℕ, ◌-◌, ◌%◌, Bool, true, false, not, ◌||◌, Option, none, some, List, [], ◌∷◌, ◌++◌, if◌then◌else◌,
  ltb, get, put, del, drop, length, Outcome, done, raised, and_then,
}
use qsa_hisparse.Slots.Defs.{Lease}
use qsa_hisparse.Prefix.Cache.{close_reader}
use qsa_hisparse.Prefix.World.{open_reader}
use qsa_hisparse.Runtime.Defs.{Runtime, lease_in, after_release}
use qsa_hisparse.Restore.Drain.{Around, is_active, drain_transfer}
use qsa_hisparse.Restore.State.{
  Transfer, Kv, State, Req, Error, of_prefix, of_runtime, release_aborted_request,
}

-- The slots behind the prefix that the row has by now; they are looked for once.
unfoldable pub suffix_of : Around → Kv → Transfer → Option (List ℕ)
suffix_of a kv t =
    let start : ℕ = elim t.prefix [ none ↦ t.previous_allocated | some prefix ↦ length prefix ] in
    elim kv.req_pool_idx [
      | none ↦ none
      | some idx ↦
          if ltb t.previous_allocated kv.kv_allocated_len
          then some (a.row idx start kv.kv_allocated_len)
          else none
    ]

unfoldable pub with_suffix : Around → Kv → Transfer → Transfer
unfolding suffix_of
with_suffix a kv t = record t {
  restore_stream = false;
  suffix = elim t.suffix [ none ↦ some (suffix_of a kv t) | some found ↦ some found ];
}

-- The slots of a record that its rollback has to give back.
abbrev pub slots_in : Option (List ℕ) → List ℕ
slots_in none = []
slots_in (some slots) = slots

abbrev pub suffix_slots : Option (Option (List ℕ)) → List ℕ
suffix_slots none = []
suffix_slots (some found) = slots_in found

-- `(-old) % page_size`: how much of the suffix lies on a page that was there before.
unfoldable pub page_rest : ℕ → ℕ → ℕ
page_rest page_size old = (page_size - old % page_size) % page_size

-- A request that had a row before: what lies on new pages is given back.
unfoldable pub rollback_extension : State → Req → Around → Transfer → Outcome Error State (Unit {0})
unfolding page_rest release_aborted_request
rollback_extension s req a t =
    let fresh_pages = drop (page_rest a.page_size t.previous_allocated) (suffix_slots t.suffix) in
    release_aborted_request
      (record s { freed = s.freed ++ fresh_pages; restoring = del req.handle s.restoring })
      req.handle

-- The allocations of the record go back, and it keeps nothing of them.
unfoldable pub free_transfer : State → Req → Transfer → State × Transfer
free_transfer s req t =
    let emptied : Transfer = record t { prefix = none; suffix = some none } in
    (
      record s {
        freed = s.freed ++ (slots_in t.prefix ++ suffix_slots t.suffix);
        restoring = put req.handle emptied s.restoring;
      },
      emptied,
    )

-- Whether the rollback is over: the release is committed, or the runtime has it in its queue.
unfoldable pub is_settled : Runtime → Option Lease → Bool
unfolding is_active lease_in
is_settled r none = true
is_settled r (some lease) = not (is_active r lease) || lease_in lease r.pending_releases

-- The `finally`: the reader and the record go once the rollback is over.
unfoldable pub settle : State → Req → Transfer → Bool → Outcome Error State (Unit {0})
settle s req t over =
    let gone : State = record s {
      matches = del req.handle s.matches;
      restoring = del req.handle s.restoring;
    } in
    if not over then done s tt else (elim t.reader [
      | none ↦ done gone tt
      | some (k, snapshot) ↦ elim (close_reader s.host (open_reader k)) [
        | raised c e ↦ raised (record s { host = c }) (of_prefix e)
        | done c r ↦ done (record gone { host = c }) tt
      ]
    ])

unfoldable pub commit_transfer : State → Req → Around → Transfer → Outcome Error State (Unit {0})
unfolding after_release is_settled settle
commit_transfer s req a t =
    let lease : Option Lease = elim t.lease [ none ↦ none | some l ↦ l ] in
    elim (after_release s.runtime lease a.free_group a.commit_logged) [
      | done r u ↦ settle (record s { runtime = r }) req t true
      | raised r e ↦ elim (settle (record s { runtime = r }) req t (is_settled r lease)) [
        | done d u ↦ raised d (of_runtime e)
        | raised d e' ↦ raised d e'
      ]
    ]

-- A request whose row was new: its lease is drained, its slots go back, and its release is committed.
unfoldable pub rollback_fresh :
    State → Req → Kv → Around → Transfer → Outcome Error State (Unit {0})
unfolding drain_transfer free_transfer commit_transfer
rollback_fresh s req kv a t =
    let known : Transfer = record t {
      req_idx = elim t.req_idx [ none ↦ some kv.req_pool_idx | some idx ↦ some idx ];
    } in
    and_then
      (drain_transfer (record s { restoring = put req.handle known s.restoring }) req a known)
      (λ d drained.
        let emptied = free_transfer d req drained in commit_transfer emptied.0 req a emptied.1)

-- One request of `rollback_prefix_for_extend`.
unfoldable pub rollback_one : State → Req → Kv → Around → Outcome Error State (Unit {0})
unfolding release_aborted_request with_suffix rollback_extension rollback_fresh
rollback_one s req kv a = elim (get req.handle s.restoring) [
  | none ↦ release_aborted_request s req.handle
  | some t ↦
      let found = with_suffix a kv t in
      let noted : State = record s { restoring = put req.handle found s.restoring } in
      if found.fresh
      then rollback_fresh noted req kv a found
      else rollback_extension noted req a found
]

-- The KV state of the request once its slots are given back.
unfoldable pub rolled_back_kv : Kv → Transfer → Kv
rolled_back_kv kv t =
    if t.fresh
    then record kv {
      kv_allocated_len = 0;
      kv_committed_len = 0;
      req_pool_idx = none;
      has_mamba = false;
      holds_kv = false;
      prefix_len = 0;
    }
    else record kv {
      kv_allocated_len = t.previous_allocated;
      kv_committed_len = t.previous_committed;
    }

unfoldable pub rollback_prefix_for_extend :
    State → List (Req × Kv × Around) → Outcome Error State (Unit {0})
unfolding rollback_one
rollback_prefix_for_extend s [] = done s tt
rollback_prefix_for_extend s ((req, kv, a) ∷ reqs) =
    and_then (rollback_one s req kv a) (λ t u. rollback_prefix_for_extend t reqs)
