-- ===== src/Restore/Hits.antt =====
-- prefix_cache.py: a hit from its match to its restore. What upstream's cache answers for a request
-- without a host prefix is a length of zero; the allocator and the copy of the runtime are arguments.
use qsa_hisparse.Prelude.{
  ℕ, ◌+◌, ◌-◌, ◌*◌, ◌/◌, ◌%◌, String, Bool, true, false, not, ◌&&◌, ◌||◌, Option, none, some, List,
  [], ◌∷◌, if◌then◌else◌, max, ltb, ◌==◌, is_some, has, get, put, del, Outcome, done, raised,
  and_then,
}
use qsa_hisparse.Image.Requests.{known}
use qsa_hisparse.Image.Defs.{Identity}
use qsa_hisparse.Prefix.Defs.{
  Namespace, Snapshot, snapshot_length, namespace_eq, token_count, Cache,
}
use qsa_hisparse.Prefix.Cache.{acquire, close_reader}
use qsa_hisparse.Prefix.World.{open_reader}
use qsa_hisparse.Restore.State.{
  Kv, State, Req, Error, ranks_disagree, undrained_rematch, undrained_overwrite, lost_owner,
  not_admitted, not_fresh, no_pages, changed_identity, restore_failed, undrained_release, of_prefix,
  namespace_of, release_aborted_request,
}

-- `identity_for(req)` of a request that has a namespace.
unfoldable pub identity_of : Req → Option Identity
identity_of req = elim req.image [ known i ↦ some i | other ↦ none ]

-- `match_prefix` from its acquisition on: the `host_hit_length` that it reports. A reader is closed
-- again when the ranks disagree.
unfoldable pub acquire_match : State → Req → Namespace → Bool → Outcome Error State ℕ
unfolding identity_of
acquire_match s req ns agree =
    elim (acquire s.host ns req.tokens (some (token_count req.tokens)) true (identity_of req)) [
      | raised c e ↦ raised (record s { host = c }) (of_prefix e)
      | done c none ↦
          if agree
          then done (record s { host = c }) 0
          else raised (record s { host = c }) ranks_disagree
      | done c (some (k, snapshot)) ↦
          if agree
          then done (record s { host = c; matches = put req.handle (k, snapshot) s.matches })
              (snapshot_length snapshot)
          else (elim (close_reader c (open_reader k)) [
            | raised d e ↦ raised (record s { host = d }) (of_prefix e)
            | done d r ↦ raised (record s { host = d }) ranks_disagree
          ])
    ]

-- `match_prefix`; `miss` says that the key is a bigram or that the environment forces a miss.
unfoldable pub match_prefix : String → State → Req → Bool → Bool → Outcome Error State ℕ
unfolding namespace_of release_aborted_request acquire_match
match_prefix model s req miss agree =
    if has req.handle s.restoring
    then raised s (if agree then undrained_rematch else ranks_disagree)
    else and_then (release_aborted_request s req.handle) (λ t u.
      elim (namespace_of model t.host req) [
        | none ↦ if agree then done t 0 else raised t ranks_disagree
        | some ns ↦
            if req.skip_insert || miss
            then (if agree then done t 0 else raised t ranks_disagree)
            else acquire_match t req ns agree
      ])

-- `pending_prefix_tokens`, which is also what `init_load_back` accepts.
unfoldable pub pending_prefix_tokens : State → Req → ℕ
pending_prefix_tokens s req = elim (get req.handle s.matches) [
  | none ↦ 0
  | some (k, snapshot) ↦ snapshot_length snapshot
]

-- `prefill_checkpoint_limit`, of a request with `length` tokens to fill.
unfoldable pub prefill_checkpoint_limit : String → State → Req → ℕ → ℕ → ℕ → Option ℕ
unfolding namespace_of pending_prefix_tokens
prefill_checkpoint_limit model s req length page_size prefix_len =
    let boundary = length / page_size * page_size in
    let prefix = max prefix_len (pending_prefix_tokens s req) in
    if not (is_some (namespace_of model s.host req)) || req.skip_insert
    then none
    else if length % page_size == 0
    then none
    else if ltb prefix boundary
    then some (boundary - prefix)
    else none

-- One request of `prepare_prefix_for_extend`: the record is there also when a check fails.
unfoldable pub prepare_one : State → Req → Kv → Bool → Outcome Error State (Unit {0})
prepare_one s req kv agree =
    let reader = get req.handle s.matches in
    let fresh = kv.kv_allocated_len == 0 in
    let prepared : State = record s {
      restoring =
          put req.handle
            (record {
              reader = reader;
              prefix = none;
              fresh = fresh;
              previous_allocated = kv.kv_allocated_len;
              previous_committed = kv.kv_committed_len;
              restore_stream = false;
              suffix = none;
              req_idx = none;
              lease = none;
              drained = false;
            })
            s.restoring;
    } in
    if has req.handle s.restoring
    then raised s undrained_overwrite
    else if not agree
    then raised prepared ranks_disagree
    else (elim reader [
      | none ↦
          if not kv.holds_kv && not (kv.prefix_len == 0)
          then raised prepared lost_owner
          else done prepared tt
      | some (k, snapshot) ↦
          if not (kv.prefix_len == snapshot_length snapshot)
          then raised prepared not_admitted
          else if not fresh
          then raised prepared not_fresh
          else done prepared tt
    ])

-- `prepare_prefix_for_extend`
unfoldable pub prepare_prefix_for_extend :
    State → List (Req × Kv × Bool) → Outcome Error State (Unit {0})
unfolding prepare_one
prepare_prefix_for_extend s [] = done s tt
prepare_prefix_for_extend s ((req, kv, agree) ∷ reqs) =
    and_then (prepare_one s req kv agree) (λ t u. prepare_prefix_for_extend t reqs)

-- `prefix_device_indices`; `pages` is what the allocator gives. `none` is upstream's answer.
unfoldable pub prefix_device_indices :
    State → Req → Option (List ℕ) → Outcome Error State (Option (List ℕ))
prefix_device_indices s req pages = elim (get req.handle s.restoring) [
  | none ↦ done s none
  | some t ↦ elim t.reader [
    | none ↦ done s none
    | some reader ↦ elim t.prefix [
      | some prefix ↦ done s (some prefix)
      | none ↦ elim pages [
        | none ↦ raised s no_pages
        | some prefix ↦
            done
              (record s {
                restoring = put req.handle (record t { prefix = some prefix }) s.restoring;
              })
              (some prefix)
      ]
    ]
  ]
]

-- The end of `maybe_hand_to_session` for a request with a reader.
unfoldable pub finish_restore : State → Req → ℕ → Snapshot → Outcome Error State (Unit {0})
finish_restore s req k snapshot =
    let counted : Cache = record s.host {
      reused_tokens = s.host.reused_tokens + snapshot_length snapshot;
    } in
    elim (close_reader counted (open_reader k)) [
      | raised c e ↦ raised (record s { host = c }) (of_prefix e)
      | done c r ↦
          done
            (record s {
              host = c;
              matches = del req.handle s.matches;
              restoring = del req.handle s.restoring;
            })
            tt
    ]

-- `maybe_hand_to_session`; `restored` says whether the runtime's copy returns.
unfoldable pub maybe_hand_to_session : String → State → Req → Bool → Outcome Error State (Unit {0})
unfolding namespace_of finish_restore
maybe_hand_to_session model s req restored = elim (get req.handle s.restoring) [
  | none ↦ done s tt
  | some t ↦ elim t.reader [
    | none ↦ done (record s { restoring = del req.handle s.restoring }) tt
    | some (k, snapshot) ↦
        let started : State = record s {
          restoring = put req.handle (record t { restore_stream = true }) s.restoring;
        } in
        elim (namespace_of model s.host req) [
          | none ↦ raised s changed_identity
          | some ns ↦
              if not (namespace_eq snapshot.namespace ns)
              then raised s changed_identity
              else if restored
              then finish_restore started req k snapshot
              else raised started restore_failed
        ]
  ]
]

-- `claim_kv_row`
unfoldable pub claim_kv_row : State → Req → Outcome Error State (Unit {0})
claim_kv_row s req = if has req.handle s.restoring then raised s undrained_release else done s tt
