-- ===== src/Single/Batch.antt =====
-- single_request.py: `begin_batch`. What the pool and the allocator answer is an argument.
use qsa_hisparse.Prelude.{
  ℕ, ◌+◌, ◌-◌, ◌/◌, ◌%◌, String, Bool, true, false, not, ◌&&◌, ◌||◌, some, List, [], ◌∷◌, map,
  if◌then◌else◌, ltb, ◌==◌, is_some, length, Outcome, done, raised, and_then,
}
use qsa_hisparse.Single.State.{
  Layer, Single, Error, not_serving, not_one_request, no_request_id, wrong_mode, no_lease,
  repeated_rid, restore_differs, owner_changed, retracted, short_prompt, idle, other, Batch,
  is_decode_mode, seen, owned_by,
}
use qsa_hisparse.Single.Handoff.{handoff}

module _ {A : Type 0} (blank : A) where
  -- What `begin_batch` asks the pool and the allocator for.
  pub record Around : Type 0 where
    pub restore : Layer A → Layer A
    pub restored_alike : Bool
    pub row : ℕ → List ℕ
    pub logical_kept : Bool

  -- A new request takes the adapter, and the raw buffers come back if the last one had given them up.
  unfoldable pub claim : Single A → ℕ → String → ℕ → Around → Outcome Error (Single A) (Unit {0})
  unfolding seen
  claim s req rid seq around =
      let owned : Single A = record s {
        seen_rids = rid ∷ s.seen_rids;
        owner = some (req, rid);
        seq_len = seq;
        generation = s.generation + 1;
        decode_steps = 0;
      } in
      if seen rid s.seen_rids
      then raised s repeated_rid
      else if not s.raw_released
      then done owned tt
      else let restored : Single A = record owned { layers = map around.restore s.layers } in
        if around.restored_alike
        then done (record restored { raw_released = false }) tt
        else raised restored restore_differs

  -- A decode step after its checks: the first one hands the prompt over.
  unfoldable pub decode_step : Single A → ℕ → Around → Outcome Error (Single A) (Unit {0})
  unfolding handoff
  decode_step s seq around =
      let stepped : Single A → Single A = λ t. record t {
        decode_steps = t.decode_steps + 1;
        ring_loc = if t.offloaded then 1 + (seq - 1) % 4 else t.ring_loc;
        compressed_len = if t.offloaded then seq / 4 else t.compressed_len;
      } in
      if ltb (seq - 1) 2048
      then raised s short_prompt
      else if s.offload && not s.offloaded
      then (elim (handoff blank s (seq - 1) (around.row (seq - 1)) around.logical_kept) [
        | done t u ↦ done (stepped t) tt
        | raised t e ↦ raised (record t { failed = true }) e
      ])
      else done (stepped s) tt

  -- `begin_batch` from its check of the owner on.
  unfoldable pub serve_batch :
      Single A → Batch → String → Around → Outcome Error (Single A) (Unit {0})
  unfolding decode_step owned_by is_decode_mode
  serve_batch s b rid around =
      let step : Single A = record s { seq_len = b.seq; is_decode = is_decode_mode b.mode } in
      if not (owned_by s.owner b.req rid)
      then raised s owner_changed
      else if s.offloaded && not (is_decode_mode b.mode)
      then raised s retracted
      else if is_decode_mode b.mode
      then decode_step step b.seq around
      else done step tt

  -- `begin_batch` of a request: the owner is the one before, or the request itself.
  unfoldable pub own_batch :
      Single A → Batch → String → Around → Outcome Error (Single A) (Unit {0})
  unfolding claim serve_batch is_decode_mode
  own_batch s b rid around =
      if is_some s.owner
      then serve_batch s b rid around
      else if is_decode_mode b.mode
      then raised s no_lease
      else and_then (claim s b.req rid b.seq around) (λ t u. serve_batch t b rid around)

  -- `begin_batch`
  unfoldable pub begin_batch : Single A → Batch → Around → Outcome Error (Single A) (Unit {0})
  unfolding own_batch
  begin_batch s b around = if s.failed || s.releasing then raised s not_serving else (elim b.mode [
    | idle ↦ done s tt
    | mode ↦ if not (b.batch_size == 1) then raised s not_one_request else (elim b.rids [
      | [] ↦ raised s no_request_id
      | rid ∷ rids ↦
          if not (length rids == 0)
          then raised s no_request_id
          else (elim mode [ other ↦ raised s wrong_mode | plain ↦ own_batch s b rid around ])
    ])
  ])
