-- ===== src/Single/Calls.antt =====
-- single_request.py: the write of a complete record during decode, and the release.
use qsa_hisparse.Prelude.{
  ℕ, zero, suc, ◌+◌, ◌-◌, ◌*◌, ◌/◌, ◌%◌, String, Bool, true, false, not, ◌&&◌, ◌||◌, Option, none,
  some, List, [], ◌∷◌, ◌++◌, map, if◌then◌else◌, ltb, ◌==◌, get_elem?, Outcome, done, raised,
  range_from,
}
use qsa_hisparse.Single.Rows.{hot_blocks, write_rows, copy_record, set_token}
use qsa_hisparse.Single.State.{
  Layer, LayerState, Lease, Single, Error, stale_state, no_layer, duplicate_release, stale_release,
  stale_commit, seen, owned_by,
}

-- The element at a place of a list, replaced.
unfoldable pub set_at : {B : Type 0} → List B → ℕ → B → List B
set_at [] i b = []
set_at (x ∷ xs) zero b = b ∷ xs
set_at (x ∷ xs) (suc i) b = x ∷ set_at xs i b

module _ {A : Type 0} where
  -- `hot[:1024]` and `hot[1024:]`: the four rows of the ring of each kind.
  unfoldable pub ring_record : Layer A → List A
  ring_record layer = map layer.k_buffer (range_from 1 4) ++ map layer.v_buffer (range_from 1 4)

  -- The state of a layer, and its part of the host, when the four tokens of a record are there.
  unfoldable pub store_record : ℕ → Layer A → LayerState A → Layer A × LayerState A
  unfolding write_rows copy_record set_token ring_record
  store_record block layer state =
      let hot = write_rows state.hot (hot_blocks * 8) (ring_record layer) in
      (
        record layer { host = copy_record layer.host block hot hot_blocks },
        record state {
          hot = if ltb block hot_blocks then copy_record hot block hot hot_blocks else hot;
          tokens =
              set_token
                (if ltb block hot_blocks then set_token state.tokens block block else state.tokens)
                hot_blocks block;
          writeback_records = state.writeback_records + 1;
        },
      )

  -- `after_store`
  unfoldable pub after_store : Single A → ℕ → Outcome Error (Single A) (Unit {0})
  unfolding store_record set_at
  after_store s li =
      if not s.offloaded || not (s.seq_len % 4 == 0)
      then done s tt
      else (elim (get_elem? s.states li) [
        | none ↦ raised s no_layer
        | some state ↦
            if not (state.generation == s.generation)
            then raised s stale_state
            else (elim (get_elem? s.layers li) [
              | none ↦ raised s no_layer
              | some layer ↦
                  let stored = store_record (s.seq_len / 4 - 1) layer state in
                  done
                    (record s {
                      layers = set_at s.layers li stored.0;
                      states = set_at s.states li stored.1;
                    })
                    tt
            ])
      ])

  -- `release`: the lease to be committed, if the request holds the adapter.
  unfoldable pub release : Single A → ℕ → String → Outcome Error (Single A) (Option Lease)
  unfolding seen owned_by
  release s req rid = elim s.owner [
    | none ↦ if seen rid s.seen_rids then raised s duplicate_release else done s none
    | some (o, r) ↦
        if not (owned_by (some (o, r)) req rid) || s.releasing
        then raised s stale_release
        else done
            (record s { releasing = true; states = []; host_claimed = false; offloaded = false })
            (some (record { req = o; rid = r; generation = s.generation }))
  ]

  unfoldable pub is_lease : Single A → Lease → Bool
  unfolding owned_by
  is_lease s lease = owned_by s.owner lease.req lease.rid && (lease.generation == s.generation)

  -- `after_release`; `grouped` says that the allocator collects frees in a group.
  unfoldable pub after_release :
      Single A → Option Lease → Bool → Outcome Error (Single A) (Unit {0})
  unfolding is_lease
  after_release s none grouped = done s tt
  after_release s (some lease) grouped =
      if not s.releasing || not (is_lease s lease)
      then raised s stale_commit
      else if grouped
      then done (record s { pending_release = some lease }) tt
      else done (record s { pending_release = none; owner = none; releasing = false }) tt
