-- ===== src/Single/Handoff.antt =====
-- single_request.py: the handoff of a prompt. What the allocator answers is an argument.
use qsa_hisparse.Prelude.{
  ℕ, zero, suc, ◌+◌, ◌-◌, ◌*◌, ◌/◌, Bool, true, false, not, ◌&&◌, ◌||◌, Option, none, some, List,
  [], ◌∷◌, if◌then◌else◌, ◌==◌, is_some, drop, Outcome, done, raised,
}
use qsa_hisparse.Single.Rows.{
  Rows, hot_blocks, copy_record, copy_chunks, ring_rows, stage_hot, stage_tokens, set_token,
}
use qsa_hisparse.Single.State.{
  Layer, LayerState, Single, Error, unclaimed_handoff, not_contiguous, aliased, incomplete_rows,
  logical_changed,
}

-- The slots of the prompt in whole groups of four, each contiguous.
unfoldable pub contiguous : ℕ → List ℕ → Bool
contiguous zero slots = true
contiguous (suc blocks) (a ∷ b ∷ c ∷ d ∷ slots) =
    (b == a + 1) && ((c == a + 2) && ((d == a + 3) && contiguous blocks slots))
contiguous (suc blocks) slots = false

unfoldable pub mem : ℕ → List ℕ → Bool
mem n [] = false
mem n (x ∷ xs) = x == n || mem n xs

-- `len(torch.unique(slots)) == prompt_len`
unfoldable pub distinct : List ℕ → Bool
unfolding mem
distinct [] = true
distinct (x ∷ xs) = not (mem x xs) && distinct xs

module _ {A : Type 0} (blank : A) where
  -- `make_state`
  unfoldable pub make_state : ℕ → LayerState A
  make_state generation = record {
    hot = λ i. blank;
    tokens = λ i. none;
    generation = generation;
    writeback_records = 0;
  }

  -- The state of a layer whose prompt is on the host.
  unfoldable pub staged_state : ℕ → ℕ → Rows A → LayerState A
  unfolding make_state stage_hot stage_tokens copy_record set_token
  staged_state generation blocks host =
      let fresh = make_state generation in
      record fresh {
        hot = copy_record (stage_hot blocks fresh.hot host) hot_blocks host (blocks - 1);
        tokens = set_token (stage_tokens blocks fresh.tokens) hot_blocks (blocks - 1);
      }

  -- One layer of the loop of `handoff`: its buffers become a ring, and its state is staged.
  unfoldable pub handoff_layer : List ℕ → ℕ → ℕ → Layer A → Option (Layer A × LayerState A)
  unfolding copy_chunks staged_state ring_rows
  handoff_layer slots blocks generation layer =
      elim (copy_chunks (blocks * 4) 0 (blocks * 4) layer.k_buffer layer.v_buffer slots
        layer.host) [
          | none ↦ none
          | some host ↦ some (
            record {
              k_buffer = ring_rows blank layer.k_buffer (drop (blocks * 4) slots);
              v_buffer = ring_rows blank layer.v_buffer (drop (blocks * 4) slots);
              host = host;
            },
            staged_state generation blocks host,
          )
        ]

  -- The loop over the layers: those handed over so far, and whether one raised.
  unfoldable pub handoff_layers :
      List ℕ → ℕ → ℕ → List (Layer A) → List (Layer A) × List (LayerState A) × Bool
  unfolding handoff_layer
  handoff_layers slots blocks generation [] = ([], [], true)
  handoff_layers slots blocks generation (layer ∷ layers) =
      let rest = handoff_layers slots blocks generation layers in
      elim (handoff_layer slots blocks generation layer) [
        | none ↦ (layer ∷ layers, [], false)
        | some handed ↦ (handed.0 ∷ rest.0, handed.1 ∷ rest.1, rest.2)
      ]

  -- `handoff`; `slots` is the row of the request up to `prompt_len`, and `logical_kept` says that the
  -- allocator has as many free slots after it as before.
  unfoldable pub handoff : Single A → ℕ → List ℕ → Bool → Outcome Error (Single A) (Unit {0})
  unfolding handoff_layers contiguous distinct
  handoff s prompt_len slots logical_kept =
      let blocks = prompt_len / 4 in
      let claimed : Single A = record s { host_claimed = true } in
      let handed = handoff_layers slots blocks s.generation s.layers in
      if not s.offload
        || (not (is_some s.owner)
            || (s.failed || (s.releasing || (s.host_claimed || not s.has_slab))))
      then raised s unclaimed_handoff
      else if not (contiguous blocks slots)
      then raised claimed not_contiguous
      else if not (distinct slots)
      then raised claimed aliased
      else if not handed.2
      then raised (record claimed { layers = handed.0; states = handed.1 }) incomplete_rows
      else let moved : Single A = record claimed {
        layers = handed.0;
        states = handed.1;
        raw_released = true;
        offloaded = true;
      } in
        if logical_kept then done moved tt else raised moved logical_changed
