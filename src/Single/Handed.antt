-- ===== src/Single/Handed.antt =====
-- single_request.py: what a handoff leaves on the host and in the rings.
use qsa_hisparse.Prelude.{
  ℕ, ◌+◌, ◌*◌, ◌/◌, ◌%◌, ◌<◌, ◌≤◌, ◌≡◌, refl, ◌∙◌, some, List, length, drop, get_elem?, arith,
}
use qsa_hisparse.Single.Rows.{
  Rows, gather, ring_rows, stage_hot, stage_tokens, copy_record, set_token,
}
use qsa_hisparse.Single.State.{Layer, LayerState}
use qsa_hisparse.Single.Handoff.{make_state, staged_state, handoff_layer}
use qsa_hisparse.Single.Chunks.{
  HasToken, copy_chunks-IsCopied, get_elem?-gather, get_elem?-drop, write_rows_in,
}

-- What a layer holds once the prompt of `slots` is handed over: the rows of its complete records on the
-- host, the pending ones in the ring, and in the hot set the records that it says it holds.
pub record IsHanded {A : Type 0} (slots : List ℕ) (generation : ℕ) (before after : Layer A)
    (state : LayerState A) : Type 0 where
  pub on_host :
      (t p : ℕ)
      → t < length slots / 4 * 4
      → get_elem? slots t ≡ some p
      → HasToken after.host before.k_buffer before.v_buffer t p
  pub in_ring :
      (i p : ℕ)
      → get_elem? slots (length slots / 4 * 4 + i) ≡ some p
      → (after.k_buffer (1 + i) ≡ before.k_buffer p) × (after.v_buffer (1 + i) ≡ before.v_buffer p)
  pub beyond : (r : ℕ) → length slots / 4 * 8 ≤ r → after.host r ≡ before.host r
  pub is_hot :
      (slot block j : ℕ)
      → state.tokens slot ≡ some block
      → j < 8
      → (block < length slots / 4) × (state.hot (slot * 8 + j) ≡ after.host (block * 8 + j))
  pub current : state.generation ≡ generation

ring_rows_lem :
    {A : Type 0} (blank : A) (m : Rows A) (n i p : ℕ) (slots : List ℕ)
    → get_elem? slots (n + i) ≡ some p
    → ring_rows blank m (drop n slots) (1 + i) ≡ m p
unfolding ring_rows
ring_rows_lem blank m n i p slots h =
    write_rows_in (λ j. blank) 1 (gather m (drop n slots)) i (m p)
      (get_elem?-gather m (drop n slots) i p (get_elem?-drop n i slots ∙ h))

staged_state-is_hot :
    {A : Type 0} (blank : A) (generation blocks : ℕ) (host : Rows A) (slot block j : ℕ)
    → (staged_state blank generation blocks host).tokens slot ≡ some block
    → j < 8
    → 0 < blocks
    → (block < blocks)
      × ((staged_state blank generation blocks host).hot (slot * 8 + j) ≡ host (block * 8 + j))
unfolding staged_state make_state stage_hot stage_tokens copy_record set_token
staged_state-is_hot blank generation blocks host slot block j h lt pos =
    let here : (slot * 8 + j) / 8 ≡ slot = omega arith in
    let rest : (slot * 8 + j) % 8 ≡ j = omega arith in
    (ground arith, rw (here, rest) (ground arith))

staged_state-generation :
    {A : Type 0} (blank : A) (generation blocks : ℕ) (host : Rows A)
    → (staged_state blank generation blocks host).generation ≡ generation
unfolding staged_state make_state
staged_state-generation blank generation blocks host = refl

-- Handing a layer over never fails, and leaves every token of the prompt where decode looks for it:
-- complete records on the host, the pending tokens in the ring, and the hot set in agreement with the
-- host wherever it claims to hold a record.
pub handoff_layer-IsHanded :
    {A : Type 0} (blank : A) (slots : List ℕ) (generation : ℕ) (layer : Layer A)
    → 4 ≤ length slots
    → (after : Layer A) × (state : LayerState A) × (handoff_layer blank slots
          (length slots / 4)
          generation
          layer
        ≡ some (after, state))
      × IsHanded slots generation layer after state
unfolding handoff_layer
handoff_layer-IsHanded blank slots generation layer enough =
    let blocks = length slots / 4 in
    let (host, run, copied) =
      copy_chunks-IsCopied layer.k_buffer layer.v_buffer slots (blocks * 4) (blocks * 4) 0
        layer.host refl (omega arith) (omega arith) (omega arith) in
    (
      record {
        k_buffer = ring_rows blank layer.k_buffer (drop (blocks * 4) slots);
        v_buffer = ring_rows blank layer.v_buffer (drop (blocks * 4) slots);
        host = host;
      },
      staged_state blank generation blocks host,
      rw (run, handoff_layer) refl,
      record {
        on_host = λ t p lt h. copied.tokens t p (omega arith) lt h;
        in_ring = λ i p h. (
          ring_rows_lem blank layer.k_buffer (blocks * 4) i p slots h,
          ring_rows_lem blank layer.v_buffer (blocks * 4) i p slots h,
        );
        beyond = λ r h. copied.beyond r (omega arith) (omega arith);
        is_hot = λ slot block j h lt.
            staged_state-is_hot blank generation blocks host slot block j h lt (omega arith);
        current = staged_state-generation blank generation blocks host;
      },
    )
