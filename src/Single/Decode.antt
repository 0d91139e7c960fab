-- ===== src/Single/Decode.antt =====
-- single_request.py: the rows of a layer while its request decodes, in the ring, on the host and in the hot
-- set together. The kernel that writes the rows of a token is SGLang's, and an argument.
use qsa_hisparse.Prelude.{
  ℕ, zero, suc, ◌+◌, ◌-◌, ◌*◌, ◌/◌, ◌%◌, ◌<◌, ◌≡◌, ◌≢◌, refl, sym, ◌∙◌, ap, inl, inr, some, List,
  [], ◌∷◌, if◌then◌else◌, ◌==◌, ltb, length, get_elem?, Bool-cases, arith,
}
use qsa_hisparse.Layout.Defs.{unpack_row}
use qsa_hisparse.Single.Rows.{Rows}
use qsa_hisparse.Single.State.{Layer, LayerState}
use qsa_hisparse.Single.Calls.{store_record}
use qsa_hisparse.Single.Chunks.{HasToken}
use qsa_hisparse.Single.Stores.{store_record_new, store_record_old, store_record_hot}
use qsa_hisparse.Single.Handed.{IsHanded}

-- The write of one row, as the store kernel does it.
pub record Writer (A : Type 0) : Type 0 where
  pub put : Rows A → ℕ → A → Rows A
  pub put_here : (m : Rows A) (i : ℕ) (a : A) → put m i a i ≡ a
  pub put_elsewhere : (m : Rows A) (i : ℕ) (a : A) (j : ℕ) → j ≢ i → put m i a j ≡ m j

-- A layer and its state hold the rows of the first `seq` tokens: complete records on the host, the rest
-- in the ring, and the hot set agrees with the host.
pub record Holds {A : Type 0} (k v : Rows A) (seq : ℕ) (layer : Layer A) (state : LayerState A)
    : Type 0 where
  pub on_host : (t : ℕ) → t < seq / 4 * 4 → HasToken layer.host k v t t
  pub in_ring :
      (i : ℕ)
      → i < seq % 4
      → (layer.k_buffer (1 + i) ≡ k (seq / 4 * 4 + i))
        × (layer.v_buffer (1 + i) ≡ v (seq / 4 * 4 + i))
  pub is_hot :
      (slot block j : ℕ)
      → state.tokens slot ≡ some block
      → j < 8
      → (block < seq / 4) × (state.hot (slot * 8 + j) ≡ layer.host (block * 8 + j))

module _ {A : Type 0} (w : Writer A) (k v : Rows A) where
  -- What one decode step comes to for a layer that holds `seq` tokens; Passes derives it from the methods.
  abbrev pub token_step : ℕ → Layer A → LayerState A → Layer A × LayerState A
  token_step seq layer state =
      let written : Layer A = record layer {
        k_buffer = w.put layer.k_buffer (1 + seq % 4) (k seq);
        v_buffer = w.put layer.v_buffer (1 + seq % 4) (v seq);
      } in
      if (seq + 1) % 4 == 0
      then store_record ((seq + 1) / 4 - 1) written state
      else (written, state)

  -- The ring with the next token written.
  written_ring :
      (seq : ℕ) (layer : Layer A) (state : LayerState A) (i : ℕ)
      → Holds k v seq layer state
      → i < seq % 4 + 1
      → (w.put layer.k_buffer (1 + seq % 4) (k seq) (1 + i) ≡ k (seq / 4 * 4 + i))
        × (w.put layer.v_buffer (1 + seq % 4) (v seq) (1 + i) ≡ v (seq / 4 * 4 + i))
  written_ring seq layer state i h lt = elim (Bool-cases (i == seq % 4)) [
    | inl e ↦
        let at : 1 + i ≡ 1 + seq % 4 = ground arith in
        let token : seq / 4 * 4 + i ≡ seq = ground arith in
        rw (at, token)
          (
            w.put_here layer.k_buffer (1 + seq % 4) (k seq),
            w.put_here layer.v_buffer (1 + seq % 4) (v seq),
          )
    | inr e ↦
        let other : 1 + i ≢ 1 + seq % 4 = λ q. absurd (ground arith) in
        let held = h.in_ring i (ground arith) in
        (
          w.put_elsewhere layer.k_buffer (1 + seq % 4) (k seq) (1 + i) other ∙ held.0,
          w.put_elsewhere layer.v_buffer (1 + seq % 4) (v seq) (1 + i) other ∙ held.1,
        )
  ]

  written : ℕ → Layer A → Layer A
  written seq layer = record layer {
    k_buffer = w.put layer.k_buffer (1 + seq % 4) (k seq);
    v_buffer = w.put layer.v_buffer (1 + seq % 4) (v seq);
  }

  -- The step that completes a record.
  module _ (seq : ℕ) (layer : Layer A) (state : LayerState A) (h : Holds k v seq layer state)
      (e : (seq + 1) % 4 ≡ 0) where
    stored : Layer A × LayerState A
    stored = store_record ((seq + 1) / 4 - 1) (written seq layer) state

    stored_token : (t : ℕ) → t < (seq + 1) / 4 * 4 → HasToken stored.0.host k v t t
    unfolding stored written
    stored_token t lt = elim (Bool-cases (ltb t (seq / 4 * 4))) [
      | inl old ↦
          let block = (seq + 1) / 4 - 1 in
          let here : unpack_row t ≡ t / 4 * 8 + t % 4 = refl in
          let there : unpack_row t + 4 ≡ t / 4 * 8 + (t % 4 + 4) = omega arith in
          let other : t / 4 ≢ block = λ q. absurd (ground arith) in
          let held = h.on_host t (ground arith) in
          (
            store_record_old block (written seq layer) state (t / 4) (t % 4) (omega arith) other
                ∙ held.0,
            rw there (
                store_record_old block (written seq layer) state (t / 4) (t % 4 + 4) (omega arith)
                  other
                ∙ rw (sym there) held.1),
          )
      | inr new ↦
          let block = (seq + 1) / 4 - 1 in
          let here : unpack_row t ≡ block * 8 + t % 4 = ground arith in
          let there : unpack_row t + 4 ≡ block * 8 + (t % 4 + 4) = ground arith in
          let token : seq / 4 * 4 + t % 4 ≡ t = ground arith in
          let stored_rows =
            store_record_new block (written seq layer) state (t % 4) (omega arith) in
          let ring = written_ring seq layer state (t % 4) h (ground arith) in
          (
            rw here (stored_rows.0 ∙ (ring.0 ∙ ap k token)),
            rw there (stored_rows.1 ∙ (ring.1 ∙ ap v token)),
          )
    ]

    stored_hot :
        (slot block j : ℕ)
        → stored.1.tokens slot ≡ some block
        → j < 8
        → (block < (seq + 1) / 4) × (stored.1.hot (slot * 8 + j) ≡ stored.0.host (block * 8 + j))
    unfolding stored written store_record
    stored_hot slot b j g lt =
        let block = (seq + 1) / 4 - 1 in
        elim (store_record_hot block (written seq layer) state slot b j g lt) [
          | inl new ↦ (ground arith, ground arith)
          | inr old ↦
              let held = h.is_hot slot b j old.0 lt in
              let other : b ≢ block = λ q. absurd (ground arith) in
              (
                ground arith,
                old.1
                    ∙ (held.1
                        ∙ sym (store_record_old block (written seq layer) state b j lt other)),
              )
        ]

  pub token_step-Holds :
      (seq : ℕ) (layer : Layer A) (state : LayerState A)
      → Holds k v seq layer state
      → Holds k v (seq + 1) (token_step seq layer state).0 (token_step seq layer state).1
  unfolding stored written
  token_step-Holds seq layer state h = elim (Bool-cases ((seq + 1) % 4 == 0)) [
    | inl e ↦ rw e (record {
      on_host = stored_token seq layer state h (ground arith);
      in_ring = λ i lt. absurd (ground arith);
      is_hot = stored_hot seq layer state h (ground arith);
    })
    | inr e ↦
        let same : (seq + 1) / 4 ≡ seq / 4 = ground arith in
        rw e (record {
          on_host = λ t lt. h.on_host t (ground arith);
          in_ring = λ i lt. rw same (written_ring seq layer state i h (ground arith));
          is_hot = λ slot block j g lt. rw same (h.is_hot slot block j g lt);
        })
  ]

  get_elem?-some : (xs : List ℕ) (i : ℕ) → i < length xs → (p : ℕ) × (get_elem? xs i ≡ some p)
  get_elem?-some [] i h = absurd (omega arith)
  get_elem?-some (x ∷ xs) zero h = (x, refl)
  get_elem?-some (x ∷ xs) (suc i) h = get_elem?-some xs i (omega arith)

  -- The prompt's tokens are the rows at its slots.
  pub handed-Holds :
      (slots : List ℕ) (generation : ℕ) (before after : Layer A) (state : LayerState A)
      → ((t p : ℕ)
          → get_elem? slots t ≡ some p
          → (before.k_buffer p ≡ k t) × (before.v_buffer p ≡ v t))
      → IsHanded slots generation before after state
      → Holds k v (length slots) after state
  handed-Holds slots generation before after state prompt h = record {
    on_host = λ t lt.
        let (p, e) = get_elem?-some slots t (omega arith) in
        let rows = h.on_host t p lt e in (rows.0 ∙ (prompt t p e).0, rows.1 ∙ (prompt t p e).1);
    in_ring = λ i lt.
        let (p, e) = get_elem?-some slots (length slots / 4 * 4 + i) (omega arith) in
        let rows = h.in_ring i p e in
        (
          rows.0 ∙ (prompt (length slots / 4 * 4 + i) p e).0,
          rows.1 ∙ (prompt (length slots / 4 * 4 + i) p e).1,
        );
    is_hot = λ slot block j e lt. h.is_hot slot block j e lt;
  }
