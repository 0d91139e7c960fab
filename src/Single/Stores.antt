-- ===== src/Single/Stores.antt =====
-- single_request.py: what the write of a complete record changes.
use qsa_hisparse.Prelude.{
  ℕ, zero, suc, ◌+◌, ◌*◌, ◌/◌, ◌%◌, ◌<◌, ◌≡◌, ◌≢◌, refl, ◌⊎◌, inl, inr, ◌&&◌, some, if◌then◌else◌,
  ◌==◌, ltb, length, get_elem?, range_from, Bool-cases, arith,
}
use qsa_hisparse.Single.Rows.{Rows, hot_blocks, write_rows, copy_record, set_token}
use qsa_hisparse.Single.State.{Layer, LayerState}
use qsa_hisparse.Single.Calls.{ring_record, store_record}
use qsa_hisparse.Single.Chunks.{write_rows_in, write_rows_before, write_rows_after}

ring_record_keys :
    {A : Type 0} (layer : Layer A) (i : ℕ)
    → i < 4
    → (get_elem? (ring_record layer) i ≡ some (layer.k_buffer (1 + i)))
      × (get_elem? (ring_record layer) (i + 4) ≡ some (layer.v_buffer (1 + i)))
unfolding ring_record range_from
ring_record_keys layer zero h = (refl, refl)
ring_record_keys layer (suc zero) h = (refl, refl)
ring_record_keys layer (suc (suc zero)) h = (refl, refl)
ring_record_keys layer (suc (suc (suc zero))) h = (refl, refl)
ring_record_keys layer (suc (suc (suc (suc i)))) h = absurd (omega arith)

length-ring_record : {A : Type 0} (layer : Layer A) → length (ring_record layer) ≡ 8
unfolding ring_record range_from
length-ring_record layer = refl

-- The place of a row in its record.
copy_record_lem :
    {A : Type 0} (m : Rows A) (dst : ℕ) (source : Rows A) (src block j : ℕ)
    → j < 8
    → copy_record m dst source src (block * 8 + j)
      ≡ (if block == dst then source (src * 8 + j) else m (block * 8 + j))
unfolding copy_record
copy_record_lem m dst source src block j h =
    let here : (block * 8 + j) / 8 ≡ block = omega arith in
    let rest : (block * 8 + j) % 8 ≡ j = omega arith in rw (here, rest) refl

-- The hot set with the ring written behind it, and the rest of it.
module _ {A : Type 0} (layer : Layer A) (hot : Rows A) (j : ℕ) (lt : j < 4) where
  hot_ring :
      (write_rows hot (hot_blocks * 8) (ring_record layer) (hot_blocks * 8 + j)
        ≡ layer.k_buffer (1 + j))
      × (write_rows hot (hot_blocks * 8) (ring_record layer) (hot_blocks * 8 + (j + 4))
          ≡ layer.v_buffer (1 + j))
  hot_ring =
      let found = ring_record_keys layer j lt in
      (
        write_rows_in hot (hot_blocks * 8) (ring_record layer) j (layer.k_buffer (1 + j)) found.0,
        write_rows_in hot (hot_blocks * 8) (ring_record layer) (j + 4) (layer.v_buffer (1 + j))
            found.1,
      )

hot_elsewhere :
    {A : Type 0} (layer : Layer A) (hot : Rows A) (slot j : ℕ)
    → j < 8
    → slot ≢ hot_blocks
    → write_rows hot (hot_blocks * 8) (ring_record layer) (slot * 8 + j) ≡ hot (slot * 8 + j)
hot_elsewhere layer hot slot j lt ne = elim (Bool-cases (ltb slot hot_blocks)) [
  | inl e ↦ write_rows_before hot (hot_blocks * 8) (ring_record layer) (slot * 8 + j) (ground arith)
  | inr e ↦
      write_rows_after hot (hot_blocks * 8) (ring_record layer) (slot * 8 + j)
        (ground (arith, length-ring_record layer))
]

-- A record that is stored is the next one on the host, and every other stays.
module _ {A : Type 0} (block : ℕ) (layer : Layer A) (state : LayerState A) where
  pub store_record_new :
      (j : ℕ)
      → j < 4
      → ((store_record block layer state).0.host (block * 8 + j) ≡ layer.k_buffer (1 + j))
        × ((store_record block layer state).0.host (block * 8 + (j + 4)) ≡ layer.v_buffer (1 + j))
  unfolding store_record
  store_record_new j lt =
      let hot = write_rows state.hot (hot_blocks * 8) (ring_record layer) in
      let held = hot_ring layer state.hot j lt in
      ground (
        arith,
        copy_record_lem layer.host block hot hot_blocks block j,
        copy_record_lem layer.host block hot hot_blocks block (j + 4),
      )

  pub store_record_old :
      (b j : ℕ)
      → j < 8
      → b ≢ block
      → (store_record block layer state).0.host (b * 8 + j) ≡ layer.host (b * 8 + j)
  unfolding store_record
  store_record_old b j lt ne = ground (
    arith,
    copy_record_lem layer.host block (write_rows state.hot (hot_blocks * 8) (ring_record layer))
        hot_blocks b j,
  )

  -- The hot set after the store, by what its slots hold.
  pub store_record_hot :
      (slot b j : ℕ)
      → (store_record block layer state).1.tokens slot ≡ some b
      → j < 8
      → ((b ≡ block)
          × ((store_record block layer state).1.hot (slot * 8 + j)
              ≡ (store_record block layer state).0.host (block * 8 + j)))
        ⊎ ((state.tokens slot ≡ some b)
            × ((store_record block layer state).1.hot (slot * 8 + j) ≡ state.hot (slot * 8 + j)))
  unfolding store_record set_token
  store_record_hot slot b j h lt =
      let hot = write_rows state.hot (hot_blocks * 8) (ring_record layer) in
      let stored = copy_record_lem layer.host block hot hot_blocks block j lt in
      let staged = copy_record_lem hot block hot hot_blocks slot j lt in
      elim (Bool-cases (slot == hot_blocks)) [
        | inl e ↦ let at : slot ≡ hot_blocks = ground arith in inl (ground arith, ground arith)
        | inr e ↦ elim (Bool-cases (ltb block hot_blocks && slot == block)) [
          | inl f ↦ inl (ground arith, ground arith)
          | inr f ↦ inr (ground arith, ground (arith, hot_elsewhere layer state.hot slot j lt))
        ]
      ]
