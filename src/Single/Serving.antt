-- ===== src/Single/Serving.antt =====
-- single_request.py: the decode of a request through `begin_batch` and `after_store`, over all layers.
use qsa_hisparse.Prelude.{
  ℕ, zero, suc, ◌+◌, ◌/◌, ◌%◌, ◌<◌, ◌≡◌, String, true, false, some, List, [], ◌∷◌, length, Outcome,
  done, and_then,
}
use qsa_hisparse.Single.Rows.{Rows}
use qsa_hisparse.Single.State.{Single, Error, Batch, decode}
use qsa_hisparse.Single.Handoff.{handoff_layers}
use qsa_hisparse.Single.Batch.{Around, begin_batch}
use qsa_hisparse.Single.Decode.{Writer}
use qsa_hisparse.Single.Passes.{store_layers, LayerHolds}

-- The rows of the tokens of each layer are `k` and `v`.
module _ {A : Type 0} (blank : A) (w : Writer A) (k v : ℕ → Rows A) where
  -- A forward pass that decodes the token `seq`.
  abbrev pub decode_token :
      ℕ → String → Around blank → ℕ → Single A → Outcome Error (Single A) (Unit {0})
  decode_token req rid around seq s =
      and_then
        (begin_batch blank s
          (record { mode = decode; batch_size = 1; req = req; rids = rid ∷ []; seq = seq + 1 })
          around)
        (λ t u. store_layers w k v (length s.layers) t)

  abbrev pub decode_tokens :
      ℕ → String → Around blank → ℕ → ℕ → Single A → Outcome Error (Single A) (Unit {0})
  decode_tokens req rid around zero seq s = done s tt
  decode_tokens req rid around (suc n) seq s =
      and_then (decode_token req rid around seq s)
        (λ t u. decode_tokens req rid around n (seq + 1) t)

  -- A request that has the adapter and decodes in it.
  pub record IsServing (s : Single A) (req : ℕ) (rid : String) : Type 0 where
    pub owner : s.owner ≡ some (req, rid)
    pub sound : s.failed ≡ false
    pub held : s.releasing ≡ false
    pub offloaded : s.offloaded ≡ true

  -- Its layers hold the rows of the first `seq` tokens.
  pub record Decodes (s : Single A) (req : ℕ) (rid : String) (seq : ℕ) : Type 0 where
    pub serving : IsServing s req rid
    pub layers : (li : ℕ) → li < length s.layers → LayerHolds w k v s li seq

  abbrev batch : ℕ → String → ℕ → Batch
  batch req rid seq = record {
    mode = decode;
    batch_size = 1;
    req = req;
    rids = rid ∷ [];
    seq = seq + 1;
  }

  abbrev stepped_state : Single A → ℕ → Single A
  stepped_state s seq = record s {
    seq_len = seq + 1;
    is_decode = true;
    decode_steps = s.decode_steps + 1;
    ring_loc = 1 + seq % 4;
    compressed_len = (seq + 1) / 4;
  }

  -- A request whose prompt is prefilled, in an adapter that has its slab and can move it.
  pub record IsReady (s : Single A) (req : ℕ) (rid : String) : Type 0 where
    pub owner : s.owner ≡ some (req, rid)
    pub sound : s.failed ≡ false
    pub held : s.releasing ≡ false
    pub offload : s.offload ≡ true
    pub has_slab : s.has_slab ≡ true
    pub unclaimed : s.host_claimed ≡ false
    pub here : s.offloaded ≡ false

  -- What the forward pass that hands the prompt over has before its layers.
  abbrev handed_state : Single A → List ℕ → Single A
  handed_state s slots =
      let handed = handoff_layers blank slots (length slots / 4) s.generation s.layers in
      stepped_state
        (record s {
          host_claimed = true;
          layers = handed.0;
          states = handed.1;
          raw_released = true;
          offloaded = true;
        })
        (length slots)
