-- ===== src/Single/State.antt =====
-- single_request.py: the state of QSAHiSparseSingleRequest and the batches that it is given. `owner` and
-- `owner_rid` stand together, since every assignment sets or clears both; the tensors `ring_loc` and
-- `compressed_len` hold one number, which is read only while the request is offloaded. The byte
-- comparisons of strict observation, the streams and the log are left out.
use qsa_hisparse.Prelude.{
  ℕ, String, Bool, true, false, ◌&&◌, ◌||◌, Option, none, some, List, [], ◌∷◌, ◌==◌, str_eq,
}
use qsa_hisparse.Single.Rows.{Rows, Tokens}

-- The buffers of one attention layer: its raw keys and values, and its part of the host slab.
pub record Layer (A : Type 0) : Type 0 where
  pub k_buffer : Rows A
  pub v_buffer : Rows A
  pub host : Rows A

-- What `make_state` keeps of a layer while its request decodes.
pub record LayerState (A : Type 0) : Type 0 where
  pub hot : Rows A
  pub tokens : Tokens
  pub generation : ℕ
  pub writeback_records : ℕ

pub record Lease : Type 0 where
  pub req : ℕ
  pub rid : String
  pub generation : ℕ

pub record Single (A : Type 0) : Type 0 where
  pub offload : Bool
  pub has_slab : Bool
  pub owner : Option (ℕ × String)
  pub seen_rids : List String
  pub failed : Bool
  pub releasing : Bool
  pub pending_release : Option Lease
  pub generation : ℕ
  pub offloaded : Bool
  pub host_claimed : Bool
  pub layers : List (Layer A)
  pub states : List (LayerState A)
  pub decode_steps : ℕ
  pub seq_len : ℕ
  pub is_decode : Bool
  pub raw_released : Bool
  pub ring_loc : ℕ
  pub compressed_len : ℕ

pub data Error : Type 0 where
  not_serving not_one_request no_request_id wrong_mode no_lease repeated_rid restore_differs : Error
  owner_changed retracted short_prompt unclaimed_handoff not_contiguous aliased incomplete_rows :
      Error
  logical_changed stale_state no_layer duplicate_release stale_release stale_commit : Error

-- `batch.forward_mode`
pub data Mode : Type 0 where
  idle extend decode other : Mode

pub record Batch : Type 0 where
  pub mode : Mode
  pub batch_size : ℕ
  pub req : ℕ
  pub rids : List String
  pub seq : ℕ

unfoldable pub is_decode_mode : Mode → Bool
is_decode_mode idle = false
is_decode_mode extend = false
is_decode_mode decode = true
is_decode_mode other = false

unfoldable pub seen : String → List String → Bool
seen rid [] = false
seen rid (r ∷ rids) = str_eq r rid || seen rid rids

unfoldable pub owned_by : Option (ℕ × String) → ℕ → String → Bool
owned_by none req rid = false
owned_by (some (o, r)) req rid = o == req && str_eq r rid

-- The state that `__init__` leaves; the slab of the host is there in the offload mode.
unfoldable pub start : {A : Type 0} → Bool → List (Layer A) → Single A
start offload layers = record {
  offload = offload;
  has_slab = offload;
  owner = none;
  seen_rids = [];
  failed = false;
  releasing = false;
  pending_release = none;
  generation = 0;
  offloaded = false;
  host_claimed = false;
  layers = layers;
  states = [];
  decode_steps = 0;
  seq_len = 0;
  is_decode = false;
  raw_released = false;
  ring_loc = 0;
  compressed_len = 0;
}
