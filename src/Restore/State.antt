-- ===== src/Restore/State.antt =====
-- prefix_cache.py: the state of QSAHostPrefixCache with what it works on. `matches` has the open reader
-- of a handle, and the reader of a restore is the same object; a handle stands for its request's KV
-- state; `freed` lists what the allocator was given back. `agree` says whether the ranks vote alike.
use qsa_hisparse.Prelude.{
  ℕ, String, Bool, ◌||◌, Option, none, some, List, [], ◌∷◌, if◌then◌else◌, has, Dict, get, del,
  Outcome, done, raised, and_then,
}
use qsa_hisparse.Slots.Defs.{Lease}
use qsa_hisparse.Image.Requests.{Identified, text, known, bypass}
use qsa_hisparse.Prefix.Defs.{Namespace, Snapshot, Bytes, Cache, Error as PrefixError}
use qsa_hisparse.Prefix.Cache.{close_reader, reset}
use qsa_hisparse.Prefix.World.{open_reader}
use qsa_hisparse.Runtime.Defs.{Runtime, Error as RuntimeError}

-- A record of `restoring`; `none` in `suffix`, `req_idx` and `lease` is a key that is not there.
pub record Transfer : Type 0 where
  pub reader : Option (ℕ × Snapshot)
  pub prefix : Option (List ℕ)
  pub fresh : Bool
  pub previous_allocated : ℕ
  pub previous_committed : ℕ
  pub restore_stream : Bool
  pub suffix : Option (Option (List ℕ))
  pub req_idx : Option (Option ℕ)
  pub lease : Option (Option Lease)
  pub drained : Bool

-- `req.kv`, and the length of the prefix of the request.
pub record Kv : Type 0 where
  pub kv_allocated_len : ℕ
  pub kv_committed_len : ℕ
  pub req_pool_idx : Option ℕ
  pub has_mamba : Bool
  pub holds_kv : Bool
  pub prefix_len : ℕ

pub record State : Type 0 where
  pub host : Cache
  pub matches : Dict (ℕ × Snapshot)
  pub restoring : Dict Transfer
  pub runtime : Runtime
  pub freed : List ℕ

-- A request, as the methods read it; `others` says that one of the other inputs of `_namespace` is
-- there, and `hidden_states` that it returns them.
pub record Req : Type 0 where
  pub handle : ℕ
  pub rid : String
  pub image : Identified
  pub has_multimodal : Bool
  pub others : Bool
  pub hidden_states : Bool
  pub extra_key : Option String
  pub cache_salt : Option String
  pub lora_id : Option String
  pub skip_insert : Bool
  pub tokens : Bytes

pub data Error : Type 0 where
  ranks_disagree undrained_rematch undrained_overwrite lost_owner not_admitted not_fresh : Error
  no_pages changed_identity restore_failed flush_races undrained_release : Error
  of_prefix : PrefixError → Error
  of_runtime : RuntimeError → Error

-- `_namespace`; `none` is a request whose input is not supported.
unfoldable pub namespace_of : String → Cache → Req → Option Namespace
namespace_of model host req =
    let space : Namespace = record {
      model = model;
      epoch = host.epoch;
      extra_key = req.extra_key;
      cache_salt = req.cache_salt;
      lora_id = req.lora_id;
    } in
    elim req.image [
      | bypass ↦ none
      | known i ↦ if req.others || req.hidden_states then none else some space
      | text ↦ if req.has_multimodal || (req.others || req.hidden_states) then none else some space
    ]

-- `reader.close()` of the reader of a handle, which is then no longer there.
unfoldable pub close_match : State → ℕ → Outcome Error State (Unit {0})
close_match s handle = elim (get handle s.matches) [
  | none ↦ done s tt
  | some (k, snapshot) ↦ elim (close_reader s.host (open_reader k)) [
    | raised c e ↦ raised (record s { host = c; matches = del handle s.matches }) (of_prefix e)
    | done c r ↦ done (record s { host = c; matches = del handle s.matches }) tt
  ]
]

-- `release_aborted_request`
unfoldable pub release_aborted_request : State → ℕ → Outcome Error State (Unit {0})
unfolding close_match
release_aborted_request s handle =
    if has handle s.restoring then done s tt else close_match s handle

-- `_drop_host_prefixes`: the loop over the handles, and then the reset of the host cache.
unfoldable pub release_all : List ℕ → State → Outcome Error State (Unit {0})
unfolding release_aborted_request
release_all [] s = done s tt
release_all (handle ∷ handles) s =
    and_then (release_aborted_request s handle) (λ t u. release_all handles t)

unfoldable pub keys_of : {V : Type 0} → Dict V → List ℕ
keys_of [] = []
keys_of ((k, v) ∷ m) = k ∷ keys_of m

unfoldable pub drop_host_prefixes : State → Outcome Error State (Unit {0})
unfolding release_all keys_of
drop_host_prefixes s = elim s.restoring [
  | t ∷ ts ↦ raised s flush_races
  | [] ↦
      and_then (release_all (keys_of s.matches) s)
        (λ t u. done (record t { host = reset t.host }) tt)
]
