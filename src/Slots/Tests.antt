-- ===== src/Slots/Tests.antt =====
-- Concrete runs of the lease table, and the theorems of slots.py at them.
use qsa_hisparse.Prelude.{
  ◌+◌, ◌≤◌, ◌≡◌, refl, true, false, none, some, List, [], ◌∷◌, ◌++◌, ◌⊎◌, get, put, del, arith,
  done, range_from, sort, insert_sorted, str_eq,
}
use qsa_hisparse.Slots.Defs.{
  Slots, Lease, Event, prefill, decode, logical_flushed, stale_lease, lease_eq, require,
  check_phase, init, acquire, take_slot, begin_handoff, finish_handoff, admit_decode, drain,
  logical_flush, commit_release, raw_pool_size, all_sound, any_missing, ring_slice, ring_start,
}
use qsa_hisparse.Slots.Invariant.{Inv}
use qsa_hisparse.Slots.Runs.{
  Call, acquires, begins, finishes, admits, drains, flushes, step, run, init-Inv, run-init-Inv,
}
use qsa_hisparse.Slots.Stale.{require-released}
use qsa_hisparse.Slots.Geometry.{ring_slices_apart}
use qsa_hisparse.Slots.Lifecycle.{IsGrantable, acquire_iff}
use qsa_hisparse.Slots.Service.{serve, serve_restores}

-- Two requests on a lane of one page.
abbrev lanes : Slots
lanes = record {
  staging_tokens = 64;
  page_size = 64;
  max_requests = 2;
  active = [];
  phases = [];
  last_generation = [];
  free_slots = 0 ∷ 1 ∷ [];
  prefill_owner = none;
}

abbrev alice : Lease
alice = record { req_pool_idx = 1; generation = 1; rid = "a"; slot = 0 }

abbrev bob : Lease
bob = record { req_pool_idx = 2; generation = 1; rid = "b"; slot = 1 }

abbrev copied : Event
copied = record { ready = true; sound = true }

-- Until alice decodes, and then bob's prefill.
abbrev to_decode : List Call
to_decode = acquires 1 1 "a" ∷ begins alice ∷ finishes alice (some copied) ∷ admits alice ∷ []

abbrev to_prefill : List Call
to_prefill = to_decode ++ acquires 2 1 "b" ∷ []

abbrev to_flushed : List Call
to_flushed = to_decode ++ drains alice (some copied) [] ∷ flushes alice false ∷ []

abbrev taken : Slots
taken = record lanes {
  active = (1, alice) ∷ [];
  phases = (1, prefill) ∷ [];
  last_generation = (1, 1) ∷ [];
  free_slots = 1 ∷ [];
  prefill_owner = some alice;
}

abbrev decoding : Slots
decoding = record taken { phases = (1, decode) ∷ []; prefill_owner = none }

abbrev flushed : Slots
flushed = record taken { phases = (1, logical_flushed) ∷ []; prefill_owner = none }

abbrev returned : Slots
returned = record lanes { last_generation = (1, 1) ∷ [] }

abbrev prefilling : Slots
prefilling = record lanes {
  active = (1, alice) ∷ (2, bob) ∷ [];
  phases = (1, decode) ∷ (2, prefill) ∷ [];
  last_generation = (1, 1) ∷ (2, 1) ∷ [];
  free_slots = [];
  prefill_owner = some bob;
}

lanes-init : init 64 64 2 ≡ some lanes
unfolding init range_from
lanes-init = refl

flushed-Inv : Inv flushed
unfolding run step acquire take_slot begin_handoff finish_handoff admit_decode drain logical_flush
    commit_release require check_phase lease_eq any_missing all_sound get put del str_eq
flushed-Inv = run-init-Inv 64 64 2 to_flushed lanes-init

prefilling-Inv : Inv prefilling
unfolding run step acquire take_slot begin_handoff finish_handoff admit_decode drain logical_flush
    commit_release require check_phase lease_eq any_missing all_sound get put del str_eq
prefilling-Inv = run-init-Inv 64 64 2 to_prefill lanes-init

lanes-Inv : Inv lanes
lanes-Inv = init-Inv 64 64 2 lanes-init

alice-IsGrantable : IsGrantable lanes 1 1 "a"
unfolding require check_phase lease_eq get put del str_eq acquire take_slot
alice-IsGrantable = (acquire_iff lanes 1 1 "a").0 refl

alice_ring : ring_slice prefilling alice ≡ done prefilling (128, 133)
unfolding require check_phase lease_eq get put del str_eq ring_slice ring_start
alice_ring = refl

bob_ring : ring_slice prefilling bob ≡ done prefilling (133, 138)
unfolding require check_phase lease_eq get put del str_eq ring_slice ring_start
bob_ring = refl

alice_released : commit_release flushed alice ≡ done returned tt
unfolding require check_phase lease_eq get put del str_eq commit_release sort insert_sorted
alice_released = refl

again_there : any_missing (some copied ∷ []) ≡ false
unfolding any_missing
again_there = refl

again_sound : all_sound (some copied ∷ []) ≡ true
unfolding all_sound
again_sound = refl

run-init-Inv_example : Inv (run lanes to_flushed)
run-init-Inv_example = run-init-Inv 64 64 2 to_flushed lanes-init

require-released_example :
    require (run returned (acquires 1 2 "a" ∷ [])) alice (prefill ∷ []) ≡ some stale_lease
require-released_example =
    require-released flushed returned alice (acquires 1 2 "a" ∷ []) (prefill ∷ []) flushed-Inv
      alice_released

ring_slices_apart_example :
    ((133 ≤ 133) ⊎ (138 ≤ 128))
    × (prefilling.page_size + prefilling.staging_tokens ≤ 128)
    × (133 ≤ prefilling.page_size + raw_pool_size prefilling)
ring_slices_apart_example =
    ring_slices_apart prefilling prefilling prefilling alice bob 128 133 133 138 prefilling-Inv
      alice_ring bob_ring (λ e. absurd (omega arith))

serve_restores_example :
    (l : Lease) × (serve lanes 1 1 "a" copied (some copied) []
      ≡ done (record lanes { last_generation = put 1 1 lanes.last_generation }) l)
serve_restores_example =
    serve_restores lanes 1 1 "a" copied (some copied) [] lanes-Inv alice-IsGrantable refl
      again_there again_sound
