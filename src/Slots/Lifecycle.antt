-- ===== src/Slots/Lifecycle.antt =====
-- What the calls do on each branch, and the life of one lease from its grant to its return.
use qsa_hisparse.Prelude.{
  ℕ, ◌+◌, ◌≤◌, ◌<◌, String, ◌≡◌, ◌↔◌, refl, Bool, true, false, Option, none, some, List, [], ◌∷◌,
  inl, inr, ◌⊎◌, ◌≢◌, ◌==◌, if◌then◌else◌, get, get_or, put, get-put, arith, Option-cases, Outcome,
  done, raised, weigh, Dict, Ascends, length, count, List-cases, str_eq_iff, has,
}
use qsa_hisparse.Slots.Defs.{
  Slots, Lease, Event, Error, prefill, copying, host_ready, decode, releasing, failed, device_error,
  lease_eq, lease_eq_iff, require, acquire, take_slot, drain, set_phase, snapshot, raw_pool_size,
  all_sound, any_missing,
}
use qsa_hisparse.Slots.Invariant.{Inv, one}
use qsa_hisparse.Slots.Moves.{require-active}

abbrev pub returns : {A : Type 0} → Outcome Error Slots A → Bool
returns (done s a) = true
returns (raised s e) = false

-- When `acquire` is granted.
pub record IsGrantable (s : Slots) (req_pool_idx generation : ℕ) (rid : String) : Type 0 where
  pub real_slot : 0 < req_pool_idx
  pub named : rid ≢ ""
  pub absent : get req_pool_idx s.active ≡ none
  pub newer : get_or req_pool_idx s.last_generation 0 < generation
  pub idle : s.prefill_owner ≡ none
  pub room : s.free_slots ≢ []

-- `acquire` returns a lease exactly when the request is real and named, has no lease, comes with a
-- generation above every earlier one of its slot, the lane is idle, and a physical slot is free.
pub acquire_iff :
    (s : Slots) (req_pool_idx generation : ℕ) (rid : String)
    → (returns (acquire s req_pool_idx generation rid) ≡ true)
      ↔ IsGrantable s req_pool_idx generation rid
unfolding acquire take_slot
acquire_iff s r g rid = (to, from)
  where
    to : returns (acquire s r g rid) ≡ true → IsGrantable s r g rid
    to e = record {
      real_slot = ground arith;
      named = λ same. ground (arith, str_eq_iff rid "");
      absent = ground arith;
      newer = ground arith;
      idle = ground arith;
      room = λ same. ground arith;
    }

    from : IsGrantable s r g rid → returns (acquire s r g rid) ≡ true
    from h = ground (arith, str_eq_iff rid "", h.named, h.room)

Ascends-min : (b k : ℕ) (xs : List ℕ) → Ascends b xs → 0 < count k xs → b ≤ k
Ascends-min b k [] a h = absurd (omega arith)
Ascends-min b k (x ∷ xs) a h = ground (arith, Ascends-min x k xs a.1)

-- A granted lease carries what was asked for and the lowest free slot, owns the lane, and is in the
-- prefill phase.
pub acquire_grants :
    (s t : Slots) (req_pool_idx generation : ℕ) (rid : String) (l : Lease)
    → Inv s
    → acquire s req_pool_idx generation rid ≡ done t l
    → (l.req_pool_idx ≡ req_pool_idx)
      × (l.generation ≡ generation)
      × (l.rid ≡ rid)
      × (t.prefill_owner ≡ some l)
      × (require t l (prefill ∷ []) ≡ none)
      × ((k : ℕ) → 0 < count k s.free_slots → l.slot ≤ k)
unfolding acquire take_slot require
acquire_grants s t r g rid l v e = elim (List-cases s.free_slots) [
  | inl empty ↦ absurd (ground arith)
  | inr (slot, rest, full) ↦
      let taken : l ≡ record { req_pool_idx = r; generation = g; rid = rid; slot = slot } =
        ground arith in
      (
        ground arith,
        ground arith,
        ground arith,
        ground arith,
        ground (
          arith,
          get-put r l.req_pool_idx l s.active,
          get-put r l.req_pool_idx prefill s.phases,
          lease_eq_iff l l,
        ),
        λ k h. Ascends-min l.slot k s.free_slots (ground (arith, v.ascending)) h,
      )
]

pub lease_eq_self : (l : Lease) → lease_eq l l ≡ true
lease_eq_self l = (lease_eq_iff l l).1 refl

refail_lem :
    (s : Slots) (l : Lease)
    → get l.req_pool_idx s.active ≡ some l
    → require
        (set_phase (set_phase s l releasing) l failed)
        l
        (prefill ∷ copying ∷ host_ready ∷ decode ∷ failed ∷ [])
      ≡ none
unfolding require
refail_lem s l here = ground (
  arith,
  lease_eq_self l,
  get-put l.req_pool_idx l.req_pool_idx failed (put l.req_pool_idx releasing s.phases),
)

weigh-one : (m : Dict Lease) → weigh one m ≡ length m
weigh-one [] = refl
weigh-one ((k, l) ∷ m) = omega (arith, weigh-one m)

-- A drain whose synchronization fails raises, keeps the lease with its slot and, if it had it, the
-- lane, and marks it failed; no other lease is touched, and a later drain may succeed.
pub drain_failed :
    (s : Slots) (l : Lease) (terminal : Option Event) (copies : List (Option Event))
    (again : Option Event) (more : List (Option Event)) (k : ℕ)
    → require s l (prefill ∷ copying ∷ host_ready ∷ decode ∷ failed ∷ []) ≡ none
    → any_missing (terminal ∷ copies) ≡ false
    → all_sound (terminal ∷ copies) ≡ false
    → any_missing (again ∷ more) ≡ false
    → all_sound (again ∷ more) ≡ true
    → (t : Slots) × (drain s l terminal copies ≡ raised t device_error)
      × (t.active ≡ s.active)
      × (t.free_slots ≡ s.free_slots)
      × (t.prefill_owner ≡ s.prefill_owner)
      × (get k t.phases ≡ (if l.req_pool_idx == k then some failed else get k s.phases))
      × (returns (drain t l again more) ≡ true)
unfolding drain
drain_failed s l terminal copies again more k fine present unsound present' sound = (
  set_phase (set_phase s l releasing) l failed,
  ground arith,
  refl,
  refl,
  refl,
  ground (
    arith,
    get-put l.req_pool_idx k releasing s.phases,
    get-put l.req_pool_idx k failed (put l.req_pool_idx releasing s.phases),
  ),
  ground (arith, refail),
)
  where
    refail :
        require
          (set_phase (set_phase s l releasing) l failed)
          l
          (prefill ∷ copying ∷ host_ready ∷ decode ∷ failed ∷ [])
        ≡ none
    refail =
        refail_lem s l
          (require-active s l (prefill ∷ copying ∷ host_ready ∷ decode ∷ failed ∷ []) fine)

-- What `snapshot` reports adds up: leased and free slots are all the slots, the staging is available
-- as a whole or owned by the request that it names.
pub snapshot_adds_up :
    (s : Slots)
    → Inv s
    → let r = snapshot s in
      (r.lease_active + r.lease_free ≡ r.lease_capacity)
      × (r.raw_pool_size_tokens ≡ r.staging_capacity_tokens + r.ring_reserved_tokens)
      × (((r.staging_owner ≡ none) × (r.staging_available_tokens ≡ r.staging_capacity_tokens))
          ⊎ ((k : ℕ) × (r.staging_owner ≡ some k)
              × (r.staging_available_tokens ≡ 0)
              × (has k s.active ≡ true)))
unfolding snapshot raw_pool_size
snapshot_adds_up s v = elim (Option-cases s.prefill_owner) [
  | inl idle ↦
      (omega (arith, v.counted, weigh-one s.active), refl, inl (ground arith, ground arith))
  | inr (l, mine) ↦ (
    omega (arith, v.counted, weigh-one s.active),
    refl,
    inr (l.req_pool_idx, ground arith, ground arith, ground (arith, v.owned l)),
  )
]
