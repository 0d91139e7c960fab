-- ===== src/Slots/Invariant.antt =====
-- The invariant of the lease table, and that the three ways to change the table keep it: a phase
-- change, a new lease, a returned slot.
use qsa_hisparse.Prelude.{
  ℕ, ◌+◌, ◌≤◌, ◌≡◌, Bool, true, false, Option, none, some, List, [], ◌∷◌, ◌++◌, ◌≢◌, ◌⊎◌, ltb, ◌==◌,
  if◌then◌else◌, get, has, get_or, put, del, get-put, get-del, Unique, Unique-put, Unique-del,
  weigh, weigh-put_new, weigh-del, count, sort, count-sort, count-append, length, length-sort,
  length-append, Ascends, Ascends-sort, arith, ap, subst,
}
use qsa_hisparse.Slots.Defs.{Slots, Lease, Phase, prefill, copying, releasing, failed}

-- The phases in which a lease holds the prefill lane.
abbrev pub is_staged : Phase → Bool
is_staged prefill = true
is_staged copying = true
is_staged _ = false

-- The phases that the owner of the lane may be in: a drain that failed keeps the lane.
abbrev pub can_own : Phase → Bool
can_own prefill = true
can_own copying = true
can_own releasing = true
can_own failed = true
can_own _ = false

abbrev pub slot_weight : ℕ → Lease → ℕ
slot_weight n l = if l.slot == n then 1 else 0

abbrev pub one : Lease → ℕ
one l = 1

-- What holds between any two calls.
pub record Inv (s : Slots) : Type 0 where
  pub unique : Unique s.active
  pub keyed : (k : ℕ) (l : Lease) → get k s.active ≡ some l → l.req_pool_idx ≡ k
  pub same_keys : (k : ℕ) → has k s.phases ≡ has k s.active
  pub conserved :
      (n : ℕ)
      → count n s.free_slots + weigh (slot_weight n) s.active
        ≡ (if ltb n s.max_requests then 1 else 0)
  pub counted : weigh one s.active + length s.free_slots ≡ s.max_requests
  pub owned : (l : Lease) → s.prefill_owner ≡ some l → get l.req_pool_idx s.active ≡ some l
  pub staged :
      (k : ℕ) (l : Lease) (p : Phase)
      → get k s.active ≡ some l
      → get k s.phases ≡ some p
      → is_staged p ≡ true
      → s.prefill_owner ≡ some l
  pub holding :
      (l : Lease) (p : Phase)
      → s.prefill_owner ≡ some l
      → get l.req_pool_idx s.phases ≡ some p
      → can_own p ≡ true
  pub recent :
      (k : ℕ) (l : Lease) → get k s.active ≡ some l → l.generation ≤ get_or k s.last_generation 0
  pub ascending : Ascends 0 s.free_slots

module _ (s : Slots) (lease : Lease) (v : Inv s)
    (here : get lease.req_pool_idx s.active ≡ some lease) where
  -- A phase change of an active lease, which may give the lane up.
  pub rephase-Inv :
      (p : Phase) (owner : Option Lease)
      → (owner ≡ s.prefill_owner) ⊎ ((owner ≡ none) × (s.prefill_owner ≡ some lease))
      → (is_staged p ≡ true → owner ≡ some lease)
      → (owner ≡ some lease → can_own p ≡ true)
      → Inv (record s { phases = put lease.req_pool_idx p s.phases; prefill_owner = owner })
  rephase-Inv p owner kept takes fits = record {
    unique = v.unique;
    keyed = v.keyed;
    same_keys = λ k. ground (arith, get-put lease.req_pool_idx k p s.phases, v.same_keys k);
    conserved = v.conserved;
    counted = v.counted;
    owned = λ l e. ground (arith, v.owned l);
    staged = λ k l q e f g.
        ground (arith, get-put lease.req_pool_idx k p s.phases, v.staged k l q, v.keyed k l);
    holding = λ l q e f.
        ground
          (arith, get-put lease.req_pool_idx l.req_pool_idx p s.phases, v.owned l, v.holding l q);
    recent = v.recent;
    ascending = v.ascending;
  }

  -- The slot of a lease comes back.
  pub return-Inv :
      s.prefill_owner ≢ some lease
      → Inv (record s {
        active = del lease.req_pool_idx s.active;
        phases = del lease.req_pool_idx s.phases;
        free_slots = sort (s.free_slots ++ lease.slot ∷ []);
      })
  return-Inv away = record {
    unique = Unique-del lease.req_pool_idx s.active v.unique;
    keyed = λ k l e. ground (arith, get-del lease.req_pool_idx k s.active, v.keyed k l);
    same_keys = λ k. ground (
      arith,
      get-del lease.req_pool_idx k s.active,
      get-del lease.req_pool_idx k s.phases,
      v.same_keys k,
    );
    conserved = λ n. omega (
      arith,
      count-sort n (s.free_slots ++ lease.slot ∷ []),
      count-append n s.free_slots (lease.slot ∷ []),
      weigh-del (slot_weight n) lease.req_pool_idx lease s.active v.unique here,
      v.conserved n,
    );
    counted = omega (
      arith,
      length-sort (s.free_slots ++ lease.slot ∷ []),
      length-append s.free_slots (lease.slot ∷ []),
      weigh-del one lease.req_pool_idx lease s.active v.unique here,
      v.counted,
    );
    owned = λ l e. ground (arith, get-del lease.req_pool_idx l.req_pool_idx s.active, v.owned l);
    staged = λ k l p e f g. ground (
      arith,
      get-del lease.req_pool_idx k s.active,
      get-del lease.req_pool_idx k s.phases,
      v.staged k l p,
    );
    holding = λ l p e f.
        ground (arith, get-del lease.req_pool_idx l.req_pool_idx s.phases, v.holding l p);
    recent = λ k l e. ground (arith, get-del lease.req_pool_idx k s.active, v.recent k l);
    ascending = Ascends-sort (s.free_slots ++ lease.slot ∷ []);
  }

Ascends-0 : (b : ℕ) (xs : List ℕ) → Ascends b xs → Ascends 0 xs
Ascends-0 b [] a = tt
Ascends-0 b (x ∷ xs) a = (omega arith, a.1)

-- The smallest free slot goes to a new lease, which takes the idle lane.
module _ (s : Slots) (lease : Lease) (rest : List ℕ) (v : Inv s) where
  pub grant-Inv :
      get lease.req_pool_idx s.active ≡ none
      → s.free_slots ≡ lease.slot ∷ rest
      → s.prefill_owner ≡ none
      → get_or lease.req_pool_idx s.last_generation 0 ≤ lease.generation
      → Inv (record s {
        free_slots = rest;
        active = put lease.req_pool_idx lease s.active;
        last_generation = put lease.req_pool_idx lease.generation s.last_generation;
        phases = put lease.req_pool_idx prefill s.phases;
        prefill_owner = some lease;
      })
  grant-Inv absent free idle newer = record {
    unique = Unique-put lease.req_pool_idx lease s.active v.unique;
    keyed = λ k l e. ground (arith, get-put lease.req_pool_idx k lease s.active, v.keyed k l);
    same_keys = λ k. ground (
      arith,
      get-put lease.req_pool_idx k lease s.active,
      get-put lease.req_pool_idx k prefill s.phases,
      v.same_keys k,
    );
    conserved = λ n. omega (
      arith,
      weigh-put_new (slot_weight n) lease.req_pool_idx lease s.active absent,
      v.conserved n,
      ap (count n) free,
    );
    counted = omega (
      arith,
      weigh-put_new one lease.req_pool_idx lease s.active absent,
      v.counted,
      ap length free,
    );
    owned = λ l e. ground (arith, get-put lease.req_pool_idx l.req_pool_idx lease s.active);
    staged = λ k l p e f g. ground (
      arith,
      get-put lease.req_pool_idx k lease s.active,
      get-put lease.req_pool_idx k prefill s.phases,
      v.staged k l p,
    );
    holding = λ l p e f. ground (arith, get-put lease.req_pool_idx l.req_pool_idx prefill s.phases);
    recent = λ k l e. ground (
      arith,
      get-put lease.req_pool_idx k lease s.active,
      get-put lease.req_pool_idx k lease.generation s.last_generation,
      v.recent k l,
    );
    ascending = Ascends-0 lease.slot rest (subst (Ascends 0) free v.ascending).1;
  }
