-- ===== src/Slots/Geometry.antt =====
-- Where the leases keep their bytes: the prefill lane and the rings never overlap.
use qsa_hisparse.Prelude.{
  ℕ, ◌+◌, ◌-◌, ◌*◌, ◌%◌, ◌≤◌, ◌<◌, ◌≡◌, ◌↔◌, some, [], ◌∷◌, inl, inr, ◌⊎◌, ◌≢◌, ◌==◌, get, arith,
  Option-cases, done, weigh, Dict, Bool-cases,
}
use qsa_hisparse.Slots.Defs.{
  Slots, Lease, prefill, copying, host_ready, decode, require, staging_slice, ring_slice,
  ring_start, ring_write_location, raw_pool_size,
}
use qsa_hisparse.Slots.Invariant.{Inv, slot_weight}
use qsa_hisparse.Slots.Moves.{require-active, is_lease-some}

weigh-ge_of_get :
    (f : Lease → ℕ) (k : ℕ) (l : Lease) (m : Dict Lease) → get k m ≡ some l → f l ≤ weigh f m
unfolding get
weigh-ge_of_get f k l [] e = absurd (ground arith)
weigh-ge_of_get f k l ((j, a) ∷ m) e = ground (arith, weigh-ge_of_get f k l m)

weigh-ge_of_two :
    (f : Lease → ℕ) (j k : ℕ) (a b : Lease) (m : Dict Lease)
    → get j m ≡ some a
    → get k m ≡ some b
    → j ≢ k
    → f a + f b ≤ weigh f m
unfolding get
weigh-ge_of_two f j k a b [] e g h = absurd (ground arith)
weigh-ge_of_two f j k a b ((i, c) ∷ m) e g h =
    ground (arith, weigh-ge_of_two f j k a b m, weigh-ge_of_get f j a m, weigh-ge_of_get f k b m)

-- A lease in force has a slot below the bound, and shares it with no other.
pub slot-lt :
    (s : Slots) (l : Lease) → Inv s → get l.req_pool_idx s.active ≡ some l → l.slot < s.max_requests
slot-lt s l v e =
    ground
      (arith, v.conserved l.slot, weigh-ge_of_get (slot_weight l.slot) l.req_pool_idx l s.active e)

pub slot-ne :
    (s : Slots) (a b : Lease)
    → Inv s
    → get a.req_pool_idx s.active ≡ some a
    → get b.req_pool_idx s.active ≡ some b
    → a.req_pool_idx ≢ b.req_pool_idx
    → a.slot ≢ b.slot
slot-ne s a b v e f h same = ground (
  arith,
  v.conserved a.slot,
  weigh-ge_of_two (slot_weight a.slot) a.req_pool_idx b.req_pool_idx a b s.active e f h,
)

ring_slice_lem :
    (s t : Slots) (l : Lease) (i j : ℕ)
    → ring_slice s l ≡ done t (i, j)
    → (get l.req_pool_idx s.active ≡ some l)
      × (i ≡ s.page_size + s.staging_tokens + 5 * l.slot)
      × (j ≡ i + 5)
unfolding ring_slice ring_start
ring_slice_lem s t l i j e =
    elim (Option-cases (require s l (prefill ∷ copying ∷ host_ready ∷ decode ∷ []))) [
      | inr (x, bad) ↦ absurd (ground arith)
      | inl fine ↦ (
        require-active s l (prefill ∷ copying ∷ host_ready ∷ decode ∷ []) fine,
        ground arith,
        ground arith,
      )
    ]

staging_slice_lem :
    (s t : Slots) (l : Lease) (start stop i j : ℕ)
    → staging_slice s l start stop ≡ done t (i, j)
    → (s.prefill_owner ≡ some l)
      × (i ≡ s.page_size + start)
      × (j ≡ s.page_size + stop)
      × (start ≤ stop)
      × (stop ≤ s.staging_tokens)
unfolding staging_slice
staging_slice_lem s t l start stop i j e = ground (arith, is_lease-some s.prefill_owner l)

-- Two requests never hold the same ring bytes, and every ring lies above the lane and inside the
-- backing of `raw_pool_size` tokens behind its one page of padding.
pub ring_slices_apart :
    (s t u : Slots) (a b : Lease) (i j k n : ℕ)
    → Inv s
    → ring_slice s a ≡ done t (i, j)
    → ring_slice s b ≡ done u (k, n)
    → a.req_pool_idx ≢ b.req_pool_idx
    → ((j ≤ k) ⊎ (n ≤ i))
      × (s.page_size + s.staging_tokens ≤ i)
      × (j ≤ s.page_size + raw_pool_size s)
unfolding raw_pool_size
ring_slices_apart s t u a b i j k n v e f h =
    let (ha, ia, ja) = ring_slice_lem s t a i j e in
    let (hb, kb, nb) = ring_slice_lem s u b k n f in
    ground (arith, slot-ne s a b v ha hb h, slot-lt s a v ha)

-- Only one lease can get at the lane, and the bytes that it gets are whole positions of the lane,
-- below every ring.
pub staging_slice_sole :
    (s t u : Slots) (a b : Lease) (start stop start' stop' i j k n : ℕ)
    → staging_slice s a start stop ≡ done t (i, j)
    → staging_slice s b start' stop' ≡ done u (k, n)
    → (a ≡ b) × (s.page_size ≤ i) × (i ≤ j) × (j ≤ s.page_size + s.staging_tokens)
staging_slice_sole s t u a b start stop start' stop' i j k n e f =
    ground
      (arith, staging_slice_lem s t a start stop i j e, staging_slice_lem s u b start' stop' k n f)

ring_write_lem :
    (s t : Slots) (l : Lease) (n i : ℕ)
    → ring_write_location s l n ≡ done t i
    → (get l.req_pool_idx s.active ≡ some l)
      × (i ≡ s.page_size + s.staging_tokens + 5 * l.slot + 1 + (n - 1) % 4)
      × (1 ≤ n)
      × (n ≤ s.staging_tokens)
unfolding ring_write_location ring_start
ring_write_lem s t l n i e = elim (Option-cases (require s l (decode ∷ []))) [
  | inr (x, bad) ↦ absurd (ground arith)
  | inl fine ↦ (require-active s l (decode ∷ []) fine, ground arith, ground arith, ground arith)
]

-- A decode write lands on a member row of the lease's own ring, never on its padding row; two writes
-- of one state at lengths `n` and `m`, by one lease or by two, hit one location exactly when the
-- leases are one and the lengths agree modulo 4.
pub ring_write_location_apart :
    (s t u : Slots) (a b : Lease) (n m i k : ℕ)
    → Inv s
    → ring_write_location s a n ≡ done t i
    → ring_write_location s b m ≡ done u k
    → (ring_start s a < i) × (i < ring_start s a + 5) × ((i ≡ k) ↔ ((a ≡ b) × (n % 4 ≡ m % 4)))
unfolding ring_start
ring_write_location_apart s t u a b n m i k v e f =
    let (ha, ia, na, _) = ring_write_lem s t a n i e in
    let (hb, kb, mb, _) = ring_write_lem s u b m k f in
    (
      omega arith,
      omega arith,
      (
        (λ same. elim (Bool-cases (a.req_pool_idx == b.req_pool_idx)) [
          | inl here ↦ (ground arith, ground arith)
          | inr away ↦ absurd (ground (arith, slot-ne s a b v ha hb))
        ]),
        (λ (both : (a ≡ b) × (n % 4 ≡ m % 4)). ground arith),
      ),
    )
