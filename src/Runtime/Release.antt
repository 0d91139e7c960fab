-- ===== src/Runtime/Release.antt =====
-- One release: the flush and the commit of a drained lease.
use qsa_hisparse.Prelude.{
  ℕ, ◌≡◌, ◌≢◌, ◌⊎◌, inl, inr, refl, ◌∙◌, ap, subst, Bool, true, false, none, some, List, [], ◌∷◌,
  if◌then◌else◌, get, put, del, has, done, raised, arith, get-put, get-del, Option-cases, after,
}
use qsa_hisparse.Slots.Defs.{
  Slots, Lease, Phase, prefill, copying, host_ready, decode, releasing, failed, drained,
  logical_flushed, phase_in, require, set_phase, logical_flush, commit_release,
}
use qsa_hisparse.Slots.Invariant.{Inv}
use qsa_hisparse.Slots.Moves.{require-phase, logical_flush-Inv, commit_release-Inv}
use qsa_hisparse.Runtime.Defs.{
  Runtime, log_failure, without, commit, is_drained, flush_and_commit, after_release,
}

-- A deferred release: its lease is drained, or flushed already, and the runtime has its request.
pub record IsDeferred (r : Runtime) (l : Lease) : Type 0 where
  pub in_phase : require r.slots l (drained ∷ logical_flushed ∷ []) ≡ none
  pub known : has l.req_pool_idx r.requests ≡ true

abbrev pub AllDeferred : Runtime → List Lease → Type 0
AllDeferred r [] = Unit {0}
AllDeferred r (l ∷ ls) = IsDeferred r l × AllDeferred r ls

-- What one release leaves: its lease is gone, and everything else is as it was.
pub record Releases (r d : Runtime) (l : Lease) : Type 0 where
  pub gone : get l.req_pool_idx d.slots.active ≡ none
  pub same_queue : d.pending_releases ≡ r.pending_releases
  pub others :
      (m : Lease) (ps : List Phase)
      → m.req_pool_idx ≢ l.req_pool_idx
      → require d.slots m ps ≡ require r.slots m ps
  pub other_leases : (k : ℕ) → k ≢ l.req_pool_idx → get k d.slots.active ≡ get k r.slots.active
  pub requests : (k : ℕ) → k ≢ l.req_pool_idx → get k d.requests ≡ get k r.requests
  pub kept : Inv r.slots → Inv d.slots

flushable :
    (p : Phase)
    → phase_in p (drained ∷ logical_flushed ∷ []) ≡ true
    → (p ≡ drained) ⊎ (p ≡ logical_flushed)
flushable prefill e = absurd (ground arith)
flushable copying e = absurd (ground arith)
flushable host_ready e = absurd (ground arith)
flushable decode e = absurd (ground arith)
flushable releasing e = absurd (ground arith)
flushable failed e = absurd (ground arith)
flushable drained e = inl refl
flushable logical_flushed e = inr refl

commit_lem :
    (r : Runtime) (l : Lease) (log : Bool)
    → require r.slots l (logical_flushed ∷ []) ≡ none
    → has l.req_pool_idx r.requests ≡ true
    → (d : Runtime) × (commit r l log ≡ (if log then done d tt else raised d log_failure))
      × Releases r d l
unfolding commit commit_release require
commit_lem r l log e known = elim (Option-cases (get l.req_pool_idx r.requests)) [
  | inl gone ↦ absurd (ground arith)
  | inr (state, here) ↦
      let s : Slots = after (commit_release r.slots l) in
      let d : Runtime = record r {
        slots = s;
        requests = del l.req_pool_idx r.requests;
        batch_requests = without l r.batch_requests;
      } in
      (
        d,
        ground arith,
        record {
          gone = ground (arith, get-del l.req_pool_idx l.req_pool_idx r.slots.active);
          same_queue = refl;
          others = λ m ps h. ground (
            arith,
            get-del l.req_pool_idx m.req_pool_idx r.slots.active,
            get-del l.req_pool_idx m.req_pool_idx r.slots.phases,
          );
          other_leases = λ k h. ground (arith, get-del l.req_pool_idx k r.slots.active);
          requests = λ k h. ground (arith, get-del l.req_pool_idx k r.requests);
          kept = λ v. commit_release-Inv r.slots l v;
        },
      )
]

flushed_lem :
    (s : Slots) (l : Lease)
    → require s l (drained ∷ []) ≡ none
    → (logical_flush s l false ≡ done (set_phase s l logical_flushed) tt)
      × (require (set_phase s l logical_flushed) l (logical_flushed ∷ []) ≡ none)
      × ((m : Lease) (ps : List Phase)
          → m.req_pool_idx ≢ l.req_pool_idx
          → require (set_phase s l logical_flushed) m ps ≡ require s m ps)
unfolding logical_flush require
flushed_lem s l e = (
  ground arith,
  ground (arith, get-put l.req_pool_idx l.req_pool_idx logical_flushed s.phases),
  λ m ps h.
      let same : get m.req_pool_idx (put l.req_pool_idx logical_flushed s.phases)
          ≡ get m.req_pool_idx s.phases =
        ground (arith, get-put l.req_pool_idx m.req_pool_idx logical_flushed s.phases) in
      rw same refl,
)

require-drained :
    (s : Slots) (l : Lease)
    → require s l (drained ∷ logical_flushed ∷ []) ≡ none
    → ((is_drained s l ≡ true) × (require s l (drained ∷ []) ≡ none))
      ⊎ ((is_drained s l ≡ false) × (require s l (logical_flushed ∷ []) ≡ none))
unfolding require is_drained
require-drained s l e =
    let (p, here, allowed) = require-phase s l drained (logical_flushed ∷ []) e in
    elim (flushable p allowed) [
      | inl a ↦ inl (ground arith, ground arith)
      | inr b ↦ inr (ground arith, ground arith)
    ]

pub release_one :
    (r : Runtime) (l : Lease) (log : Bool)
    → IsDeferred r l
    → (d : Runtime) × (after_release r (some l) false log
        ≡ (if log then done d tt else raised d log_failure))
      × Releases r d l
unfolding after_release flush_and_commit
release_one r l log h = elim (require-drained r.slots l h.in_phase) [
  | inr (other, flushed) ↦
      let (d, runs, rel) = commit_lem r l log flushed h.known in
      (d, rw (h.in_phase, after_release) (rw (other, flush_and_commit) runs), rel)
  | inl (waiting, in_drained) ↦
      let (flush, ready, others) = flushed_lem r.slots l in_drained in
      let r' : Runtime = record r { slots = set_phase r.slots l logical_flushed } in
      let (d, runs, rel) = commit_lem r' l log ready h.known in
      (
        d,
        rw (h.in_phase, after_release) (rw (waiting, flush_and_commit) (rw flush runs)),
        record {
          gone = rel.gone;
          same_queue = rel.same_queue;
          others = λ m ps k. rel.others m ps k ∙ others m ps k;
          other_leases = rel.other_leases;
          requests = rel.requests;
          kept = λ v. rel.kept (subst Inv (ap after flush) (logical_flush-Inv r.slots l false v));
        },
      )
]
