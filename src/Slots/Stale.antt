-- ===== src/Slots/Stale.antt =====
-- A lease that was given back is never honoured again, whatever happens afterwards.
use qsa_hisparse.Prelude.{
  ℕ, ◌≤◌, String, ◌≡◌, Bool, false, Option, some, List, [], ◌∷◌, inl, inr, ◌≢◌, leb, get, get_or,
  get-put, get-del, arith, Option-cases, after, done,
}
use qsa_hisparse.Slots.Defs.{
  Slots, Lease, Phase, Event, stale_lease, lease_eq_iff, require, acquire, take_slot, begin_handoff,
  finish_handoff, admit_decode, drain, logical_flush, commit_release, mark_failed,
}
use qsa_hisparse.Slots.Invariant.{Inv}
use qsa_hisparse.Slots.Moves.{require-active}
use qsa_hisparse.Slots.Runs.{
  Call, acquires, begins, finishes, admits, drains, flushes, commits, fails, step, run,
}

-- The lease is not in force, and its generation is used up.
pub record Gone (s : Slots) (l : Lease) : Type 0 where
  pub absent : get l.req_pool_idx s.active ≢ some l
  pub spent : l.generation ≤ get_or l.req_pool_idx s.last_generation 0

-- A call that changes neither the leases nor the generations.
record Same (s t : Slots) : Type 0 where
  leases : t.active ≡ s.active
  generations : t.last_generation ≡ s.last_generation

Same-Gone : {s t : Slots} {l : Lease} → Same s t → Gone s l → Gone t l
Same-Gone h g = record { absent = λ e. g.absent (ground arith); spent = ground arith }

begin_handoff-Same : (s : Slots) (l : Lease) → Same s (after (begin_handoff s l))
unfolding begin_handoff
begin_handoff-Same s l = record { leases = ground arith; generations = ground arith }

finish_handoff-Same :
    (s : Slots) (l : Lease) (e : Option Event) → Same s (after (finish_handoff s l e))
unfolding finish_handoff
finish_handoff-Same s l e = record { leases = ground arith; generations = ground arith }

admit_decode-Same : (s : Slots) (l : Lease) → Same s (after (admit_decode s l))
unfolding admit_decode
admit_decode-Same s l = record { leases = ground arith; generations = ground arith }

drain-Same :
    (s : Slots) (l : Lease) (e : Option Event) (es : List (Option Event))
    → Same s (after (drain s l e es))
unfolding drain
drain-Same s l e es = record { leases = ground arith; generations = ground arith }

logical_flush-Same : (s : Slots) (l : Lease) (b : Bool) → Same s (after (logical_flush s l b))
unfolding logical_flush
logical_flush-Same s l b = record { leases = ground arith; generations = ground arith }

mark_failed-Same : (s : Slots) (l : Lease) → Same s (mark_failed s l)
unfolding mark_failed
mark_failed-Same s l = record { leases = ground arith; generations = ground arith }

commit_release-Gone : (s : Slots) (m l : Lease) → Gone s l → Gone (after (commit_release s m)) l
unfolding commit_release
commit_release-Gone s m l g = record {
  absent = λ e. g.absent (ground (arith, get-del m.req_pool_idx l.req_pool_idx s.active));
  spent = ground (arith, g.spent);
}

take_slot-Gone :
    (s : Slots) (r n : ℕ) (rid : String) (free : List ℕ) (l : Lease)
    → leb n (get_or r s.last_generation 0) ≡ false
    → Gone s l
    → Gone (after (take_slot s r n rid free)) l
unfolding take_slot
take_slot-Gone s r n rid [] l newer g = g
take_slot-Gone s r n rid (slot ∷ rest) l newer g = record {
  absent = λ e. g.absent (
      ground (
        arith,
        get-put r l.req_pool_idx
            (record { req_pool_idx = r; generation = n; rid = rid; slot = slot }) s.active,
        g.spent,
      ));
  spent = ground (arith, get-put r l.req_pool_idx n s.last_generation, g.spent);
}

acquire-Gone :
    (s : Slots) (r n : ℕ) (rid : String) (l : Lease) → Gone s l → Gone (after (acquire s r n rid)) l
unfolding acquire
acquire-Gone s r n rid l g = ground (arith, take_slot-Gone s r n rid s.free_slots l)

step-Gone : (s : Slots) (c : Call) (l : Lease) → Gone s l → Gone (step s c) l
unfolding step
step-Gone s (acquires r n rid) l g = acquire-Gone s r n rid l g
step-Gone s (begins m) l g = Same-Gone (begin_handoff-Same s m) g
step-Gone s (finishes m e) l g = Same-Gone (finish_handoff-Same s m e) g
step-Gone s (admits m) l g = Same-Gone (admit_decode-Same s m) g
step-Gone s (drains m e es) l g = Same-Gone (drain-Same s m e es) g
step-Gone s (flushes m b) l g = Same-Gone (logical_flush-Same s m b) g
step-Gone s (commits m) l g = commit_release-Gone s m l g
step-Gone s (fails m) l g = Same-Gone (mark_failed-Same s m) g

run-Gone : (s : Slots) (cs : List Call) (l : Lease) → Gone s l → Gone (run s cs) l
unfolding run
run-Gone s [] l g = g
run-Gone s (c ∷ cs) l g = run-Gone (step s c) cs l (step-Gone s c l g)

require-Gone :
    (s : Slots) (l : Lease) (ps : List Phase) → Gone s l → require s l ps ≡ some stale_lease
unfolding require
require-Gone s l ps g = elim (Option-cases (get l.req_pool_idx s.active)) [
  | inl e ↦ ground arith
  | inr (a, e) ↦ ground (arith, lease_eq_iff a l, g.absent)
]

released-Gone : (s t : Slots) (l : Lease) → Inv s → commit_release s l ≡ done t tt → Gone t l
unfolding commit_release
released-Gone s t l v e = elim (Option-cases (require s l (Phase.logical_flushed ∷ []))) [
  | inr (x, bad) ↦ absurd (ground arith)
  | inl fine ↦
      let here = require-active s l (Phase.logical_flushed ∷ []) fine in
      record {
        absent = λ f. absurd (ground (arith, get-del l.req_pool_idx l.req_pool_idx s.active));
        spent = ground (arith, v.recent l.req_pool_idx l here);
      }
]

-- Once a lease was released, every check of it fails as stale in every later state, for every list
-- of phases: the request slot and the number of the lease may be in use again, the lease is not.
pub require-released :
    (s t : Slots) (l : Lease) (cs : List Call) (ps : List Phase)
    → Inv s
    → commit_release s l ≡ done t tt
    → require (run t cs) l ps ≡ some stale_lease
require-released s t l cs ps v e =
    require-Gone (run t cs) l ps (run-Gone t cs l (released-Gone s t l v e))
