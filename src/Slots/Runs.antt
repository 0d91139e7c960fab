-- ===== src/Slots/Runs.antt =====
-- Histories of the lease table: any calls, in any order, by any caller, also calls that raise.
use qsa_hisparse.Prelude.{
  ℕ, zero, suc, ◌+◌, String, ◌≡◌, refl, Bool, Option, some, List, [], ◌∷◌, inl, get, arith, after,
  range_from, count-range_from, length, Ascends-range_from,
}
use qsa_hisparse.Slots.Defs.{
  Slots, Lease, Event, failed, init, acquire, begin_handoff, finish_handoff, admit_decode, drain,
  logical_flush, commit_release, mark_failed,
}
use qsa_hisparse.Slots.Invariant.{Inv, rephase-Inv}
use qsa_hisparse.Slots.Moves.{
  is_lease-some, acquire-Inv, begin_handoff-Inv, finish_handoff-Inv, admit_decode-Inv, drain-Inv,
  logical_flush-Inv, commit_release-Inv,
}

-- The calls that change the table.
pub data Call : Type 0 where
  acquires : ℕ → ℕ → String → Call
  begins : Lease → Call
  finishes : Lease → Option Event → Call
  admits : Lease → Call
  drains : Lease → Option Event → List (Option Event) → Call
  flushes : Lease → Bool → Call
  commits : Lease → Call
  fails : Lease → Call

unfoldable pub step : Slots → Call → Slots
step s (acquires r g rid) = after (acquire s r g rid)
step s (begins l) = after (begin_handoff s l)
step s (finishes l e) = after (finish_handoff s l e)
step s (admits l) = after (admit_decode s l)
step s (drains l e es) = after (drain s l e es)
step s (flushes l b) = after (logical_flush s l b)
step s (commits l) = after (commit_release s l)
step s (fails l) = mark_failed s l

unfoldable pub run : Slots → List Call → Slots
run s [] = s
run s (c ∷ cs) = run (step s c) cs

pub mark_failed-Inv : (s : Slots) (l : Lease) → Inv s → Inv (mark_failed s l)
unfolding mark_failed
mark_failed-Inv s l v = ground (
  arith,
  is_lease-some (get l.req_pool_idx s.active) l,
  λ (here : get l.req_pool_idx s.active ≡ some l).
      rephase-Inv s l v here failed s.prefill_owner (inl refl) (λ e. cc) (λ e. refl),
)

pub step-Inv : (s : Slots) (c : Call) → Inv s → Inv (step s c)
unfolding step
step-Inv s (acquires r g rid) v = acquire-Inv s r g rid v
step-Inv s (begins l) v = begin_handoff-Inv s l v
step-Inv s (finishes l e) v = finish_handoff-Inv s l e v
step-Inv s (admits l) v = admit_decode-Inv s l v
step-Inv s (drains l e es) v = drain-Inv s l e es v
step-Inv s (flushes l b) v = logical_flush-Inv s l b v
step-Inv s (commits l) v = commit_release-Inv s l v
step-Inv s (fails l) v = mark_failed-Inv s l v

pub run-Inv : (s : Slots) (cs : List Call) → Inv s → Inv (run s cs)
unfolding run
run-Inv s [] v = v
run-Inv s (c ∷ cs) v = run-Inv (step s c) cs (step-Inv s c v)

length-range_from : (start n : ℕ) → length (range_from start n) ≡ n
unfolding range_from
length-range_from start zero = refl
length-range_from start (suc n) = omega (arith, length-range_from (start + 1) n)

pub init-Inv : (tokens page requests : ℕ) {s : Slots} → init tokens page requests ≡ some s → Inv s
unfolding init get
init-Inv tokens page requests {s} e = record {
  unique = ground arith;
  keyed = λ k l f. absurd (ground arith);
  same_keys = λ k. ground arith;
  conserved = λ n. ground (arith, count-range_from n 0 requests);
  counted = ground (arith, length-range_from 0 requests);
  owned = λ l f. absurd (ground arith);
  staged = λ k l p f g h. absurd (ground arith);
  holding = λ l p f g. absurd (ground arith);
  recent = λ k l f. absurd (ground arith);
  ascending = ground (arith, Ascends-range_from 0 0 requests);
}

-- A history starts at the constructor and makes any calls; the table then satisfies the invariant:
-- free and leased slots are the numbers below `max_requests`, each once, every lease is filed under
-- its request, the lane's owner is the only lease in a prefill or copying phase, and no lease is
-- older than the last generation of its request slot.
pub run-init-Inv :
    (tokens page requests : ℕ) (cs : List Call) {s : Slots}
    → init tokens page requests ≡ some s
    → Inv (run s cs)
run-init-Inv tokens page requests cs {s} e = run-Inv s cs (init-Inv tokens page requests e)
