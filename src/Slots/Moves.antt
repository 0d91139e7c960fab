-- ===== src/Slots/Moves.antt =====
-- Every method keeps the invariant, on the paths that return and on those that raise.
use qsa_hisparse.Prelude.{
  ℕ, String, ◌≡◌, refl, Bool, true, false, Option, none, some, List, [], ◌∷◌, inl, inr, get, get_or,
  leb, arith, Option-cases, Outcome, after, unless_error, ap, ◌≢◌, ◌⊎◌, Bool-cases, put,
}
use qsa_hisparse.Slots.Defs.{
  Slots, Lease, Phase, Error, Event, prefill, copying, host_ready, decode, releasing, failed,
  drained, logical_flushed, lease_eq, lease_eq_iff, is_lease, require, phase_in, acquire, take_slot,
  begin_handoff, finish_handoff, admit_decode, drain, logical_flush, commit_release, set_phase,
  disown,
}
use qsa_hisparse.Slots.Invariant.{Inv, rephase-Inv, return-Inv, grant-Inv}

-- What a check of `require` that passes says: the lease is the one in force, in an allowed phase.
pub require-active :
    (s : Slots) (l : Lease) (ps : List Phase)
    → require s l ps ≡ none
    → get l.req_pool_idx s.active ≡ some l
unfolding require
require-active s l ps e = elim (Option-cases (get l.req_pool_idx s.active)) [
  | inl none_here ↦ absurd (ground arith)
  | inr (a, here) ↦ ground (arith, lease_eq_iff a l)
]

pub require-phase :
    (s : Slots) (l : Lease) (q : Phase) (ps : List Phase)
    → require s l (q ∷ ps) ≡ none
    → (p : Phase) × (get l.req_pool_idx s.phases ≡ some p) × (phase_in p (q ∷ ps) ≡ true)
unfolding require
require-phase s l q ps e = elim (Option-cases (get l.req_pool_idx s.phases)) [
  | inl gone ↦ absurd (ground arith)
  | inr (p, here) ↦ (p, here, ground arith)
]

take_slot-Inv :
    (s : Slots) (req_pool_idx generation : ℕ) (rid : String) (free : List ℕ)
    → Inv s
    → s.free_slots ≡ free
    → get req_pool_idx s.active ≡ none
    → leb generation (get_or req_pool_idx s.last_generation 0) ≡ false
    → s.prefill_owner ≡ none
    → Inv (after (take_slot s req_pool_idx generation rid free))
unfolding take_slot
take_slot-Inv s req_pool_idx generation rid [] v free absent newer idle = v
take_slot-Inv s req_pool_idx generation rid (slot ∷ rest) v free absent newer idle =
    grant-Inv s _ rest v absent free idle (ground arith)

pub acquire-Inv :
    (s : Slots) (req_pool_idx generation : ℕ) (rid : String)
    → Inv s
    → Inv (after (acquire s req_pool_idx generation rid))
unfolding acquire
acquire-Inv s req_pool_idx generation rid v =
    ground (arith, take_slot-Inv s req_pool_idx generation rid s.free_slots v refl)

pub is_lease-some : (o : Option Lease) (l : Lease) → is_lease o l ≡ true → o ≡ some l
is_lease-some none l e = cc
is_lease-some (some a) l e = ap some ((lease_eq_iff a l).0 e)

-- A method that begins with `require`: it raises and changes nothing, or its lease is in force.
checked-Inv :
    {A : Type 0} (s : Slots) (l : Lease) (ps : List Phase) (rest : Outcome Error Slots A)
    → Inv s
    → (require s l ps ≡ none → Inv (after rest))
    → Inv (after (unless_error (require s l ps) s rest))
checked-Inv s l ps rest v good = elim (Option-cases (require s l ps)) [
  | inr (e, bad) ↦ rw (bad, unless_error) v
  | inl fine ↦ rw (fine, unless_error) (good fine)
]

-- The phase of the lease that a check of `require` lets through.
required_phase :
    (s : Slots) (l : Lease) (p q : Phase) (ps : List Phase)
    → require s l (q ∷ ps) ≡ none
    → get l.req_pool_idx s.phases ≡ some p
    → phase_in p (q ∷ ps) ≡ true
required_phase s l p q ps e here = ground (arith, require-phase s l q ps e)

pub begin_handoff-Inv : (s : Slots) (l : Lease) → Inv s → Inv (after (begin_handoff s l))
unfolding begin_handoff
begin_handoff-Inv s l v = checked-Inv s l (prefill ∷ []) _ v λ fine.
    let here = require-active s l (prefill ∷ []) fine in
    ground (
      arith,
      is_lease-some s.prefill_owner l,
      rephase-Inv s l v here copying s.prefill_owner (inl refl),
    )

pub finish_handoff-Inv :
    (s : Slots) (l : Lease) (e : Option Event) → Inv s → Inv (after (finish_handoff s l e))
unfolding finish_handoff
finish_handoff-Inv s l e v = checked-Inv s l (copying ∷ []) _ v λ fine.
    let here = require-active s l (copying ∷ []) fine in
    ground (arith, is_lease-some s.prefill_owner l, rephase-Inv s l v here host_ready none)

pub admit_decode-Inv : (s : Slots) (l : Lease) → Inv s → Inv (after (admit_decode s l))
unfolding admit_decode
admit_decode-Inv s l v = checked-Inv s l (host_ready ∷ []) _ v λ fine.
    let here = require-active s l (host_ready ∷ []) fine in
    rephase-Inv s l v here decode s.prefill_owner (inl refl) (λ e. cc)
      λ e. ground (arith, require-phase s l host_ready [] fine, v.holding l host_ready)

disown-cases :
    (o : Option Lease) (l : Lease)
    → ((disown o l ≡ o) × (o ≢ some l)) ⊎ ((disown o l ≡ none) × (o ≡ some l))
disown-cases none l = inl (refl, λ e. cc)
disown-cases (some a) l = elim (Bool-cases (lease_eq a l)) [
  | inl same ↦ inr (rw same, ap some ((lease_eq_iff a l).0 same))
  | inr other ↦ inl (rw other, λ e. absurd (ground (arith, lease_eq_iff a l)))
]

-- The two states that `drain` may leave behind its checks.
drained-Inv :
    (s : Slots) (l : Lease)
    → Inv s
    → get l.req_pool_idx s.active ≡ some l
    → let t = set_phase s l releasing in
      Inv (record t {
        prefill_owner = disown s.prefill_owner l;
        phases = put l.req_pool_idx drained t.phases;
      })
      × Inv (set_phase t l failed)
drained-Inv s l v here =
    let t = set_phase s l releasing in
    let w : Inv t =
      rephase-Inv s l v here releasing s.prefill_owner (inl refl) (λ e. cc) (λ e. refl) in
    (
      ground (
        arith,
        disown-cases s.prefill_owner l,
        rephase-Inv t l w here drained (disown s.prefill_owner l),
      ),
      rephase-Inv t l w here failed s.prefill_owner (inl refl) (λ e. cc) (λ e. refl),
    )

pub drain-Inv :
    (s : Slots) (l : Lease) (e : Option Event) (es : List (Option Event))
    → Inv s
    → Inv (after (drain s l e es))
unfolding drain
drain-Inv s l e es v =
    let ps : List Phase = prefill ∷ copying ∷ host_ready ∷ decode ∷ failed ∷ [] in
    checked-Inv s l ps _ v λ fine. ground (arith, drained-Inv s l v (require-active s l ps fine))

pub logical_flush-Inv :
    (s : Slots) (l : Lease) (b : Bool) → Inv s → Inv (after (logical_flush s l b))
unfolding logical_flush
logical_flush-Inv s l true v = checked-Inv s l (drained ∷ []) _ v λ fine. v
logical_flush-Inv s l false v = checked-Inv s l (drained ∷ []) _ v λ fine.
    rephase-Inv s l v (require-active s l (drained ∷ []) fine) logical_flushed s.prefill_owner
      (inl refl) (λ e. cc)
      λ e. ground (arith, require-phase s l drained [] fine, v.holding l drained)

pub commit_release-Inv : (s : Slots) (l : Lease) → Inv s → Inv (after (commit_release s l))
unfolding commit_release
commit_release-Inv s l v = checked-Inv s l (logical_flushed ∷ []) _ v λ fine.
    return-Inv s l v (require-active s l (logical_flushed ∷ []) fine)
      λ e. ground (arith, require-phase s l logical_flushed [] fine, v.holding l logical_flushed)
