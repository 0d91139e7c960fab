-- ===== src/Slots/Service.antt =====
-- One undisturbed request, from its grant to the return of its lease.
use qsa_hisparse.Prelude.{
  ℕ, String, ◌≡◌, refl, true, false, Option, none, some, List, [], ◌∷◌, inl, inr, get, put, get-put,
  arith, Outcome, done, Ascends, List-cases, and_then, str_eq_iff, subst, put-put, del-put_new,
  sort-append_head,
}
use qsa_hisparse.Slots.Defs.{
  Slots, Lease, Phase, Event, Error, prefill, copying, host_ready, decode, releasing, failed,
  drained, logical_flushed, require, acquire, take_slot, begin_handoff, finish_handoff,
  admit_decode, drain, logical_flush, commit_release, all_sound, any_missing, phase_in,
}
use qsa_hisparse.Slots.Invariant.{Inv}
use qsa_hisparse.Slots.Lifecycle.{IsGrantable, lease_eq_self}

-- The state while one new lease is in force, in a phase and beside an owner of the lane.
abbrev stage : Slots → Lease → List ℕ → Phase → Option Lease → Slots
stage s l rest p owner = record s {
  free_slots = rest;
  active = put l.req_pool_idx l s.active;
  last_generation = put l.req_pool_idx l.generation s.last_generation;
  phases = put l.req_pool_idx p s.phases;
  prefill_owner = owner;
}

module _ (s : Slots) (l : Lease) (rest : List ℕ) where
  require-stage :
      (p q : Phase) (ps : List Phase) (owner : Option Lease)
      → phase_in p (q ∷ ps) ≡ true
      → require (stage s l rest p owner) l (q ∷ ps) ≡ none
  unfolding require
  require-stage p q ps owner h = ground (
    arith,
    get-put l.req_pool_idx l.req_pool_idx l s.active,
    get-put l.req_pool_idx l.req_pool_idx p s.phases,
    lease_eq_self l,
  )

  begin_handoff-stage :
      begin_handoff (stage s l rest prefill (some l)) l ≡ done (stage s l rest copying (some l)) tt
  unfolding begin_handoff
  begin_handoff-stage = ground (
    arith,
    require-stage prefill prefill [] (some l) refl,
    lease_eq_self l,
    put-put l.req_pool_idx copying prefill s.phases,
  )

  finish_handoff-stage :
      (e : Event)
      → e.ready ≡ true
      → finish_handoff (stage s l rest copying (some l)) l (some e)
        ≡ done (stage s l rest host_ready none) tt
  unfolding finish_handoff
  finish_handoff-stage e h = ground (
    arith,
    require-stage copying copying [] (some l) refl,
    lease_eq_self l,
    put-put l.req_pool_idx host_ready copying s.phases,
  )

  admit_decode-stage :
      admit_decode (stage s l rest host_ready none) l ≡ done (stage s l rest decode none) tt
  unfolding admit_decode
  admit_decode-stage = ground (
    arith,
    require-stage host_ready host_ready [] none refl,
    put-put l.req_pool_idx decode host_ready s.phases,
  )

  drain-stage :
      (e : Option Event) (es : List (Option Event))
      → any_missing (e ∷ es) ≡ false
      → all_sound (e ∷ es) ≡ true
      → drain (stage s l rest decode none) l e es ≡ done (stage s l rest drained none) tt
  unfolding drain
  drain-stage e es present sound = ground (
    arith,
    require-stage decode prefill (copying ∷ host_ready ∷ decode ∷ failed ∷ []) none refl,
    put-put l.req_pool_idx releasing decode s.phases,
    put-put l.req_pool_idx drained releasing s.phases,
  )

  logical_flush-stage :
      logical_flush (stage s l rest drained none) l false
      ≡ done (stage s l rest logical_flushed none) tt
  unfolding logical_flush
  logical_flush-stage = ground (
    arith,
    require-stage drained drained [] none refl,
    put-put l.req_pool_idx logical_flushed drained s.phases,
  )

  commit_release-stage :
      get l.req_pool_idx s.active ≡ none
      → get l.req_pool_idx s.phases ≡ none
      → s.prefill_owner ≡ none
      → s.free_slots ≡ l.slot ∷ rest
      → Ascends l.slot rest
      → commit_release (stage s l rest logical_flushed none) l
        ≡ done (record s { last_generation = put l.req_pool_idx l.generation s.last_generation }) tt
  unfolding commit_release
  commit_release-stage absent unphased idle free above = ground (
    arith,
    require-stage logical_flushed logical_flushed [] none refl,
    del-put_new l.req_pool_idx l s.active,
    del-put_new l.req_pool_idx logical_flushed s.phases,
    sort-append_head l.slot rest above,
  )

-- The calls of one undisturbed request, in their order.
abbrev pub serve :
    Slots → ℕ → ℕ → String → Event → Option Event → List (Option Event) → Outcome Error Slots Lease
serve s r g rid copied terminal copies = and_then (acquire s r g rid) λ s₁ l.
    and_then (begin_handoff s₁ l) λ s₂ _. and_then (finish_handoff s₂ l (some copied)) λ s₃ _.
      and_then (admit_decode s₃ l) λ s₄ _. and_then (drain s₄ l terminal copies) λ s₅ _.
        and_then (logical_flush s₅ l false) λ s₆ _. and_then (commit_release s₆ l) λ s₇ _. done s₇ l

acquire_runs :
    (s : Slots) (r g : ℕ) (rid : String) (slot : ℕ) (rest : List ℕ)
    → IsGrantable s r g rid
    → s.free_slots ≡ slot ∷ rest
    → let l : Lease = record { req_pool_idx = r; generation = g; rid = rid; slot = slot } in
      acquire s r g rid ≡ done (stage s l rest prefill (some l)) l
unfolding acquire take_slot
acquire_runs s r g rid slot rest h full = ground (arith, str_eq_iff rid "", h.named)

-- An undisturbed request gives everything back: the leases, the phases, the lane and the free slots
-- are those from before, and only the request slot's generation has moved on.
pub serve_restores :
    (s : Slots) (r g : ℕ) (rid : String) (copied : Event) (terminal : Option Event)
    (copies : List (Option Event))
    → Inv s
    → IsGrantable s r g rid
    → copied.ready ≡ true
    → any_missing (terminal ∷ copies) ≡ false
    → all_sound (terminal ∷ copies) ≡ true
    → (l : Lease) × (serve s r g rid copied terminal copies
        ≡ done (record s { last_generation = put r g s.last_generation }) l)
serve_restores s r g rid copied terminal copies v h ready present sound =
    elim (List-cases s.free_slots) [
      | inl empty ↦ absurd (h.room empty)
      | inr (slot, rest, full) ↦
          let l : Lease = record { req_pool_idx = r; generation = g; rid = rid; slot = slot } in
          (
            l,
            simp (
              acquire_runs s r g rid slot rest h full,
              begin_handoff-stage s l rest,
              finish_handoff-stage s l rest copied ready,
              admit_decode-stage s l rest,
              drain-stage s l rest terminal copies present sound,
              logical_flush-stage s l rest,
              commit_release-stage s l rest h.absent (unphased slot rest) h.idle full
                  (subst (Ascends 0) full v.ascending).1,
            ),
          )
    ]
  where
    unphased : ℕ → List ℕ → get r s.phases ≡ none
    unphased slot rest = ground (arith, v.same_keys r, h.absent)
