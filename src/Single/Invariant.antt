-- ===== src/Single/Invariant.antt =====
-- single_request.py: what holds of the adapter between its calls, in whatever order they come.
use qsa_hisparse.Prelude.{
  ℕ, ◌-◌, ◌≡◌, inl, inr, String, Bool, true, false, not, ◌&&◌, ◌||◌, Option, none, some, List, [],
  ◌∷◌, is_some, str_eq_iff, length, Outcome, done, raised, after, Option-cases, List-cases,
  Outcome-cases, arith,
}
use qsa_hisparse.Single.State.{Lease, Single, Error, Batch, seen, owned_by, is_decode_mode}
use qsa_hisparse.Single.Handoff.{handoff}
use qsa_hisparse.Single.Batch.{Around, claim, decode_step, serve_batch, own_batch, begin_batch}
use qsa_hisparse.Single.Calls.{after_store, release, after_release, is_lease}

abbrev pub all_apart : List String → Bool
all_apart [] = true
all_apart (r ∷ rids) = not (seen r rids) && all_apart rids

abbrev pub owner_seen : Option (ℕ × String) → List String → Bool
owner_seen none rids = true
owner_seen (some (o, rid)) rids = seen rid rids

abbrev pub deferred_for : {A : Type 0} → Single A → Option Lease → Bool
deferred_for s none = true
deferred_for s (some lease) = s.releasing && is_lease s lease

-- An adapter without an owner releases nothing; one that is offloaded has claimed the host, for an owner
-- that is not being released, and only a failed handoff claims it without having offloaded; a deferred
-- release is that of the owner; and each generation belongs to one request id.
abbrev pub Inv : {A : Type 0} → Single A → Type 0
Inv s =
    (s.owner ≡ none → (s.releasing ≡ false) × (s.pending_release ≡ none))
    × (s.offloaded ≡ true → (s.host_claimed ≡ true) × (s.offload ≡ true))
    × (s.host_claimed ≡ true
        → (is_some s.owner ≡ true) × (s.releasing ≡ false) × ((s.offloaded || s.failed) ≡ true))
    × (deferred_for s s.pending_release ≡ true)
    × (owner_seen s.owner s.seen_rids ≡ true)
    × (s.generation ≡ length s.seen_rids)
    × (all_apart s.seen_rids ≡ true)

-- The state that `begin_batch` leaves after a handoff: one that raises marks the adapter as failed.
abbrev settled : {A : Type 0} → Outcome Error (Single A) (Unit {0}) → Single A
settled (done t u) = t
settled (raised t e) = record t { failed = true }

module _ {A : Type 0} (blank : A) where
  handoff-Inv :
      (s : Single A) (prompt_len : ℕ) (slots : List ℕ) (kept : Bool)
      → Inv s
      → Inv (settled (handoff blank s prompt_len slots kept))
  unfolding handoff is_lease owned_by
  handoff-Inv s prompt_len slots kept i = ground arith

  claim-Inv :
      (s : Single A) (req : ℕ) (rid : String) (seq : ℕ) (around : Around blank)
      → Inv s
      → s.owner ≡ none
      → Inv (after (claim blank s req rid seq around))
  unfolding claim seen
  claim-Inv s req rid seq around i h = ground (arith, str_eq_iff rid rid)

  decode_step-Inv :
      (s : Single A) (seq : ℕ) (around : Around blank)
      → Inv s
      → Inv (after (decode_step blank s seq around))
  unfolding decode_step is_lease owned_by
  decode_step-Inv s seq around i =
      ground (arith, handoff-Inv s (seq - 1) (around.row (seq - 1)) around.logical_kept i)

  serve_batch-Inv :
      (s : Single A) (b : Batch) (rid : String) (around : Around blank)
      → Inv s
      → Inv (after (serve_batch blank s b rid around))
  unfolding serve_batch is_lease
  serve_batch-Inv s b rid around i = ground (
    arith,
    decode_step-Inv (record s { seq_len = b.seq; is_decode = is_decode_mode b.mode }) b.seq around
        i,
  )

  own_batch-Inv :
      (s : Single A) (b : Batch) (rid : String) (around : Around blank)
      → Inv s
      → Inv (after (own_batch blank s b rid around))
  unfolding own_batch
  own_batch-Inv s b rid around i = elim (Option-cases s.owner) [
    | inr (o, e) ↦ ground (arith, serve_batch-Inv s b rid around i)
    | inl e ↦ elim (Outcome-cases (claim blank s b.req rid b.seq around)) [
      | inl (t, u, c) ↦
          ground (arith, claim-Inv s b.req rid b.seq around i e, serve_batch-Inv t b rid around)
      | inr (t, x, c) ↦ ground (arith, claim-Inv s b.req rid b.seq around i e)
    ]
  ]

  pub begin_batch-Inv :
      (s : Single A) (b : Batch) (around : Around blank)
      → Inv s
      → Inv (after (begin_batch blank s b around))
  unfolding begin_batch
  begin_batch-Inv s b around i = elim (List-cases b.rids) [
    | inl e ↦ ground arith
    | inr (rid, rids, e) ↦ ground (arith, own_batch-Inv s b rid around i)
  ]

pub after_store-Inv : {A : Type 0} (s : Single A) (li : ℕ) → Inv s → Inv (after (after_store s li))
unfolding after_store is_lease
after_store-Inv s li i = ground arith

pub release-Inv :
    {A : Type 0} (s : Single A) (req : ℕ) (rid : String) → Inv s → Inv (after (release s req rid))
unfolding release is_lease
release-Inv s req rid i = ground arith

pub after_release-Inv :
    {A : Type 0} (s : Single A) (lease : Option Lease) (grouped : Bool)
    → Inv s
    → Inv (after (after_release s lease grouped))
unfolding after_release is_lease
after_release-Inv s none grouped i = i
after_release-Inv s (some lease) grouped i = ground arith
