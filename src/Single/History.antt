-- ===== src/Single/History.antt =====
-- single_request.py: sequences of calls of the adapter, and the requests that it serves in them.
use qsa_hisparse.Prelude.{
  ℕ, ◌-◌, if◌then◌else◌, ◌≡◌, refl, inl, inr, String, Bool, true, false, Option, none, some, List,
  [], ◌∷◌, ◌≢◌, ◌||◌, is_some, Bool-cases, str_eq_iff, done, raised, after, List-cases,
  Outcome-cases, arith,
}
use qsa_hisparse.Single.State.{
  Layer, Lease, Single, not_serving, repeated_rid, duplicate_release, Batch, extend, seen, owned_by,
  is_decode_mode, start, Error, owner_changed, unclaimed_handoff, not_contiguous, aliased,
  incomplete_rows, logical_changed,
}
use qsa_hisparse.Single.Handoff.{handoff}
use qsa_hisparse.Single.Batch.{Around, claim, decode_step, serve_batch, own_batch, begin_batch}
use qsa_hisparse.Single.Calls.{after_store, release, after_release, is_lease}
use qsa_hisparse.Single.Invariant.{
  Inv, begin_batch-Inv, after_store-Inv, release-Inv, after_release-Inv,
}

-- A call of the adapter by SGLang.
pub data Call {A : Type 0} (blank : A) : Type 0 where
  begins : Batch → Around blank → Call blank
  stores : ℕ → Call blank
  releases : ℕ → String → Call blank
  commits : Option Lease → Bool → Call blank

-- The request ids that have held the adapter, and its failure, stay.
abbrev pub Keeps : {A : Type 0} → Single A → Single A → String → Type 0
Keeps s t rid =
    (seen rid s.seen_rids ≡ true → seen rid t.seen_rids ≡ true)
    × (s.failed ≡ true → t.failed ≡ true)

module _ {A : Type 0} (blank : A) where
  abbrev pub step : Call blank → Single A → Single A
  step (begins b around) s = after (begin_batch blank s b around)
  step (stores li) s = after (after_store s li)
  step (releases req rid) s = after (release s req rid)
  step (commits lease grouped) s = after (after_release s lease grouped)

  abbrev pub run : List (Call blank) → Single A → Single A
  run [] s = s
  run (c ∷ calls) s = run calls (step c s)

  step-Inv : (c : Call blank) (s : Single A) → Inv s → Inv (step c s)
  step-Inv (begins b around) s i = begin_batch-Inv blank s b around i
  step-Inv (stores li) s i = after_store-Inv s li i
  step-Inv (releases req rid) s i = release-Inv s req rid i
  step-Inv (commits lease grouped) s i = after_release-Inv s lease grouped i

  run_keeps-Inv : (calls : List (Call blank)) (s : Single A) → Inv s → Inv (run calls s)
  run_keeps-Inv [] s i = i
  run_keeps-Inv (c ∷ calls) s i = run_keeps-Inv calls (step c s) (step-Inv c s i)

  -- Whatever calls come in whatever order, and whichever of them raise: without an owner nothing is being
  -- released; an offloaded request has an owner and the host slab; only a failed handoff holds the slab
  -- without having offloaded; a deferred release is that of the owner; and every generation belongs to
  -- one request id.
  pub run-start-Inv :
      (offload : Bool) (layers : List (Layer A)) (calls : List (Call blank))
      → Inv (run calls (start offload layers))
  unfolding start
  run-start-Inv offload layers calls = run_keeps-Inv calls (start offload layers) (ground arith)

  handoff-Keeps :
      (s : Single A) (prompt_len : ℕ) (slots : List ℕ) (kept : Bool) (rid : String)
      → Keeps s (after (handoff blank s prompt_len slots kept)) rid
  unfolding handoff
  handoff-Keeps s prompt_len slots kept rid = ground arith

  decode_step-Keeps :
      (s : Single A) (seq : ℕ) (around : Around blank) (rid : String)
      → Keeps s (after (decode_step blank s seq around)) rid
  unfolding decode_step
  decode_step-Keeps s seq around rid =
      ground (arith, handoff-Keeps s (seq - 1) (around.row (seq - 1)) around.logical_kept rid)

  serve_batch-Keeps :
      (s : Single A) (b : Batch) (r : String) (around : Around blank) (rid : String)
      → Keeps s (after (serve_batch blank s b r around)) rid
  unfolding serve_batch
  serve_batch-Keeps s b r around rid = ground (
    arith,
    decode_step-Keeps (record s { seq_len = b.seq; is_decode = is_decode_mode b.mode }) b.seq around
        rid,
  )

  claim-Keeps :
      (s : Single A) (req : ℕ) (r : String) (seq : ℕ) (around : Around blank) (rid : String)
      → Keeps s (after (claim blank s req r seq around)) rid
  unfolding claim seen
  claim-Keeps s req r seq around rid = ground arith

  own_batch-Keeps :
      (s : Single A) (b : Batch) (r : String) (around : Around blank) (rid : String)
      → Keeps s (after (own_batch blank s b r around)) rid
  unfolding own_batch
  own_batch-Keeps s b r around rid = elim (Outcome-cases (claim blank s b.req r b.seq around)) [
    | inl (t, u, c) ↦ ground (
      arith,
      claim-Keeps s b.req r b.seq around rid,
      serve_batch-Keeps s b r around rid,
      serve_batch-Keeps t b r around rid,
    )
    | inr (t, x, c) ↦
        ground (arith, claim-Keeps s b.req r b.seq around rid, serve_batch-Keeps s b r around rid)
  ]

  begin_batch-Keeps :
      (s : Single A) (b : Batch) (around : Around blank) (rid : String)
      → Keeps s (after (begin_batch blank s b around)) rid
  unfolding begin_batch
  begin_batch-Keeps s b around rid = elim (List-cases b.rids) [
    | inl e ↦ ground arith
    | inr (r, rids, e) ↦ ground (arith, own_batch-Keeps s b r around rid)
  ]

  step-Keeps : (c : Call blank) (s : Single A) (rid : String) → Keeps s (step c s) rid
  unfolding after_store release after_release
  step-Keeps (begins b around) s rid = begin_batch-Keeps s b around rid
  step-Keeps (stores li) s rid = ground arith
  step-Keeps (releases req r) s rid = ground arith
  step-Keeps (commits none grouped) s rid = ground arith
  step-Keeps (commits (some lease) grouped) s rid = ground arith

  run-Keeps : (calls : List (Call blank)) (s : Single A) (rid : String) → Keeps s (run calls s) rid
  run-Keeps [] s rid = ground arith
  run-Keeps (c ∷ calls) s rid = ground (arith, step-Keeps c s rid, run-Keeps calls (step c s) rid)

  -- A request that is not the owner.
  owned_by_not :
      (owner : Option (ℕ × String)) (req : ℕ) (rid : String)
      → owner ≢ some (req, rid)
      → owned_by owner req rid ≡ false
  unfolding owned_by
  owned_by_not none req rid h = refl
  owned_by_not (some (o, r)) req rid h = elim (Bool-cases (owned_by (some (o, r)) req rid)) [
    | inr e ↦ e
    | inl e ↦
        let same : o ≡ req = ground arith in
        let named : r ≡ rid = (str_eq_iff r rid).0 (ground arith) in
        absurd (h (rw (same, named) refl))
  ]

  -- A request id that has held the adapter once is never given it again, whatever calls come in between:
  -- unless the request is the owner still, a later prefill of that id is refused and changes nothing.
  -- It is refused as a repetition when nobody has the adapter, as a change of the owner when another
  -- request has it, and as not served when a handoff has failed or a release is under way.
  pub begin_batch_once :
      (offload : Bool) (layers : List (Layer A)) (first later : List (Call blank)) (req seq : ℕ)
      (rid : String) (around : Around blank)
      → seen rid (run first (start offload layers)).seen_rids ≡ true
      → (run later (run first (start offload layers))).owner ≢ some (req, rid)
      → begin_batch blank
          (run later (run first (start offload layers)))
          (record { mode = extend; batch_size = 1; req = req; rids = rid ∷ []; seq = seq })
          around
        ≡ raised (run later (run first (start offload layers))) (
            if (run later (run first (start offload layers))).failed
              || (run later (run first (start offload layers))).releasing
            then not_serving
            else if is_some (run later (run first (start offload layers))).owner
            then owner_changed
            else repeated_rid)
  unfolding begin_batch own_batch claim serve_batch is_decode_mode
  begin_batch_once offload layers first later req seq rid around held other =
      let s = run first (start offload layers) in
      ground (arith, run-Keeps later s rid, owned_by_not (run later s).owner req rid other)

  -- The errors that a handoff raises.
  abbrev pub is_of_handoff : Error → Bool
  is_of_handoff unclaimed_handoff = true
  is_of_handoff not_contiguous = true
  is_of_handoff aliased = true
  is_of_handoff incomplete_rows = true
  is_of_handoff logical_changed = true
  is_of_handoff error = false

  decode_step-failed :
      (s u : Single A) (seq : ℕ) (around : Around blank) (x : Error)
      → decode_step blank s seq around ≡ raised u x
      → is_of_handoff x ≡ true
      → u.failed ≡ true
  unfolding decode_step
  decode_step-failed s u seq around x e h = ground arith

  serve_batch-failed :
      (s u : Single A) (b : Batch) (rid : String) (around : Around blank) (x : Error)
      → serve_batch blank s b rid around ≡ raised u x
      → is_of_handoff x ≡ true
      → u.failed ≡ true
  unfolding serve_batch
  serve_batch-failed s u b rid around x e h = ground (
    arith,
    decode_step-failed (record s { seq_len = b.seq; is_decode = is_decode_mode b.mode }) u b.seq
        around x,
  )

  own_batch-failed :
      (s u : Single A) (b : Batch) (rid : String) (around : Around blank) (x : Error)
      → own_batch blank s b rid around ≡ raised u x
      → is_of_handoff x ≡ true
      → u.failed ≡ true
  unfolding own_batch claim
  own_batch-failed s u b rid around x e h =
      elim (Outcome-cases (claim blank s b.req rid b.seq around)) [
        | inl (t, v, c) ↦
            ground
              (arith, serve_batch-failed s u b rid around x, serve_batch-failed t u b rid around x)
        | inr (t, y, c) ↦ ground (arith, serve_batch-failed s u b rid around x)
      ]

  -- A batch in which the handoff raises, by its checks of the adapter, of the slots, of the rows or of
  -- the allocator, is the last one that is served: whatever calls come after it, every later batch is
  -- refused as not served, and changes nothing.
  pub begin_batch-failed :
      (s u : Single A) (b : Batch) (around : Around blank) (x : Error) (calls : List (Call blank))
      (later : Batch) (then_around : Around blank)
      → begin_batch blank s b around ≡ raised u x
      → is_of_handoff x ≡ true
      → begin_batch blank (run calls u) later then_around ≡ raised (run calls u) not_serving
  unfolding begin_batch
  begin_batch-failed s u b around x calls later then_around e h =
      let failed : u.failed ≡ true = elim (List-cases b.rids) [
        | inl none_there ↦ absurd (ground arith)
        | inr (r, rids, there) ↦ ground (arith, own_batch-failed s u b r around x)
      ] in
      ground (arith, run-Keeps calls u "")

  -- A request that holds the adapter gets it released, also after a failed handoff: its release and the
  -- commit of the lease succeed and leave the adapter without an owner, a claim of the host or a pending
  -- release, and a second release of the same request is refused.
  pub release_returns :
      (offload : Bool) (layers : List (Layer A)) (calls : List (Call blank)) (req : ℕ)
      (rid : String)
      → (run calls (start offload layers)).owner ≡ some (req, rid)
      → (run calls (start offload layers)).releasing ≡ false
      → (t : Single A) × (u : Single A) × (lease : Lease) × (release
            (run calls (start offload layers))
            req
            rid
          ≡ done t (some lease))
        × (after_release t (some lease) false ≡ done u tt)
        × (u.owner ≡ none)
        × (u.releasing ≡ false)
        × (u.host_claimed ≡ false)
        × (u.pending_release ≡ none)
        × (release u req rid ≡ raised u duplicate_release)
  unfolding release after_release is_lease owned_by
  release_returns offload layers calls req rid own free =
      let s = run calls (start offload layers) in
      let i = run-start-Inv offload layers calls in
      (
        record s { releasing = true; states = []; host_claimed = false; offloaded = false },
        record s {
          releasing = false;
          states = [];
          host_claimed = false;
          offloaded = false;
          owner = none;
          pending_release = none;
        },
        record { req = req; rid = rid; generation = s.generation },
        ground (arith, str_eq_iff rid rid),
        ground (arith, str_eq_iff rid rid),
        refl,
        refl,
        refl,
        refl,
        ground arith,
      )
