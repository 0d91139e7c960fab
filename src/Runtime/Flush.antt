-- ===== src/Runtime/Flush.antt =====
-- The queue of deferred releases is worked off, and no release is done twice.
use qsa_hisparse.Prelude.{
  ℕ, zero, suc, ◌≤◌, ◌≡◌, ◌⊎◌, inl, inr, refl, sym, ◌∙◌, ap, subst, Bool, false, none, some, List,
  [], ◌∷◌, ◌++◌, if◌then◌else◌, get, length, done, raised, arith, Bool-cases,
}
use qsa_hisparse.Slots.Defs.{Slots, Lease, drained, logical_flushed}
use qsa_hisparse.Slots.Invariant.{Inv}
use qsa_hisparse.Coordinator.Admit.{Avoids, Apart}
use qsa_hisparse.Runtime.Defs.{
  Runtime, Error, log_failure, after_release, drop_finished, flush_loop, after_logical_flush,
}
use qsa_hisparse.Runtime.Release.{AllDeferred, Releases, release_one}

AllDeferred-Releases :
    (r d : Runtime) (l : Lease) (ls : List Lease)
    → Releases r d l
    → Avoids l.req_pool_idx ls
    → AllDeferred r ls
    → AllDeferred d ls
AllDeferred-Releases r d l [] rel h a = tt
AllDeferred-Releases r d l (m ∷ ls) rel h a = (
  record {
    in_phase = rel.others m (drained ∷ logical_flushed ∷ []) h.0 ∙ a.0.in_phase;
    known = ground (arith, rel.requests m.req_pool_idx h.0, a.0.known);
  },
  AllDeferred-Releases r d l ls rel h.1 a.1,
)

-- No lease of the list is in force.
abbrev pub AllGone : Slots → List Lease → Type 0
AllGone s [] = Unit {0}
AllGone s (l ∷ ls) = (get l.req_pool_idx s.active ≡ none) × AllGone s ls

-- What a run of the loop leaves: the leases that it took off the queue are gone, the others wait.
pub record Flushed (r d : Runtime) : Type 0 where
  pub waiting : AllDeferred d d.pending_releases
  pub apart : Apart d.pending_releases
  pub finished : List Lease
  pub split : finished ++ d.pending_releases ≡ r.pending_releases
  pub gone : AllGone d.slots finished
  pub outside : (k : ℕ) → Avoids k r.pending_releases → get k d.slots.active ≡ get k r.slots.active
  pub kept : Inv r.slots → Inv d.slots

-- One round: the first lease of the queue is released, and taken off the queue.
round_lem :
    (r d : Runtime) (l : Lease) (rest : List Lease)
    → r.pending_releases ≡ l ∷ rest
    → Releases r d l
    → AllDeferred r (l ∷ rest)
    → Apart (l ∷ rest)
    → (drop_finished d l ≡ record d { pending_releases = rest })
      × AllDeferred (record d { pending_releases = rest }) rest
unfolding drop_finished
round_lem r d l rest e rel a h = (
  ground (arith, rel.gone, rel.same_queue),
  moved rest (AllDeferred-Releases r d l rest rel h.0 a.1),
)
  where
    moved :
        (ls : List Lease) → AllDeferred d ls → AllDeferred (record d { pending_releases = rest }) ls
    moved [] b = tt
    moved (m ∷ ls) b = (record { in_phase = b.0.in_phase; known = b.0.known }, moved ls b.1)

-- A run of the rest, seen from before the first round.
Flushed-round :
    (r d t : Runtime) (l : Lease) (rest : List Lease)
    → r.pending_releases ≡ l ∷ rest
    → Releases r d l
    → Apart (l ∷ rest)
    → Flushed (record d { pending_releases = rest }) t
    → Flushed r t
Flushed-round r d t l rest e rel h f = record {
  waiting = f.waiting;
  apart = f.apart;
  finished = l ∷ f.finished;
  split = ap (◌∷◌ l) f.split ∙ sym e;
  gone = (f.outside l.req_pool_idx h.0 ∙ rel.gone, f.gone);
  outside = λ k away.
      let both = subst (Avoids k) e away in
      f.outside k both.1 ∙ rel.other_leases k (λ same. both.0 (sym same));
  kept = λ v. f.kept (rel.kept v);
}

Flushed-stop :
    (r : Runtime) → AllDeferred r r.pending_releases → Apart r.pending_releases → Flushed r r
Flushed-stop r a h = record {
  waiting = a;
  apart = h;
  finished = [];
  split = refl;
  gone = tt;
  outside = λ k v. refl;
  kept = λ v. v;
}

loop_done :
    (fuel : ℕ) (r d : Runtime) (log : Lease → Bool) (l : Lease) (rest : List Lease)
    → r.pending_releases ≡ l ∷ rest
    → after_release r (some l) false (log l) ≡ done d tt
    → flush_loop (suc fuel) r false log ≡ flush_loop fuel (drop_finished d l) false log
unfolding flush_loop
loop_done fuel r d log l rest e runs = rw (e, flush_loop) (rw (runs, flush_loop) refl)

loop_raised :
    (fuel : ℕ) (r d : Runtime) (log : Lease → Bool) (l : Lease) (rest : List Lease) (x : Error)
    → r.pending_releases ≡ l ∷ rest
    → after_release r (some l) false (log l) ≡ raised d x
    → flush_loop (suc fuel) r false log ≡ raised (drop_finished d l) x
unfolding flush_loop
loop_raised fuel r d log l rest x e runs = rw (e, flush_loop) (rw (runs, flush_loop) refl)

flush_loop_lem :
    (fuel : ℕ) (r : Runtime) (log : Lease → Bool) (queue : List Lease)
    → r.pending_releases ≡ queue
    → length queue ≤ fuel
    → AllDeferred r queue
    → Apart queue
    → (d : Runtime) × Flushed r d
      × (((flush_loop fuel r false log ≡ done d tt) × (d.pending_releases ≡ []))
          ⊎ ((flush_loop fuel r false log ≡ raised d log_failure)
              × ((l : Lease) × (log l ≡ false))))
unfolding flush_loop
flush_loop_lem zero r log [] e n a h = (r, Flushed-stop r (rw e a) (rw e h), inl (refl, e))
flush_loop_lem zero r log (l ∷ rest) e n a h = absurd (omega arith)
flush_loop_lem (suc fuel) r log [] e n a h =
    (r, Flushed-stop r (rw e a) (rw e h), inl (ground arith, e))
flush_loop_lem (suc fuel) r log (l ∷ rest) e n a h =
    let (d, runs, rel) = release_one r l (log l) a.0 in
    let (dropped, waiting) = round_lem r d l rest e rel a h in
    let d' : Runtime = record d { pending_releases = rest } in
    elim (Bool-cases (log l)) [
      | inl fine ↦
          let (t, f, result) = flush_loop_lem fuel d' log rest refl (omega arith) waiting h.1 in
          let done_one : after_release r (some l) false (log l) ≡ done d tt =
            runs ∙ ap (λ b. if b then done d tt else raised d log_failure) fine in
          let step =
            loop_done fuel r d log l rest e done_one
            ∙ ap (λ x. flush_loop fuel x false log) dropped in
          (
            t,
            Flushed-round r d t l rest e rel h f,
            elim result [
              | inl (finished, empty) ↦ inl (step ∙ finished, empty)
              | inr (failed_late, why) ↦ inr (step ∙ failed_late, why)
            ],
          )
      | inr failing ↦ (
        d',
        Flushed-round r d d' l rest e rel h (Flushed-stop d' waiting h.1),
        inr (
          loop_raised fuel r d log l rest log_failure e
                (runs ∙ ap (λ b. if b then done d tt else raised d log_failure) failing)
              ∙ ap (λ x. raised x log_failure) dropped,
          (l, failing),
        ),
      )
    ]

-- When every deferred release is of a drained lease whose request the runtime knows, one to a request
-- slot, and the allocator has no open group, `after_logical_flush` ends: it returns with an empty
-- queue, or raises where a log write fails. Either way it has worked off a front part of the queue,
-- whose leases are all out of force, and the rest of the queue still waits and can be worked off
-- later; the lease table keeps its invariant. So no failure makes it release a lease twice or lose
-- one.
pub after_logical_flush_lem :
    (r : Runtime) (log : Lease → Bool)
    → AllDeferred r r.pending_releases
    → Apart r.pending_releases
    → Inv r.slots
    → (d : Runtime) × Flushed r d
      × Inv d.slots
      × (((after_logical_flush r false log ≡ done d tt) × (d.pending_releases ≡ []))
          ⊎ ((after_logical_flush r false log ≡ raised d log_failure)
              × ((l : Lease) × (log l ≡ false))))
unfolding after_logical_flush
after_logical_flush_lem r log a h v =
    let (d, f, result) =
      flush_loop_lem (length r.pending_releases) r log r.pending_releases refl (omega arith) a h in
    (d, f, f.kept v, result)
