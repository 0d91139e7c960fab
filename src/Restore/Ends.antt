-- ===== src/Restore/Ends.antt =====
-- prefix_cache.py: the end of a rollback, also when the log cannot be written.
use qsa_hisparse.Prelude.{
  ℕ, ◌≡◌, refl, ◌⊎◌, inl, inr, Bool, true, false, none, some, List, [], ◌∷◌, ◌++◌, has, get, put,
  get-del, done, raised, and_then, after, Bool-cases, Option-cases, Outcome-cases, subst, sym, ◌∙◌,
  arith,
}
use qsa_hisparse.Slots.Defs.{Lease, require, check_phase, drained}
use qsa_hisparse.Slots.Lifecycle.{lease_eq_self}
use qsa_hisparse.Prefix.Invariant.{Sound}
use qsa_hisparse.Runtime.Defs.{
  Runtime, Error as RuntimeError, log_failure, duplicate_release, lease_in, defer, after_release,
}
use qsa_hisparse.Runtime.Release.{IsDeferred, release_one}
use qsa_hisparse.Restore.State.{Transfer, Kv, State, Req}
use qsa_hisparse.Restore.Drain.{Around, lease_of, is_active, already_drained, drain_transfer}
use qsa_hisparse.Restore.Rollback.{
  with_suffix, free_transfer, is_settled, settle, commit_transfer, rollback_fresh, rollback_one,
}
use qsa_hisparse.Restore.Balance.{slots_of, with_suffix-keeps, rollback_one-fresh}
use qsa_hisparse.Restore.Readers.{IsPinned, close_reader_lem}

-- A lease that is in force and drained, and whose request the runtime has.
pub record IsDrained (r : Runtime) (l : Lease) : Type 0 where
  pub in_phase : require r.slots l (drained ∷ []) ≡ none
  pub known : has l.req_pool_idx r.requests ≡ true

IsDrained-IsDeferred : (r : Runtime) (l : Lease) → IsDrained r l → IsDeferred r l
unfolding require check_phase
IsDrained-IsDeferred r l h = record { in_phase = ground (arith, h.in_phase); known = h.known }

lease_in-append : (l : Lease) (ls : List Lease) → lease_in l (ls ++ l ∷ []) ≡ true
unfolding lease_in
lease_in-append l [] = ground (arith, lease_eq_self l)
lease_in-append l (m ∷ ls) = ground (arith, lease_in-append l ls)

-- The release of a drained lease is committed, or it is in the queue of the runtime.
after_release-settles :
    (r : Runtime) (l : Lease) (group log : Bool)
    → IsDrained r l
    → (d : Runtime) × ((after_release r (some l) group log ≡ done d tt)
        ⊎ ((x : RuntimeError) × (after_release r (some l) group log ≡ raised d x)
            × (is_settled d (some l) ≡ true)))
unfolding is_settled is_active after_release defer
after_release-settles r l false true h =
    let (d, runs, rel) = release_one r l true (IsDrained-IsDeferred r l h) in (d, inl runs)
after_release-settles r l false false h =
    let (d, runs, rel) = release_one r l false (IsDrained-IsDeferred r l h) in
    (d, inr (log_failure, runs, ground (arith, rel.gone)))
after_release-settles r l true log h =
    let deferred : Runtime = record r { pending_releases = r.pending_releases ++ l ∷ [] } in
    let in_phase = h.in_phase in
    let ready = (IsDrained-IsDeferred r l h).in_phase in
    elim (Bool-cases (lease_in l r.pending_releases)) [
      | inl queued ↦ (r, inr (duplicate_release, ground arith, ground arith))
      | inr new ↦ elim (Bool-cases log) [
        | inl written ↦ (deferred, inl (ground arith))
        | inr lost ↦ (
          deferred,
          inr (log_failure, ground arith, ground (arith, lease_in-append l r.pending_releases)),
        )
      ]
    ]

settle-ends :
    (s : State) (req : Req) (t : Transfer)
    → Sound s.host
    → IsPinned s.host t.reader
    → (get req.handle (after (settle s req t true)).restoring ≡ none)
      × (get req.handle (after (settle s req t true)).matches ≡ none)
      × ((after (settle s req t true)).freed ≡ s.freed)
unfolding settle
settle-ends s req t v p = elim (Option-cases t.reader) [
  | inl e ↦
      ground
        (arith, get-del req.handle req.handle s.restoring, get-del req.handle req.handle s.matches)
  | inr ((k, snapshot), e) ↦
      let (d, closed, sound, back) = close_reader_lem s.host k v (ground arith) in
      ground
        (arith, get-del req.handle req.handle s.restoring, get-del req.handle req.handle s.matches)
]

-- The state of a rollback that is over.
abbrev pub Ended : ℕ → List ℕ → State → Type 0
Ended h freed s = (get h s.restoring ≡ none) × (get h s.matches ≡ none) × (s.freed ≡ freed)

commit_transfer-ends :
    (s : State) (req : Req) (a : Around) (t : Transfer) (l : Lease)
    → t.lease ≡ some (some l)
    → IsDrained s.runtime l
    → Sound s.host
    → IsPinned s.host t.reader
    → Ended req.handle s.freed (after (commit_transfer s req a t))
unfolding commit_transfer
commit_transfer-ends s req a t l e h v p =
    let (d, runs) = after_release-settles s.runtime l a.free_group a.commit_logged h in
    let ends = settle-ends (record s { runtime = d }) req t v p in
    elim runs [
      | inl fine ↦ ground (arith, e, fine, ends)
      | inr (x, failing, over) ↦
          elim (Outcome-cases (settle (record s { runtime = d }) req t true)) [
            | inl (u, n, c) ↦ ground (arith, e, failing, over, c, ends)
            | inr (u, y, c) ↦ ground (arith, e, failing, over, c, ends)
          ]
    ]

drain_transfer-drained :
    (s : State) (req : Req) (a : Around) (t : Transfer) (l : Lease)
    → t.lease ≡ some (some l)
    → IsDrained s.runtime l
    → (d : State) × (u : Transfer) × (drain_transfer s req a t ≡ done d u)
      × (u.lease ≡ some (some l))
      × (u.reader ≡ t.reader)
      × (d.runtime ≡ s.runtime)
      × (d.host ≡ s.host)
      × (d.freed ++ slots_of u ≡ s.freed ++ slots_of t)
unfolding drain_transfer lease_of already_drained is_active require check_phase
drain_transfer-drained s req a t l e h =
    let found : Transfer = record t { lease = some (some l) } in
    let in_phase = h.in_phase in
    elim (Bool-cases t.drained) [
      | inl was ↦ (
        record s { restoring = put req.handle found s.restoring },
        found,
        ground (arith, e),
        refl,
        refl,
        refl,
        refl,
        refl,
      )
      | inr not_yet ↦ (
        record s { restoring = put req.handle found s.restoring },
        record found { drained = true },
        ground (arith, e, in_phase),
        refl,
        refl,
        refl,
        refl,
        refl,
      )
    ]

rollback_fresh-ends :
    (s : State) (req : Req) (kv : Kv) (a : Around) (t : Transfer) (l : Lease)
    → t.fresh ≡ true
    → t.lease ≡ some (some l)
    → IsDrained s.runtime l
    → Sound s.host
    → IsPinned s.host t.reader
    → Ended req.handle (s.freed ++ slots_of t) (after (rollback_fresh s req kv a t))
unfolding rollback_fresh free_transfer
rollback_fresh-ends s req kv a t l f e h v p =
    let known : Transfer = record t {
      req_idx = elim t.req_idx [ none ↦ some kv.req_pool_idx | some idx ↦ some idx ];
    } in
    let noted : State = record s { restoring = put req.handle known s.restoring } in
    let (d, u, runs, leased, read, same_runtime, same_host, same) =
      drain_transfer-drained noted req a known l e h in
    let emptied = free_transfer d req u in
    let ends : Ended req.handle (d.freed ++ slots_of u)
        (after (commit_transfer emptied.0 req a emptied.1)) =
      commit_transfer-ends emptied.0 req a emptied.1 l leased
        (subst (λ r. IsDrained r l) (sym same_runtime) h) (subst Sound (sym same_host) v)
        (subst (λ c. IsPinned c u.reader) (sym same_host)
          (subst (λ r. IsPinned s.host r) (sym read) p)) in
    rw (runs, and_then) (ends.0, ends.1, ends.2 ∙ same)

-- An attempt to roll back a new row whose record has its lease, where the lease is in force and drained
-- and the runtime has its request, ends the rollback: whether the release is committed or waits in the
-- queue of the runtime, and whether the log can be written or not, the slots are given back, and the
-- record and the match of the request are gone. The host cache is sound, and the reader of the record
-- is open if there is one. An earlier attempt that raised behind the drain leaves such a record.
pub rollback_one-ends :
    (s : State) (req : Req) (kv : Kv) (a : Around) (t : Transfer) (l : Lease)
    → get req.handle s.restoring ≡ some t
    → t.fresh ≡ true
    → t.lease ≡ some (some l)
    → IsDrained s.runtime l
    → Sound s.host
    → IsPinned s.host t.reader
    → Ended req.handle (s.freed ++ slots_of (with_suffix a kv t)) (after (rollback_one s req kv a))
unfolding with_suffix
rollback_one-ends s req kv a t l here f e h v p =
    let found = with_suffix a kv t in
    let fresh : found.fresh ≡ true = (with_suffix-keeps a kv t).0 ∙ f in
    let noted : State = record s { restoring = put req.handle found s.restoring } in
    subst (λ o. Ended req.handle (s.freed ++ slots_of found) (after o))
      (sym (rollback_one-fresh s req kv a t here fresh))
      (rollback_fresh-ends noted req kv a found l fresh e h v p)
