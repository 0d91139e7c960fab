-- ===== src/Restore/Balance.antt =====
-- prefix_cache.py: a rollback gives back every slot once, however often it is interrupted and retried.
use qsa_hisparse.Prelude.{
  ℕ, ◌≡◌, refl, sym, ◌∙◌, ap, inl, inr, Bool, true, Option, none, some, List, [], ◌∷◌, ◌++◌,
  is_some, get, put, get-put, get-del, done, after, Option-cases, Outcome-cases, subst, arith,
}
use mathlib.Core.List.{append-nil}
use qsa_hisparse.Slots.Defs.{Lease}
use qsa_hisparse.Runtime.Defs.{after_release}
use qsa_hisparse.Restore.State.{Transfer, Kv, State, Req, close_match, release_aborted_request}
use qsa_hisparse.Restore.Drain.{Around, lease_of, known_idx, release_logged, drain_transfer}
use qsa_hisparse.Restore.Rollback.{
  with_suffix, slots_in, suffix_slots, free_transfer, is_settled, settle, commit_transfer,
  rollback_fresh, rollback_one,
}

abbrev pub slots_of : Transfer → List ℕ
slots_of t = slots_in t.prefix ++ suffix_slots t.suffix

-- What was given back and what the record still holds, together.
abbrev pub BalancedAt : List ℕ → List ℕ → Option Transfer → Type 0
BalancedAt total freed none = freed ≡ total
BalancedAt total freed (some t) =
    (t.fresh ≡ true) × (is_some t.suffix ≡ true) × (freed ++ slots_of t ≡ total)

abbrev pub Balanced : List ℕ → ℕ → State → Type 0
Balanced total h s = BalancedAt total s.freed (get h s.restoring)

-- The same allocations, before they are given back.
abbrev Alike : Transfer → Transfer → Type 0
Alike t u = (u.prefix ≡ t.prefix) × (u.suffix ≡ t.suffix) × (u.fresh ≡ t.fresh)

drain_transfer-keeps :
    (s : State) (req : Req) (a : Around) (t : Transfer)
    → ((after (drain_transfer s req a t)).freed ≡ s.freed)
      × ((u : Transfer) × (get req.handle (after (drain_transfer s req a t)).restoring ≡ some u)
          × Alike t u)
unfolding drain_transfer
drain_transfer-keeps s req a t =
    let found : Transfer = record t { lease = some (lease_of s.runtime t) } in
    elim (Outcome-cases (release_logged s.runtime (known_idx t) req.rid a)) [
      | inl (r, lease, e) ↦ (
        ground arith,
        (
          found,
          ground (arith, get-put req.handle req.handle found s.restoring),
          (refl, refl, refl),
        ),
      )
      | inr (r, x, e) ↦ (
        ground arith,
        (
          found,
          ground (arith, get-put req.handle req.handle found s.restoring),
          (refl, refl, refl),
        ),
      )
    ]

drain_transfer-Alike :
    (s d : State) (req : Req) (a : Around) (t u : Transfer)
    → drain_transfer s req a t ≡ done d u
    → (d.freed ≡ s.freed) × Alike t u
unfolding drain_transfer
drain_transfer-Alike s d req a t u h = ground arith

settle-keeps :
    (s : State) (req : Req) (t : Transfer) (over : Bool) (total : List ℕ)
    → s.freed ≡ total
    → Balanced total req.handle s
    → Balanced total req.handle (after (settle s req t over))
unfolding settle
settle-keeps s req t over total f b = ground (arith, get-del req.handle req.handle s.restoring)

commit_transfer-keeps :
    (s : State) (req : Req) (a : Around) (t : Transfer) (total : List ℕ)
    → s.freed ≡ total
    → Balanced total req.handle s
    → Balanced total req.handle (after (commit_transfer s req a t))
unfolding commit_transfer
commit_transfer-keeps s req a t total f b =
    let lease : Option Lease = elim t.lease [ none ↦ none | some l ↦ l ] in
    elim (Outcome-cases (after_release s.runtime lease a.free_group a.commit_logged)) [
      | inl (r, u, e) ↦ ground (arith, settle-keeps (record s { runtime = r }) req t true total f b)
      | inr (r, x, e) ↦
          ground
            (arith, settle-keeps (record s { runtime = r }) req t (is_settled r lease) total f b)
    ]

free_transfer-keeps :
    (s : State) (req : Req) (t : Transfer)
    → t.fresh ≡ true
    → ((free_transfer s req t).0.freed ≡ s.freed ++ slots_of t)
      × Balanced (s.freed ++ slots_of t) req.handle (free_transfer s req t).0
unfolding free_transfer
free_transfer-keeps s req t f =
    let emptied : Transfer = record t { prefix = none; suffix = some none } in
    let here : get req.handle (put req.handle emptied s.restoring) ≡ some emptied =
      ground (arith, get-put req.handle req.handle emptied s.restoring) in
    (refl, rw here (f, refl, append-nil (s.freed ++ slots_of t)))

rollback_fresh-Balanced :
    (s : State) (req : Req) (kv : Kv) (a : Around) (t : Transfer)
    → t.fresh ≡ true
    → is_some t.suffix ≡ true
    → Balanced (s.freed ++ slots_of t) req.handle (after (rollback_fresh s req kv a t))
unfolding rollback_fresh
rollback_fresh-Balanced s req kv a t f g =
    let known : Transfer = record t {
      req_idx = elim t.req_idx [ none ↦ some kv.req_pool_idx | some idx ↦ some idx ];
    } in
    let noted : State = record s { restoring = put req.handle known s.restoring } in
    let total = s.freed ++ slots_of t in
    elim (Outcome-cases (drain_transfer noted req a known)) [
      | inr (d, x, e) ↦
          let (kept, (u, here, alike)) = drain_transfer-keeps noted req a known in
          rw e (ground arith)
      | inl (d, u, e) ↦
          let (kept, alike) = drain_transfer-Alike noted d req a known u e in
          let same : d.freed ++ slots_of u ≡ total = ground arith in
          let (freed, balanced) = free_transfer-keeps d req u (ground arith) in
          let emptied = free_transfer d req u in
          rw e (
            commit_transfer-keeps emptied.0 req a emptied.1 total (freed ∙ same)
              (subst (λ x. Balanced x req.handle emptied.0) same balanced))
    ]

pub with_suffix-keeps :
    (a : Around) (kv : Kv) (t : Transfer)
    → ((with_suffix a kv t).fresh ≡ t.fresh)
      × (is_some (with_suffix a kv t).suffix ≡ true)
      × (is_some t.suffix ≡ true → slots_of (with_suffix a kv t) ≡ slots_of t)
unfolding with_suffix
with_suffix-keeps a kv t = ground arith

pub rollback_one-fresh :
    (s : State) (req : Req) (kv : Kv) (a : Around) (t : Transfer)
    → get req.handle s.restoring ≡ some t
    → (with_suffix a kv t).fresh ≡ true
    → rollback_one s req kv a
      ≡ rollback_fresh
          (record s { restoring = put req.handle (with_suffix a kv t) s.restoring })
          req
          kv
          a
          (with_suffix a kv t)
unfolding rollback_one
rollback_one-fresh s req kv a t here fresh = ground arith

-- A first rollback of a new row, and a later one.
rollback_one-Balanced :
    (s : State) (req : Req) (kv : Kv) (a : Around) (t : Transfer)
    → get req.handle s.restoring ≡ some t
    → t.fresh ≡ true
    → Balanced
        (s.freed ++ slots_of (with_suffix a kv t))
        req.handle
        (after (rollback_one s req kv a))
rollback_one-Balanced s req kv a t here f =
    let (kept, found, alike) = with_suffix-keeps a kv t in
    let fresh : (with_suffix a kv t).fresh ≡ true = kept ∙ f in
    let noted : State = record s { restoring = put req.handle (with_suffix a kv t) s.restoring } in
    subst (λ o. Balanced (s.freed ++ slots_of (with_suffix a kv t)) req.handle (after o))
      (sym (rollback_one-fresh s req kv a t here fresh))
      (rollback_fresh-Balanced noted req kv a (with_suffix a kv t) fresh found)

absent :
    (s : State) (req : Req) (kv : Kv) (a : Around) (total : List ℕ)
    → get req.handle s.restoring ≡ none
    → s.freed ≡ total
    → Balanced total req.handle (after (rollback_one s req kv a))
unfolding rollback_one release_aborted_request close_match
absent s req kv a total e f = ground arith

rollback_again-Balanced :
    (s : State) (req : Req) (kv : Kv) (a : Around) (total : List ℕ)
    → Balanced total req.handle s
    → Balanced total req.handle (after (rollback_one s req kv a))
rollback_again-Balanced s req kv a total b = elim (Option-cases (get req.handle s.restoring)) [
  | inl e ↦ absent s req kv a total e (ground arith)
  | inr (t, e) ↦
      let (f, g, sum) = subst (λ x. BalancedAt total s.freed x) e b in
      let same : s.freed ++ slots_of (with_suffix a kv t) ≡ total =
        ap (λ l. s.freed ++ l) ((with_suffix-keeps a kv t).2 g) ∙ sum in
      subst (λ x. Balanced x req.handle (after (rollback_one s req kv a))) same
        (rollback_one-Balanced s req kv a t e f)
]

-- The rollback of a request, tried again and again.
abbrev pub attempts : State → Req → List (Kv × Around) → State
attempts s req [] = s
attempts s req ((kv, a) ∷ rest) = attempts (after (rollback_one s req kv a)) req rest

attempts-Balanced :
    (s : State) (req : Req) (rest : List (Kv × Around)) (total : List ℕ)
    → Balanced total req.handle s
    → Balanced total req.handle (attempts s req rest)
attempts-Balanced s req [] total b = b
attempts-Balanced s req ((kv, a) ∷ rest) total b =
    attempts-Balanced (after (rollback_one s req kv a)) req rest total
      (rollback_again-Balanced s req kv a total b)

-- A first allocation that is rolled back gives back exactly its prefix and its suffix, each slot once:
-- however often the rollback is interrupted by a failing drain, commit or log write and made again, what
-- the allocator got back and what the record still holds are together those slots, and once the record
-- is gone the allocator has them all.
pub rollback_one-attempts :
    (s : State) (req : Req) (kv : Kv) (a : Around) (rest : List (Kv × Around)) (t : Transfer)
    → get req.handle s.restoring ≡ some t
    → t.fresh ≡ true
    → Balanced
        (s.freed ++ slots_of (with_suffix a kv t))
        req.handle
        (attempts s req ((kv, a) ∷ rest))
rollback_one-attempts s req kv a rest t here f =
    attempts-Balanced (after (rollback_one s req kv a)) req rest
      (s.freed ++ slots_of (with_suffix a kv t)) (rollback_one-Balanced s req kv a t here f)
