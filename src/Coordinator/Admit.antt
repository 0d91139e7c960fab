-- ===== src/Coordinator/Admit.antt =====
-- A group that agrees goes on: its ready requests decode.
use qsa_hisparse.Prelude.{
  ℕ, zero, suc, ◌<◌, ◌≤◌, true, Outcome-cases, ◌≡◌, refl, sym, ◌∙◌, ap, false, ◌&&◌, none, some,
  List, [], ◌∷◌, subst, ltb, ◌==◌, if◌then◌else◌, take, drop, get_elem?, inl, inr, ◌⊎◌, ◌≢◌,
  Bool-cases, done, arith, get, put, get-put, after,
}
use qsa_hisparse.Slots.Defs.{
  Slots, Lease, Phase, host_ready, decode, require, admit_decode, set_phase,
}
use qsa_hisparse.Slots.Invariant.{Inv}
use qsa_hisparse.Slots.Moves.{admit_decode-Inv}
use qsa_hisparse.Coordinator.Defs.{
  Item, Rank, Vote, vote, leases, disagree, least_count, admit_all, release_ready,
  collect_ready_reqs, total_queued, gather,
}
use qsa_hisparse.Coordinator.Converge.{released}
use qsa_hisparse.Coordinator.Ready.{AllReady, group_ready}

-- No two leases of the list are of one request slot.
abbrev pub Avoids : ℕ → List Lease → Type 0
Avoids k [] = Unit {0}
Avoids k (l ∷ ls) = (l.req_pool_idx ≢ k) × Avoids k ls

abbrev pub Apart : List Lease → Type 0
Apart [] = Unit {0}
Apart (l ∷ ls) = Avoids l.req_pool_idx ls × Apart ls

abbrev AllParked : Slots → List Lease → Type 0
AllParked s [] = Unit {0}
AllParked s (l ∷ ls) = (require s l (host_ready ∷ []) ≡ none) × AllParked s ls

abbrev pub AllDecode : Slots → List Lease → Type 0
AllDecode s [] = Unit {0}
AllDecode s (l ∷ ls) = (require s l (decode ∷ []) ≡ none) × AllDecode s ls

admit_decode_runs :
    (s : Slots) (l : Lease)
    → require s l (host_ready ∷ []) ≡ none
    → (admit_decode s l ≡ done (set_phase s l decode) tt)
      × (require (set_phase s l decode) l (decode ∷ []) ≡ none)
unfolding admit_decode require
admit_decode_runs s l e =
    (ground arith, ground (arith, get-put l.req_pool_idx l.req_pool_idx decode s.phases))

require_elsewhere :
    (s : Slots) (l m : Lease) (p : Phase) (ps : List Phase)
    → m.req_pool_idx ≢ l.req_pool_idx
    → require (set_phase s l p) m ps ≡ require s m ps
unfolding require
require_elsewhere s l m p ps h =
    let same : get m.req_pool_idx (put l.req_pool_idx p s.phases) ≡ get m.req_pool_idx s.phases =
      ground (arith, get-put l.req_pool_idx m.req_pool_idx p s.phases) in
    rw same refl

AllParked-set_phase :
    (s : Slots) (l : Lease) (ls : List Lease)
    → Avoids l.req_pool_idx ls
    → AllParked s ls
    → AllParked (set_phase s l decode) ls
AllParked-set_phase s l [] h a = tt
AllParked-set_phase s l (m ∷ ls) h a =
    (require_elsewhere s l m decode (host_ready ∷ []) h.0 ∙ a.0, AllParked-set_phase s l ls h.1 a.1)

-- What the loop over the ready items does: it returns, every one of them decodes, and the rest of the
-- table is as it was.
record Admits (s t : Slots) (ls : List Lease) : Type 0 where
  decoding : AllDecode t ls
  others :
      (m : Lease) (ps : List Phase) → Avoids m.req_pool_idx ls → require t m ps ≡ require s m ps
  kept : Inv s → Inv t

Avoids-sym :
    (l m : Lease) (ls : List Lease)
    → Avoids m.req_pool_idx (l ∷ ls)
    → m.req_pool_idx ≢ l.req_pool_idx
Avoids-sym l m ls h e = h.0 (sym e)

admit_all_runs :
    (s : Slots) (q : List Item)
    → Apart (leases q)
    → AllParked s (leases q)
    → (t : Slots) × (xs : List ℕ) × (admit_all s q ≡ done t xs) × Admits s t (leases q)
unfolding admit_all
admit_all_runs s [] h a =
    (s, [], refl, record { decoding = tt; others = λ m ps v. refl; kept = λ v. v })
admit_all_runs s (x ∷ q) h a =
    let (runs, first) = admit_decode_runs s x.lease a.0 in
    let (t, xs, rest, more) =
      admit_all_runs (set_phase s x.lease decode) q h.1
        (AllParked-set_phase s x.lease (leases q) h.0 a.1) in
    (
      t,
      x.req ∷ xs,
      ground arith,
      record {
        decoding = (more.others x.lease (decode ∷ []) h.0 ∙ first, more.decoding);
        others = λ m ps v.
            more.others m ps v.1
            ∙ require_elsewhere s x.lease m decode ps (Avoids-sym x.lease m (leases q) v);
        kept = λ v. more.kept (subst Inv (ap after runs) (admit_decode-Inv s x.lease v));
      },
    )

abbrev pub requests_of : List Item → List ℕ
requests_of [] = []
requests_of (item ∷ items) = item.req ∷ requests_of items

admit_all-requests_of :
    (s t : Slots) (q : List Item) (xs : List ℕ) → admit_all s q ≡ done t xs → xs ≡ requests_of q
unfolding admit_all
admit_all-requests_of s t [] xs e = ground arith
admit_all-requests_of s t (x ∷ q) xs e = elim (Outcome-cases (admit_decode s x.lease)) [
  | inr (u, y, bad) ↦ absurd (ground arith)
  | inl (u, y, good) ↦ elim (Outcome-cases (admit_all u q)) [
    | inr (w, z, bad) ↦ absurd (ground arith)
    | inl (w, ys, rest) ↦ ground (arith, admit_all-requests_of u w q ys rest)
  ]
]

release_ready-waits :
    (r r' : Rank) (n : ℕ) (xs : List ℕ)
    → release_ready r n ≡ done r' xs
    → (r'.wait_initial_pair ≡ false) × (xs ≡ requests_of (take n r.ack_staging_queue))
unfolding release_ready
release_ready-waits r r' n xs e =
    elim (Outcome-cases (admit_all r.slots (take n r.ack_staging_queue))) [
      | inr (u, y, bad) ↦ absurd (ground arith)
      | inl (u, ys, good) ↦
          ground (arith, admit_all-requests_of r.slots u (take n r.ack_staging_queue) ys good)
    ]

AllParked-AllReady : (r : Rank) (q : List Item) → AllReady r q → AllParked r.slots (leases q)
AllParked-AllReady r [] a = tt
AllParked-AllReady r (x ∷ q) a = (a.0.parked, AllParked-AllReady r q a.1)

Avoids-take : (k n : ℕ) (q : List Item) → Avoids k (leases q) → Avoids k (leases (take n q))
Avoids-take k zero q h = tt
Avoids-take k (suc n) [] h = tt
Avoids-take k (suc n) (x ∷ q) h = (h.0, Avoids-take k n q h.1)

Apart-take : (n : ℕ) (q : List Item) → Apart (leases q) → Apart (leases (take n q))
Apart-take zero q h = tt
Apart-take (suc n) [] h = tt
Apart-take (suc n) (x ∷ q) h = (Avoids-take x.lease.req_pool_idx n q h.0, Apart-take n q h.1)

release_runs :
    (r : Rank) (n : ℕ)
    → Apart (leases r.ack_staging_queue)
    → AllReady r (take n r.ack_staging_queue)
    → Inv r.slots
    → (r' : Rank) × (xs : List ℕ) × (release_ready r n ≡ done r' xs)
      × AllDecode r'.slots (leases (take n r.ack_staging_queue))
      × Inv r'.slots
unfolding release_ready
release_runs r n h a v =
    let (t, xs, runs, more) =
      admit_all_runs r.slots (take n r.ack_staging_queue) (Apart-take n r.ack_staging_queue h)
        (AllParked-AllReady r (take n r.ack_staging_queue) a) in
    (
      record r {
        slots = t;
        ack_staging_queue = drop n r.ack_staging_queue;
        wait_initial_pair = false;
        initial_batch_target = if r.wait_initial_pair then 0 else r.initial_batch_target;
      },
      xs,
      ground arith,
      more.decoding,
      more.kept v,
    )

-- In a group whose members all vote and agree, a rank whose queue holds at most one lease of each
-- request slot returns. When nothing is queued in the group, or the rank still waits for its initial
-- batch and the smallest count is below it, the rank stays as it is and lets nothing go. Otherwise it
-- takes as many items off the front of its queue as the smallest count says, returns their requests,
-- their leases decode, and it waits for no initial batch any more. The lease table keeps its invariant.
pub collect_succeeds :
    (rs : List Rank) (vs : List Vote) (i : ℕ) (a : Rank) (mine : Vote)
    → gather rs ≡ some vs
    → get_elem? rs i ≡ some a
    → vote a ≡ done tt mine
    → disagree mine vs ≡ false
    → Apart (leases a.ack_staging_queue)
    → Inv a.slots
    → (a' : Rank) × (xs : List ℕ) × (collect_ready_reqs (total_queued rs) vs a ≡ done a' xs)
      × Inv a'.slots
      × (((a' ≡ a)
            × (xs ≡ [])
            × ((total_queued rs ≡ 0)
                ⊎ ((a.wait_initial_pair ≡ true) × (least_count vs < a.initial_batch_target))))
          ⊎ ((0 < total_queued rs)
              × ((a.wait_initial_pair ≡ false) ⊎ (a.initial_batch_target ≤ least_count vs))
              × AllDecode a'.slots (leases (take (least_count vs) a.ack_staging_queue))
              × (xs ≡ requests_of (take (least_count vs) a.ack_staging_queue))
              × (a'.ack_staging_queue ≡ drop (least_count vs) a.ack_staging_queue)
              × (a'.wait_initial_pair ≡ false)))
unfolding collect_ready_reqs
collect_succeeds rs vs i a mine e f voted fine h v = elim (Bool-cases (total_queued rs == 0)) [
  | inl nothing ↦ (a, [], ground arith, v, inl (refl, refl, inl (ground arith)))
  | inr queued ↦
      elim (Bool-cases (a.wait_initial_pair && ltb (least_count vs) a.initial_batch_target)) [
        | inl short ↦ (a, [], ground arith, v, inl (refl, refl, inr (ground arith, ground arith)))
        | inr enough ↦
            let (a', xs, runs, decoding, kept) =
              release_runs a (least_count vs) h (group_ready rs vs i a e f) v in
            let (_, rest, _, _) = released a a' (least_count vs) xs runs in
            let (waits, returned) = release_ready-waits a a' (least_count vs) xs runs in
            (
              a',
              xs,
              ground arith,
              kept,
              inr (ground arith, ground arith, decoding, returned, rest, waits),
            )
      ]
]
