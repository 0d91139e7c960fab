-- ===== src/Coordinator/Votes.antt =====
-- The votes of a group, and the leases of a queue.
use qsa_hisparse.Prelude.{
  ℕ, zero, suc, ◌≤◌, ◌≡◌, ◌↔◌, refl, ap, true, false, not, some, List, [], ◌∷◌, ◌==◌, length, take,
  drop, get_elem?, inl, inr, Option-cases, Outcome-cases, done, arith,
}
use qsa_hisparse.Slots.Defs.{Slots, Lease, lease_eq_iff, admit_decode}
use qsa_hisparse.Coordinator.Defs.{
  Item, Rank, Vote, vote, leases, leases_eq, disagree, least_count, admit_all, gather, count_ready,
}

pub leases_eq_iff : (xs ys : List Lease) → (leases_eq xs ys ≡ true) ↔ (xs ≡ ys)
unfolding leases_eq
leases_eq_iff [] [] = ground arith
leases_eq_iff [] (b ∷ bs) = ground arith
leases_eq_iff (a ∷ xs) [] = ground arith
leases_eq_iff (a ∷ xs) (b ∷ bs) = ground (arith, lease_eq_iff a b, leases_eq_iff xs bs)

pub gather-cons :
    (x : Rank) (rs : List Rank) (vs : List Vote)
    → gather (x ∷ rs) ≡ some vs
    → (v : Vote) × (ws : List Vote) × (vote x ≡ done tt v) × (gather rs ≡ some ws) × (vs ≡ v ∷ ws)
unfolding gather
gather-cons x rs vs e = elim (Outcome-cases (vote x)) [
  | inr (u, err, bad) ↦ absurd (ground arith)
  | inl (u, v, good) ↦ elim (Option-cases (gather rs)) [
    | inl gone ↦ absurd (ground arith)
    | inr (ws, rest) ↦ (v, ws, good, rest, ground arith)
  ]
]

-- Each member of the group has its vote in its place.
pub gather-vote :
    (rs : List Rank) (vs : List Vote) (i : ℕ) (r : Rank)
    → gather rs ≡ some vs
    → get_elem? rs i ≡ some r
    → (v : Vote) × (vote r ≡ done tt v) × (get_elem? vs i ≡ some v)
gather-vote [] vs i r e f = absurd (ground arith)
gather-vote (x ∷ rs) vs zero r e f =
    let (v, ws, voted, rest, whole) = gather-cons x rs vs e in (v, ground arith, ground arith)
gather-vote (x ∷ rs) vs (suc i) r e f =
    let (v, ws, voted, rest, whole) = gather-cons x rs vs e in
    let (w, its, there) = gather-vote rs ws i r rest f in (w, its, ground arith)

pub agree-votes :
    (mine v : Vote) (vs : List Vote) (i : ℕ)
    → disagree mine vs ≡ false
    → get_elem? vs i ≡ some v
    → (v.signatures ≡ mine.signatures) × (v.target ≡ mine.target)
unfolding disagree
agree-votes mine v [] i e f = absurd (ground arith)
agree-votes mine v (w ∷ vs) zero e f =
    (ground (arith, leases_eq_iff w.signatures mine.signatures), ground arith)
agree-votes mine v (w ∷ vs) (suc i) e f = agree-votes mine v vs i (ground arith) f

pub least_count_le :
    (v : Vote) (vs : List Vote) (i : ℕ) → get_elem? vs i ≡ some v → least_count vs ≤ v.count
unfolding least_count
least_count_le v [] i e = absurd (ground arith)
least_count_le v (w ∷ []) zero e = ground arith
least_count_le v (w ∷ []) (suc i) e = absurd (ground arith)
least_count_le v (w ∷ x ∷ vs) zero e = ground arith
least_count_le v (w ∷ x ∷ vs) (suc i) e = ground (arith, least_count_le v (x ∷ vs) i)

pub vote-signatures :
    (r : Rank) (u : Unit {0}) (v : Vote)
    → vote r ≡ done u v
    → (v.signatures ≡ leases r.ack_staging_queue)
      × (v.target ≡ r.initial_batch_target)
      × (count_ready r r.ack_staging_queue ≡ done tt v.count)
unfolding vote
vote-signatures r u v e = elim (Outcome-cases (count_ready r r.ack_staging_queue)) [
  | inl (t, n, good) ↦ (ground arith, ground arith, ground arith)
  | inr (t, x, bad) ↦ absurd (ground arith)
]

pub leases-take : (n : ℕ) (q : List Item) → leases (take n q) ≡ take n (leases q)
leases-take zero q = refl
leases-take (suc n) [] = refl
leases-take (suc n) (x ∷ q) = ap (◌∷◌ x.lease) (leases-take n q)

pub leases-drop : (n : ℕ) (q : List Item) → leases (drop n q) ≡ drop n (leases q)
leases-drop zero q = refl
leases-drop (suc n) [] = refl
leases-drop (suc n) (x ∷ q) = leases-drop n q

pub length-leases : (q : List Item) → length (leases q) ≡ length q
length-leases [] = refl
length-leases (x ∷ q) = ap suc (length-leases q)

pub length-admit_all :
    (s t : Slots) (q : List Item) (xs : List ℕ) → admit_all s q ≡ done t xs → length xs ≡ length q
unfolding admit_all
length-admit_all s t [] xs e = ground arith
length-admit_all s t (x ∷ q) xs e = elim (Outcome-cases (admit_decode s x.lease)) [
  | inr (u, err, bad) ↦ absurd (ground arith)
  | inl (u, w, good) ↦ elim (Outcome-cases (admit_all u q)) [
    | inr (d, err, bad) ↦ absurd (ground arith)
    | inl (d, ys, rest) ↦ ground (arith, length-admit_all u d q ys)
  ]
]

-- A rank waits for its initial batch exactly while it has a target.
abbrev pub IsSettled : Rank → Type 0
IsSettled r = r.wait_initial_pair ≡ not (r.initial_batch_target == 0)
