-- ===== src/Coordinator/Ready.antt =====
-- No request decodes before its copies are complete on every rank, and a group that agrees goes on.
use qsa_hisparse.Prelude.{
  ℕ, zero, suc, ◌≤◌, ◌≡◌, true, none, some, List, [], ◌∷◌, length, take, get_elem?, inl, inr,
  Outcome-cases, done, arith,
}
use qsa_hisparse.Slots.Defs.{host_ready, require}
use qsa_hisparse.Coordinator.Defs.{
  Item, Rank, Vote, least_count, collect_ready_reqs, total_queued, gather, count_ready,
  check_request,
}
use qsa_hisparse.Coordinator.Votes.{gather-vote, least_count_le, length-admit_all, vote-signatures}
use qsa_hisparse.Coordinator.Converge.{Course, idle, waits, releases, collect-Course, released}

-- An item whose request is the one that was parked and whose copies are complete.
pub record IsReady (r : Rank) (item : Item) : Type 0 where
  pub parked : require r.slots item.lease (host_ready ∷ []) ≡ none
  pub known : check_request r item.lease.req_pool_idx item.lease.rid ≡ none
  pub copied : item.ready ≡ true

abbrev pub AllReady : Rank → List Item → Type 0
AllReady r [] = Unit {0}
AllReady r (item ∷ items) = IsReady r item × AllReady r items

count_ready-AllReady :
    (r : Rank) (q : List Item) (n : ℕ) → count_ready r q ≡ done tt n → AllReady r (take n q)
unfolding count_ready
count_ready-AllReady r q zero e = tt
count_ready-AllReady r [] (suc n) e = tt
count_ready-AllReady r (x ∷ q) (suc n) e = (
  record { parked = ground arith; known = ground arith; copied = ground arith },
  elim (Outcome-cases (count_ready r q)) [
    | inl (u, m, good) ↦
        let whole : count_ready r q ≡ done tt n = ground arith in count_ready-AllReady r q n whole
    | inr (u, x', bad) ↦ absurd (ground arith)
  ],
)

AllReady-take :
    (r : Rank) (q : List Item) (m n : ℕ) → m ≤ n → AllReady r (take n q) → AllReady r (take m q)
AllReady-take r q zero n h a = tt
AllReady-take r [] (suc m) n h a = tt
AllReady-take r (x ∷ q) (suc m) zero h a = absurd (omega arith)
AllReady-take r (x ∷ q) (suc m) (suc n) h a = (a.0, AllReady-take r q m n (omega arith) a.1)

-- The smallest count is covered by the ready requests of every member.
pub group_ready :
    (rs : List Rank) (vs : List Vote) (j : ℕ) (b : Rank)
    → gather rs ≡ some vs
    → get_elem? rs j ≡ some b
    → AllReady b (take (least_count vs) b.ack_staging_queue)
group_ready rs vs j b e g =
    let (vb, voted, there) = gather-vote rs vs j b e g in
    let (_, _, counted) = vote-signatures b tt vb voted in
    AllReady-take b b.ack_staging_queue (least_count vs) vb.count (least_count_le vb vs j there)
      (count_ready-AllReady b b.ack_staging_queue vb.count counted)

length-take : (n : ℕ) (q : List Item) → length (take n q) ≤ n
length-take zero q = omega arith
length-take (suc n) [] = omega arith
length-take (suc n) (x ∷ q) = omega (arith, length-take n q)

Course-count :
    (total : ℕ) (vs : List Vote) (r r' : Rank) (xs : List ℕ)
    → Course total vs r r' xs
    → length xs ≤ least_count vs
Course-count total vs r r' xs (idle p q e) = ground arith
Course-count total vs r r' xs (waits p q s t e) = ground arith
Course-count total vs r r' xs (releases p q e) =
    let (admitted, _, _, _) = released r r' (least_count vs) xs e in
    omega (
      arith,
      length-admit_all r.slots r'.slots (take (least_count vs) r.ack_staging_queue) xs admitted,
      length-take (least_count vs) r.ack_staging_queue,
    )

-- When a rank lets `length xs` requests go, that many at the front of the queue of every rank of the
-- group are still the parked requests of their leases, and the copies of each are complete there.
pub collect_ready :
    (rs : List Rank) (vs : List Vote) (i j : ℕ) (a b a' : Rank) (xs : List ℕ)
    → gather rs ≡ some vs
    → get_elem? rs i ≡ some a
    → get_elem? rs j ≡ some b
    → collect_ready_reqs (total_queued rs) vs a ≡ done a' xs
    → AllReady b (take (length xs) b.ack_staging_queue)
collect_ready rs vs i j a b a' xs e f g c =
    let (va, voted, _) = gather-vote rs vs i a e f in
    let (course, _) = collect-Course (total_queued rs) vs a a' xs va voted c in
    AllReady-take b b.ack_staging_queue (length xs) (least_count vs)
      (Course-count (total_queued rs) vs a a' xs course) (group_ready rs vs j b e g)
