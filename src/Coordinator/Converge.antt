-- ===== src/Coordinator/Converge.antt =====
-- The ranks of a group admit the same leases, in the same order.
use qsa_hisparse.Prelude.{
  ℕ, zero, suc, ◌≤◌, ◌<◌, ◌≡◌, refl, sym, ◌∙◌, ap, true, false, ◌&&◌, some, List, [], ◌∷◌, ltb,
  ◌==◌, if◌then◌else◌, length, take, drop, get_elem?, inl, inr, ◌⊎◌, Bool-cases, Outcome-cases,
  done, arith,
}
use qsa_hisparse.Coordinator.Defs.{
  Item, Rank, Vote, vote, leases, disagree, least_count, admit_all, release_ready,
  collect_ready_reqs, total_queued, gather,
}
use qsa_hisparse.Coordinator.Votes.{
  IsSettled, agree-votes, gather-vote, leases-drop, leases-take, length-admit_all, length-leases,
  vote-signatures,
}

-- How a rank that returns got there: the group has nothing queued, it waits, or it let go as many as
-- the smallest count.
pub data Course (total : ℕ) (vs : List Vote) (r r' : Rank) (xs : List ℕ) : Type 0 where
  idle : total ≡ 0 → r' ≡ r → xs ≡ [] → Course total vs r r' xs
  waits :
      0 < total
      → r.wait_initial_pair ≡ true
      → least_count vs < r.initial_batch_target
      → r' ≡ r
      → xs ≡ []
      → Course total vs r r' xs
  releases :
      0 < total
      → ((r.wait_initial_pair ≡ false) ⊎ (r.initial_batch_target ≤ least_count vs))
      → release_ready r (least_count vs) ≡ done r' xs
      → Course total vs r r' xs

pub collect-Course :
    (total : ℕ) (vs : List Vote) (r r' : Rank) (xs : List ℕ) (mine : Vote)
    → vote r ≡ done tt mine
    → collect_ready_reqs total vs r ≡ done r' xs
    → Course total vs r r' xs × ((total ≡ 0) ⊎ (disagree mine vs ≡ false))
unfolding collect_ready_reqs
collect-Course total vs r r' xs mine voted e = elim (Bool-cases (total == 0)) [
  | inl none_queued ↦ (idle (ground arith) (ground arith) (ground arith), inl (ground arith))
  | inr queued ↦ elim (Bool-cases (disagree mine vs)) [
    | inl bad ↦ absurd (ground arith)
    | inr good ↦ (
      elim (Bool-cases (r.wait_initial_pair && ltb (least_count vs) r.initial_batch_target)) [
        | inl short ↦
            waits (ground arith) (ground arith) (ground arith) (ground arith) (ground arith)
        | inr enough ↦ releases (ground arith) (met enough) (ground arith)
      ],
      inr good,
    )
  ]
]
  where
    met :
        (r.wait_initial_pair && ltb (least_count vs) r.initial_batch_target) ≡ false
        → (r.wait_initial_pair ≡ false) ⊎ (r.initial_batch_target ≤ least_count vs)
    met f = ground arith

pub released :
    (r r' : Rank) (n : ℕ) (xs : List ℕ)
    → release_ready r n ≡ done r' xs
    → (admit_all r.slots (take n r.ack_staging_queue) ≡ done r'.slots xs)
      × (r'.ack_staging_queue ≡ drop n r.ack_staging_queue)
      × (r'.wait_initial_pair ≡ false)
      × (r'.initial_batch_target ≡ (if r.wait_initial_pair then 0 else r.initial_batch_target))
unfolding release_ready
released r r' n xs e = elim (Outcome-cases (admit_all r.slots (take n r.ack_staging_queue))) [
  | inl (s, ys, good) ↦ (ground arith, ground arith, ground arith, ground arith)
  | inr (s, x, bad) ↦ absurd (ground arith)
]

total_queued-get :
    (rs : List Rank) (i : ℕ) (r : Rank)
    → get_elem? rs i ≡ some r
    → length r.ack_staging_queue ≤ total_queued rs
unfolding total_queued
total_queued-get [] i r e = absurd (ground arith)
total_queued-get (x ∷ rs) zero r e = ground arith
total_queued-get (x ∷ rs) (suc i) r e = omega (arith, total_queued-get rs i r e)

empty_queue : (q : List Item) → length q ≤ 0 → q ≡ []
empty_queue [] h = refl
empty_queue (x ∷ q) h = absurd (omega arith)

-- The first `n` leases of a queue, and the rest.
IsSettled-Course :
    (total n : ℕ) (vs : List Vote) (r r' : Rank) (xs : List ℕ)
    → Course total vs r r' xs
    → IsSettled r
    → IsSettled r'
unfolding release_ready
IsSettled-Course total n vs r r' xs (idle a b c) s = ground arith
IsSettled-Course total n vs r r' xs (waits a b c d e) s = ground arith
IsSettled-Course total n vs r r' xs (releases a b c) s =
    let (_, _, w, t) = released r r' (least_count vs) xs c in ground arith

length-released :
    (r r' : Rank) (n : ℕ) (xs : List ℕ)
    → release_ready r n ≡ done r' xs
    → length xs ≡ length (take n (leases r.ack_staging_queue))
length-released r r' n xs e =
    let (admitted, _, _, _) = released r r' n xs e in
    length-admit_all r.slots r'.slots (take n r.ack_staging_queue) xs admitted
    ∙ (sym (length-leases (take n r.ack_staging_queue))
        ∙ ap length (leases-take n r.ack_staging_queue))

leases-released :
    (r r' : Rank) (n : ℕ) (xs : List ℕ)
    → release_ready r n ≡ done r' xs
    → leases r'.ack_staging_queue ≡ drop n (leases r.ack_staging_queue)
leases-released r r' n xs e =
    let (_, rest, _, _) = released r r' n xs e in ap leases rest ∙ leases-drop n r.ack_staging_queue

agree_courses :
    (total : ℕ) (vs : List Vote) (a b a' b' : Rank) (xs ys : List ℕ)
    → Course total vs a a' xs
    → Course total vs b b' ys
    → leases a.ack_staging_queue ≡ leases b.ack_staging_queue
    → a.wait_initial_pair ≡ b.wait_initial_pair
    → a.initial_batch_target ≡ b.initial_batch_target
    → (leases a'.ack_staging_queue ≡ leases b'.ack_staging_queue) × (length xs ≡ length ys)
agree_courses total vs a b a' b' xs ys (idle p q r) (idle s t u) same w t' =
    (ground arith, ground arith)
agree_courses total vs a b a' b' xs ys (waits p q r s t) (waits h i j k l) same w t' =
    (ground arith, ground arith)
agree_courses total vs a b a' b' xs ys (releases p q r) (releases s t u) same w t' = (
  leases-released a a' (least_count vs) xs r
      ∙ (ap (drop (least_count vs)) same ∙ sym (leases-released b b' (least_count vs) ys u)),
  length-released a a' (least_count vs) xs r
      ∙ (ap (λ l. length (take (least_count vs) l)) same
          ∙ sym (length-released b b' (least_count vs) ys u)),
)
agree_courses total vs a b a' b' xs ys (idle p q r) (waits h i j k l) same w t' =
    absurd (omega arith)
agree_courses total vs a b a' b' xs ys (idle p q r) (releases s t u) same w t' =
    absurd (omega arith)
agree_courses total vs a b a' b' xs ys (waits h i j k l) (idle p q r) same w t' =
    absurd (omega arith)
agree_courses total vs a b a' b' xs ys (releases s t u) (idle p q r) same w t' =
    absurd (omega arith)
agree_courses total vs a b a' b' xs ys (waits h i j k l) (releases s t u) same w t' =
    absurd (ground (arith, t))
agree_courses total vs a b a' b' xs ys (releases s t u) (waits h i j k l) same w t' =
    absurd (ground (arith, t))

settled_alike :
    (a b : Rank)
    → IsSettled a
    → IsSettled b
    → a.initial_batch_target ≡ b.initial_batch_target
    → a.wait_initial_pair ≡ b.wait_initial_pair
settled_alike a b p q e = ground arith

-- What the votes say about two members that both found the group in agreement.
alike :
    (rs : List Rank) (vs : List Vote) (i j : ℕ) (a b : Rank) (va : Vote)
    → gather rs ≡ some vs
    → get_elem? rs j ≡ some b
    → vote a ≡ done tt va
    → disagree va vs ≡ false
    → (leases a.ack_staging_queue ≡ leases b.ack_staging_queue)
      × (a.initial_batch_target ≡ b.initial_batch_target)
alike rs vs i j a b va e g voted fine =
    let (vb, votes, there) = gather-vote rs vs j b e g in
    let (same, target) = agree-votes va vb vs j fine there in
    let (sa, ta, _) = vote-signatures a tt va voted in
    let (sb, tb, _) = vote-signatures b tt vb votes in (sym sa ∙ (sym same ∙ sb), ground arith)

-- The ranks of one group that return from `collect_ready_reqs` let go equally many requests and keep
-- queues of the same leases in the same order, so they let go the same leases: the queues agreed
-- before. A rank that waited for its initial batch exactly while it had a target still does.
pub collect_agrees :
    (rs : List Rank) (vs : List Vote) (i j : ℕ) (a b a' b' : Rank) (xs ys : List ℕ)
    → gather rs ≡ some vs
    → get_elem? rs i ≡ some a
    → get_elem? rs j ≡ some b
    → IsSettled a
    → IsSettled b
    → collect_ready_reqs (total_queued rs) vs a ≡ done a' xs
    → collect_ready_reqs (total_queued rs) vs b ≡ done b' ys
    → (leases a.ack_staging_queue ≡ leases b.ack_staging_queue)
      × (leases a'.ack_staging_queue ≡ leases b'.ack_staging_queue)
      × (length xs ≡ length ys)
      × IsSettled a'
      × IsSettled b'
collect_agrees rs vs i j a b a' b' xs ys e f g sa sb ca cb =
    let (va, voted, there) = gather-vote rs vs i a e f in
    let (vb, votes, here) = gather-vote rs vs j b e g in
    let (ka, fa) = collect-Course (total_queued rs) vs a a' xs va voted ca in
    let (kb, _) = collect-Course (total_queued rs) vs b b' ys vb votes cb in
    let ta = IsSettled-Course (total_queued rs) 0 vs a a' xs ka sa in
    let tb = IsSettled-Course (total_queued rs) 0 vs b b' ys kb sb in
    elim fa [
      | inl nothing ↦
          let qa = empty_queue a.ack_staging_queue (omega (arith, total_queued-get rs i a f)) in
          let qb = empty_queue b.ack_staging_queue (omega (arith, total_queued-get rs j b g)) in
          let same : leases a.ack_staging_queue ≡ leases b.ack_staging_queue = rw (qa, qb) refl in
          let (x, y) = idle_courses a b a' b' xs ys ka kb nothing same in (same, x, y, ta, tb)
      | inr fine ↦
          let (same, target) = alike rs vs i j a b va e g voted fine in
          let (x, y) =
            agree_courses (total_queued rs) vs a b a' b' xs ys ka kb same
              (settled_alike a b sa sb target) target in
          (same, x, y, ta, tb)
    ]
  where
    idle_courses :
        (a b a' b' : Rank) (xs ys : List ℕ)
        → Course (total_queued rs) vs a a' xs
        → Course (total_queued rs) vs b b' ys
        → total_queued rs ≡ 0
        → leases a.ack_staging_queue ≡ leases b.ack_staging_queue
        → (leases a'.ack_staging_queue ≡ leases b'.ack_staging_queue) × (length xs ≡ length ys)
    idle_courses a b a' b' xs ys (idle p q r) (idle s t u) z same = (ground arith, ground arith)
    idle_courses a b a' b' xs ys (idle p q r) (waits h i j k l) z same = absurd (omega arith)
    idle_courses a b a' b' xs ys (idle p q r) (releases s t u) z same = absurd (omega arith)
    idle_courses a b a' b' xs ys (waits h i j k l) d z same = absurd (omega arith)
    idle_courses a b a' b' xs ys (releases s t u) d z same = absurd (omega arith)
