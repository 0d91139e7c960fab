-- ===== src/Coordinator/Defs.antt =====
-- The staging queue of a rank, its vote, and what it does with the votes of its group.
use qsa_hisparse.Prelude.{
  ℕ, suc, ◌+◌, min, String, Bool, true, false, not, ◌&&◌, ◌||◌, Option, none, some, List, [], ◌∷◌,
  ltb, ◌==◌, if◌then◌else◌, str_eq, get, get_or, Dict, length, take, drop, Outcome, done, raised,
}
use qsa_hisparse.Slots.Defs.{
  Slots, Lease, Error as SlotsError, host_ready, lease_eq, require, admit_decode,
}

-- An item of `ack_staging_queue`; `ready` is what `event.query()` returns.
pub record Item : Type 0 where
  pub req : ℕ
  pub lease : Lease
  pub ready : Bool

-- One rank: its lease table, the leases of the adapter's `requests`, the generations of the request
-- pool, and the state of `QSAHiSparseCoordinator`.
pub record Rank : Type 0 where
  pub slots : Slots
  pub requests : Dict Lease
  pub generations : Dict ℕ
  pub ack_staging_queue : List Item
  pub wait_initial_pair : Bool
  pub initial_batch_target : ℕ

pub data Error : Type 0 where
  bad_initial_batch above_capacity no_request identity_changed ranks_disagree : Error
  of_slots : SlotsError → Error

-- The number of the environment variable, and `__init__` with it; `initial` is `none` for a text that
-- is none of the five.
unfoldable pub initial_batch : String → Option ℕ
initial_batch value =
    if str_eq value "0"
    then some 0
    else if str_eq value "1"
    then some 2
    else if str_eq value "2"
    then some 2
    else if str_eq value "4"
    then some 4
    else if str_eq value "8"
    then some 8
    else none

unfoldable pub start : Slots → Dict Lease → Dict ℕ → String → Outcome Error (Unit {0}) Rank
unfolding initial_batch
start s requests generations value = elim (initial_batch value) [
  | none ↦ raised tt bad_initial_batch
  | some target ↦
      if ltb s.max_requests target
      then raised tt above_capacity
      else done tt (record {
        slots = s;
        requests = requests;
        generations = generations;
        ack_staging_queue = [];
        wait_initial_pair = not (target == 0);
        initial_batch_target = target;
      })
]

-- `_request` of the adapter: nothing, or what it raises.
unfoldable pub check_request : Rank → ℕ → String → Option Error
check_request r req_idx rid = elim (get req_idx r.requests) [
  | none ↦ some no_request
  | some lease ↦ elim (require r.slots lease []) [
    | some e ↦ some (of_slots e)
    | none ↦
        if str_eq lease.rid rid && (lease.generation == get_or req_idx r.generations 0)
        then none
        else some identity_changed
  ]
]

-- The loop that counts the ready prefix of the queue. An item behind the first one that is not ready
-- is not looked at.
unfoldable pub count_ready : Rank → List Item → Outcome Error (Unit {0}) ℕ
unfolding check_request
count_ready r [] = done tt 0
count_ready r (item ∷ items) = elim (require r.slots item.lease (host_ready ∷ [])) [
  | some e ↦ raised tt (of_slots e)
  | none ↦ elim (check_request r item.lease.req_pool_idx item.lease.rid) [
    | some e ↦ raised tt e
    | none ↦ elim item.ready [
      | false ↦ done tt 0
      | true ↦ elim (count_ready r items) [ raised _ e ↦ raised tt e | done _ n ↦ done tt (suc n) ]
    ]
  ]
]

abbrev pub leases : List Item → List Lease
leases [] = []
leases (item ∷ items) = item.lease ∷ leases items

-- What a rank sends: its signatures, its count and its target.
pub record Vote : Type 0 where
  pub signatures : List Lease
  pub count : ℕ
  pub target : ℕ

unfoldable pub vote : Rank → Outcome Error (Unit {0}) Vote
unfolding count_ready
vote r = elim (count_ready r r.ack_staging_queue) [
  | raised _ e ↦ raised tt e
  | done _ n ↦ done tt (record {
    signatures = leases r.ack_staging_queue;
    count = n;
    target = r.initial_batch_target;
  })
]

-- `==` of two lists of signatures.
unfoldable pub leases_eq : List Lease → List Lease → Bool
leases_eq [] [] = true
leases_eq [] (b ∷ bs) = false
leases_eq (a ∷ xs) [] = false
leases_eq (a ∷ xs) (b ∷ bs) = lease_eq a b && leases_eq xs bs

unfoldable pub disagree : Vote → List Vote → Bool
unfolding leases_eq
disagree mine [] = false
disagree mine (v ∷ vs) =
    (not (leases_eq v.signatures mine.signatures) || not (v.target == mine.target))
    || disagree mine vs

-- `min(n for _, n, _ in votes)`; the group has a member.
unfoldable pub least_count : List Vote → ℕ
least_count [] = 0
least_count (v ∷ []) = v.count
least_count (v ∷ w ∷ vs) = min v.count (least_count (w ∷ vs))

-- The loop that admits the ready items: the requests that it returns.
unfoldable pub admit_all : Slots → List Item → Outcome Error Slots (List ℕ)
admit_all s [] = done s []
admit_all s (item ∷ items) = elim (admit_decode s item.lease) [
  | raised t e ↦ raised t (of_slots e)
  | done t _ ↦ elim (admit_all t items) [
    | raised u e ↦ raised u e
    | done u reqs ↦ done u (item.req ∷ reqs)
  ]
]

-- The rest of `collect_ready_reqs`, once the group agrees on `n` requests.
unfoldable pub release_ready : Rank → ℕ → Outcome Error Rank (List ℕ)
unfolding admit_all
release_ready r n =
    let rest : Rank = record r {
      ack_staging_queue = drop n r.ack_staging_queue;
      wait_initial_pair = false;
      initial_batch_target = if r.wait_initial_pair then 0 else r.initial_batch_target;
    } in
    elim (admit_all r.slots (take n r.ack_staging_queue)) [
      | raised s e ↦ raised (record rest { slots = s }) e
      | done s reqs ↦ done (record rest { slots = s }) reqs
    ]

-- `collect_ready_reqs` of one rank, with the sum and the votes that its collectives return.
unfoldable pub collect_ready_reqs : ℕ → List Vote → Rank → Outcome Error Rank (List ℕ)
unfolding vote disagree least_count release_ready
collect_ready_reqs total votes r = if total == 0 then done r [] else (elim (vote r) [
  | raised _ e ↦ raised r e
  | done _ mine ↦
      if disagree mine votes
      then raised r ranks_disagree
      else if r.wait_initial_pair && ltb (least_count votes) r.initial_batch_target
      then done r []
      else release_ready r (least_count votes)
])

-- The collectives: `all_reduce` adds the lengths of the queues, `all_gather_object` returns the votes
-- of all ranks in their order, or nothing when a rank raises before it votes.
unfoldable pub total_queued : List Rank → ℕ
total_queued [] = 0
total_queued (r ∷ rs) = length r.ack_staging_queue + total_queued rs

unfoldable pub gather : List Rank → Option (List Vote)
unfolding vote
gather [] = some []
gather (r ∷ rs) = elim (vote r) [
  | raised _ e ↦ none
  | done _ v ↦ elim (gather rs) [ none ↦ none | some vs ↦ some (v ∷ vs) ]
]
