-- ===== src/Restore/Readers.antt =====
-- prefix_cache.py: the readers that `match_prefix` opens and closes.
use qsa_hisparse.Prelude.{
  ℕ, ◌+◌, ◌<◌, ◌≡◌, refl, inl, inr, String, Bool, true, false, ◌||◌, ◌==◌, if◌then◌else◌, Option,
  none, some, has, get, put, del, get-put, get-del, Outcome, done, raised, and_then, Bool-cases,
  Option-cases, arith,
}
use qsa_hisparse.Prefix.Defs.{Snapshot, Namespace, Cache, token_count}
use qsa_hisparse.Prefix.Cache.{close_reader}
use qsa_hisparse.Prefix.World.{open_reader}
use qsa_hisparse.Prefix.Invariant.{Sound, readers_of}
use qsa_hisparse.Prefix.Moves.{release_lem}
use qsa_hisparse.Prefix.Acquire.{acquire_lem}
use qsa_hisparse.Restore.State.{
  State, Req, Error, ranks_disagree, close_match, release_aborted_request, namespace_of,
}
use qsa_hisparse.Restore.Hits.{identity_of, acquire_match, match_prefix, pending_prefix_tokens}

-- How many readers of an entry a match holds.
abbrev pub held_by : ℕ → Option (ℕ × Snapshot) → ℕ
held_by j none = 0
held_by j (some (k, snapshot)) = if k == j then 1 else 0

-- The reader of a match is open.
abbrev pub IsPinned : Cache → Option (ℕ × Snapshot) → Type 0
IsPinned c none = Unit
IsPinned c (some (k, snapshot)) = 0 < readers_of k c

-- What `match_prefix` answers when the ranks agree, and when they do not.
abbrev pub Answers : Bool → ℕ → ℕ → State → Outcome Error State ℕ → Type 0
Answers true h n t o = o ≡ done t n
Answers false h n t o = (o ≡ raised t ranks_disagree) × (get h t.matches ≡ none)

pub close_reader_lem :
    (c : Cache) (k : ℕ)
    → Sound c
    → 0 < readers_of k c
    → (d : Cache) × (close_reader c (open_reader k)
        ≡ done d (record { entry_id = k; is_open = false }))
      × Sound d
      × ((j : ℕ) → readers_of j d + (if k == j then 1 else 0) ≡ readers_of j c)
unfolding close_reader
close_reader_lem c k v h =
    let (d, e, f, r, bytes, number, epoch) = release_lem c k v h in (d, ground arith, f.sound, r)

close_match_lem :
    (s : State) (h : ℕ)
    → Sound s.host
    → IsPinned s.host (get h s.matches)
    → (t : State) × (close_match s h ≡ done t tt)
      × Sound t.host
      × (get h t.matches ≡ none)
      × ((j : ℕ) → readers_of j t.host + held_by j (get h s.matches) ≡ readers_of j s.host)
unfolding close_match
close_match_lem s h v p = elim (Option-cases (get h s.matches)) [
  | inl e ↦ (s, ground arith, v, e, λ j. ground arith)
  | inr ((k, snapshot), e) ↦
      let (d, closed, sound, r) = close_reader_lem s.host k v (ground arith) in
      (
        record s { host = d; matches = del h s.matches },
        ground arith,
        sound,
        ground (arith, get-del h h s.matches),
        λ j. ground (arith, r j),
      )
]

-- The counters of a cache have no part in its soundness.
missed-Sound : (c : Cache) (m : ℕ) → Sound c → Sound (record c { misses = m })
missed-Sound c m v = record {
  unique = v.unique;
  unique_retired = v.unique_retired;
  apart = v.apart;
  known = v.known;
  pinned = v.pinned;
  aligned = v.aligned;
}

module _ (s : State) (req : Req) (ns : Namespace) (v : Sound s.host)
    (m : get req.handle s.matches ≡ none) where
  abbrev Accounted : Bool → Type 0
  Accounted agree =
      (t : State) × Answers agree req.handle (pending_prefix_tokens t req) t
        (acquire_match s req ns agree)
      × Sound t.host
      × ((j : ℕ) → readers_of j t.host ≡ readers_of j s.host + held_by j (get req.handle t.matches))

  acquire_match_lem : (agree : Bool) → Accounted agree
  unfolding acquire_match pending_prefix_tokens
  acquire_match_lem true =
      elim (acquire_lem s.host ns req.tokens (some (token_count req.tokens)) true (identity_of req)
        v) [
          | inr (n, e, none_matches) ↦ (
            record s { host = record s.host { misses = n } },
            ground arith,
            missed-Sound s.host n v,
            λ j. ground arith,
          )
          | inl (d, k, snapshot, e, f, entry, matched, longest, r, bytes, number, epoch) ↦ (
            record s { host = d; matches = put req.handle (k, snapshot) s.matches },
            ground (arith, get-put req.handle req.handle (k, snapshot) s.matches),
            f.sound,
            λ j. ground (arith, get-put req.handle req.handle (k, snapshot) s.matches, r j),
          )
        ]
  acquire_match_lem false =
      elim (acquire_lem s.host ns req.tokens (some (token_count req.tokens)) true (identity_of req)
        v) [
          | inr (n, e, none_matches) ↦ (
            record s { host = record s.host { misses = n } },
            ground arith,
            missed-Sound s.host n v,
            λ j. ground arith,
          )
          | inl (d, k, snapshot, e, f, entry, matched, longest, r, bytes, number, epoch) ↦
              let (c, closed, sound, back) = close_reader_lem d k f.sound (ground (arith, r k)) in
              (
                record s { host = c },
                rw (acquire_match, e, closed) (refl, m),
                sound,
                λ j. ground (arith, r j, back j),
              )
        ]

-- Without a reader the answer is zero.
unread :
    (s : State) (req : Req) (agree : Bool)
    → get req.handle s.matches ≡ none
    → Answers agree req.handle
        (pending_prefix_tokens s req)
        s
        (if agree then done s 0 else raised s ranks_disagree)
unfolding pending_prefix_tokens
unread s req true gone = ground arith
unread s req false gone = (refl, gone)

-- On a sound cache, for a request that has no restore under way and whose earlier match, if there is
-- one, has its reader open, the readers of every entry change by those that the match of the request
-- holds: no reader is lost or closed twice, on a hit and on a miss, whether the ranks agree or not.
-- When they agree the call returns the length of the snapshot that the request is matched with now,
-- zero without one; when they do not, it raises and the request has no match.
pub match_prefix_lem :
    (model : String) (s : State) (req : Req) (miss agree : Bool)
    → Sound s.host
    → IsPinned s.host (get req.handle s.matches)
    → has req.handle s.restoring ≡ false
    → (t : State) × Answers agree req.handle
        (pending_prefix_tokens t req)
        t
        (match_prefix model s req miss agree)
      × Sound t.host
      × ((j : ℕ)
          → readers_of j t.host + held_by j (get req.handle s.matches)
            ≡ readers_of j s.host + held_by j (get req.handle t.matches))
unfolding match_prefix release_aborted_request
match_prefix_lem model s req miss agree v p idle =
    let (u, closed, sound, gone, r) = close_match_lem s req.handle v p in
    let balance : (j : ℕ)
        → readers_of j u.host + held_by j (get req.handle s.matches)
          ≡ readers_of j s.host + held_by j (get req.handle u.matches) =
      λ j. ground (arith, r j) in
    rw (idle, closed, and_then)
      (elim (Option-cases (namespace_of model u.host req)) [
        | inl e ↦ (u, rw e (unread u req agree gone), sound, balance)
        | inr (ns, e) ↦ elim (Bool-cases (req.skip_insert || miss)) [
          | inl skipped ↦ (u, rw (e, skipped) (unread u req agree gone), sound, balance)
          | inr asked ↦
              let (t, answer, sound_t, opened) = acquire_match_lem u req ns sound gone agree in
              (t, rw (e, asked) answer, sound_t, λ j. ground (arith, r j, opened j))
        ]
      ])
