-- ===== src/Restore/Handover.antt =====
-- prefix_cache.py: the restore of a match, and what is left when its copy fails.
use qsa_hisparse.Prelude.{
  ℕ, ◌+◌, ◌<◌, ◌≡◌, refl, String, Bool, true, false, ◌==◌, if◌then◌else◌, none, some, has, get, put,
  del, get-put, get-del, Outcome, done, raised, and_then, ◌∙◌, arith,
}
use qsa_hisparse.Prefix.Defs.{Snapshot, Cache, Reader, snapshot_length, namespace_eq_iff}
use qsa_hisparse.Prefix.Cache.{close_reader, release}
use qsa_hisparse.Prefix.World.{open_reader}
use qsa_hisparse.Prefix.Invariant.{Sound, readers_of}
use qsa_hisparse.Restore.State.{
  Transfer, Kv, State, Req, Error, undrained_rematch, undrained_release, restore_failed,
  namespace_of, release_aborted_request,
}
use qsa_hisparse.Restore.Hits.{
  match_prefix, prepare_one, finish_restore, maybe_hand_to_session, claim_kv_row,
}
use qsa_hisparse.Restore.Readers.{close_reader_lem}

-- A request whose match is admitted: it has its snapshot, a new row, and nothing under way.
pub record IsAdmitted (model : String) (s : State) (req : Req) (kv : Kv) (k : ℕ)
    (snapshot : Snapshot) : Type 0 where
  pub matched : get req.handle s.matches ≡ some (k, snapshot)
  pub idle : has req.handle s.restoring ≡ false
  pub same_namespace : namespace_of model s.host req ≡ some snapshot.namespace
  pub admitted : kv.prefix_len ≡ snapshot_length snapshot
  pub new_row : kv.kv_allocated_len ≡ 0

-- The preparation of one request and its restore.
abbrev pub restore : String → State → Req → Kv → Bool → Outcome Error State (Unit {0})
restore model s req kv copied =
    and_then (prepare_one s req kv true) (λ t u. maybe_hand_to_session model t req copied)

reused-Sound : (c : Cache) (n : ℕ) → Sound c → Sound (record c { reused_tokens = n })
reused-Sound c n v = record {
  unique = v.unique;
  unique_retired = v.unique_retired;
  apart = v.apart;
  known = v.known;
  pinned = v.pinned;
  aligned = v.aligned;
}

-- The record of a prepared request.
abbrev prepared : Kv → ℕ → Snapshot → Bool → Transfer
prepared kv k snapshot started = record {
  reader = some (k, snapshot);
  prefix = none;
  fresh = true;
  previous_allocated = kv.kv_allocated_len;
  previous_committed = kv.kv_committed_len;
  restore_stream = started;
  suffix = none;
  req_idx = none;
  lease = none;
  drained = false;
}

prepare_one-prepared :
    (model : String) (s : State) (req : Req) (kv : Kv) (k : ℕ) (snapshot : Snapshot)
    → IsAdmitted model s req kv k snapshot
    → prepare_one s req kv true
      ≡ done (record s { restoring = put req.handle (prepared kv k snapshot false) s.restoring }) tt
unfolding prepare_one
prepare_one-prepared model s req kv k snapshot h =
    ground (arith, h.matched, h.idle, h.admitted, h.new_row)

restore-started :
    (model : String) (s : State) (req : Req) (kv : Kv) (k : ℕ) (snapshot : Snapshot) (copied : Bool)
    → IsAdmitted model s req kv k snapshot
    → restore model s req kv copied ≡ (
        let started : State = record s {
          restoring =
              put req.handle
                (prepared kv k snapshot true)
                (put req.handle (prepared kv k snapshot false) s.restoring);
        } in
        if copied then finish_restore started req k snapshot else raised started restore_failed)
unfolding maybe_hand_to_session
restore-started model s req kv k snapshot copied h =
    let first = prepared kv k snapshot false in
    let here : get req.handle (put req.handle first s.restoring) ≡ some first =
      ground (arith, get-put req.handle req.handle first s.restoring) in
    let same = (namespace_eq_iff snapshot.namespace snapshot.namespace).1 refl in
    rw (prepare_one-prepared model s req kv k snapshot h, and_then)
      (rw (here, maybe_hand_to_session) (rw (h.same_namespace, same) refl))

close_reader-reused :
    (c d : Cache) (k : ℕ) (r : Reader)
    → close_reader c (open_reader k) ≡ done d r
    → d.reused_tokens ≡ c.reused_tokens
unfolding close_reader release
close_reader-reused c d k r h = ground arith

-- After a restore of `s`: nothing of it is left, its reader is closed, and its tokens are counted.
abbrev pub IsRestored : State → Req → ℕ → Snapshot → State → Type 0
IsRestored s req k snapshot t =
    (get req.handle t.restoring ≡ none)
    × (get req.handle t.matches ≡ none)
    × ((j : ℕ) → readers_of j t.host + (if k == j then 1 else 0) ≡ readers_of j s.host)
    × (t.host.reused_tokens ≡ s.host.reused_tokens + snapshot_length snapshot)

-- After a failed copy: the reader is kept, and the request can do nothing but be rolled back.
abbrev pub IsWithheld : String → State → Req → State → Type 0
IsWithheld model s req t =
    (t.host ≡ s.host)
    × (match_prefix model t req false true ≡ raised t undrained_rematch)
    × (claim_kv_row t req ≡ raised t undrained_release)
    × (release_aborted_request t req.handle ≡ done t tt)

-- A request whose match is admitted is prepared and restored: when the copy succeeds the call returns,
-- nothing of the restore and of the match is left, the reader is closed, and the tokens of the snapshot
-- are counted as reused. When the copy fails the call raises and the host cache is as it was, so the
-- reader is kept: the request can neither be matched again nor released, and an abort of it changes
-- nothing. The host cache is sound and the reader of the match is open.
pub restore_lem :
    (model : String) (s : State) (req : Req) (kv : Kv) (k : ℕ) (snapshot : Snapshot)
    → IsAdmitted model s req kv k snapshot
    → Sound s.host
    → 0 < readers_of k s.host
    → ((t : State) × (restore model s req kv true ≡ done t tt) × IsRestored s req k snapshot t)
      × ((t : State) × (restore model s req kv false ≡ raised t restore_failed)
          × IsWithheld model s req t)
unfolding finish_restore match_prefix claim_kv_row release_aborted_request
restore_lem model s req kv k snapshot h v p =
    let before = put req.handle (prepared kv k snapshot false) s.restoring in
    let started : State = record s {
      restoring = put req.handle (prepared kv k snapshot true) before;
    } in
    let counted : Cache = record s.host {
      reused_tokens = s.host.reused_tokens + snapshot_length snapshot;
    } in
    let held : has req.handle started.restoring ≡ true =
      ground (arith, get-put req.handle req.handle (prepared kv k snapshot true) before) in
    let (d, closed, sound, back) =
      close_reader_lem counted k (reused-Sound s.host counted.reused_tokens v) p in
    (
      (
        record s {
          host = d;
          matches = del req.handle s.matches;
          restoring = del req.handle started.restoring;
        },
        restore-started model s req kv k snapshot true h ∙ rw (closed, finish_restore) refl,
        (
          ground (arith, get-del req.handle req.handle started.restoring),
          ground (arith, get-del req.handle req.handle s.matches),
          back,
          close_reader-reused counted d k _ closed,
        ),
      ),
      (
        started,
        restore-started model s req kv k snapshot false h,
        (refl, ground arith, ground arith, ground arith),
      ),
    )
