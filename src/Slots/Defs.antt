-- ===== src/Slots/Defs.antt =====
-- The methods of slots.py, one function to a method.
mod Leases
unfoldable pub use Leases.*
use qsa_hisparse.Prelude.{
  ℕ, ◌+◌, ◌-◌, ◌*◌, ◌%◌, String, ◌≡◌, Bool, true, false, not, ◌&&◌, ◌||◌, Option, none, some, List,
  [], ◌∷◌, ◌++◌, ltb, leb, ◌==◌, if◌then◌else◌, str_eq, is_some, Dict, get, has, get_or, put, del,
  sort, range_from, length, Outcome, done, raised, unless_error, str_eq_iff, ◌↔◌, arith,
}

-- `__init__`
unfoldable pub init : ℕ → ℕ → ℕ → Option Slots
init staging_tokens page_size max_requests =
    if ltb page_size 4
      || (not (page_size % 4 == 0)
          || ((staging_tokens == 0)
              || (not (staging_tokens % page_size == 0)
                  || not (leb 1 max_requests && leb max_requests 8))))
    then none
    else some (record {
      staging_tokens = staging_tokens;
      page_size = page_size;
      max_requests = max_requests;
      active = [];
      phases = [];
      last_generation = [];
      free_slots = range_from 0 max_requests;
      prefill_owner = none;
    })

unfoldable pub raw_pool_size : Slots → ℕ
raw_pool_size s = s.staging_tokens + 5 * s.max_requests

unfoldable pub take_slot : Slots → ℕ → ℕ → String → List ℕ → Outcome Error Slots Lease
take_slot s req_pool_idx generation rid [] = raised s exhausted
take_slot s req_pool_idx generation rid (slot ∷ rest) =
    let lease : Lease = record {
      req_pool_idx = req_pool_idx;
      generation = generation;
      rid = rid;
      slot = slot;
    } in
    done
      (record s {
        free_slots = rest;
        active = put req_pool_idx lease s.active;
        last_generation = put req_pool_idx generation s.last_generation;
        phases = put req_pool_idx prefill s.phases;
        prefill_owner = some lease;
      })
      lease

unfoldable pub acquire : Slots → ℕ → ℕ → String → Outcome Error Slots Lease
unfolding take_slot
acquire s req_pool_idx generation rid =
    if (req_pool_idx == 0) || ((generation == 0) || str_eq rid "")
    then raised s bad_lease
    else if has req_pool_idx s.active
    then raised s already_owned
    else if leb generation (get_or req_pool_idx s.last_generation 0)
    then raised s stale_generation
    else if is_some s.prefill_owner
    then raised s staging_busy
    else take_slot s req_pool_idx generation rid s.free_slots

-- `require`: nothing, or what it raises. An empty list of phases allows every phase.
unfoldable pub check_phase : Option Phase → List Phase → Option Error
check_phase p [] = none
check_phase none (q ∷ qs) = some key_error
check_phase (some p) (q ∷ qs) = if phase_in p (q ∷ qs) then none else some wrong_phase

unfoldable pub require : Slots → Lease → List Phase → Option Error
unfolding check_phase
require s lease allowed =
    if is_lease (get lease.req_pool_idx s.active) lease
    then check_phase (get lease.req_pool_idx s.phases) allowed
    else some stale_lease

abbrev pub set_phase : Slots → Lease → Phase → Slots
set_phase s lease p = record s { phases = put lease.req_pool_idx p s.phases }

-- A slice is its start and its stop.
unfoldable pub staging_slice : Slots → Lease → ℕ → ℕ → Outcome Error Slots (ℕ × ℕ)
unfolding require
staging_slice s lease start stop = unless_error (require s lease (prefill ∷ copying ∷ [])) s (
    if is_lease s.prefill_owner lease
    then (if leb start stop && leb stop s.staging_tokens
        then done s (s.page_size + start, s.page_size + stop)
        else raised s bad_position)
    else raised s staging_foreign)

-- The arithmetic of `ring_slice`.
unfoldable pub ring_start : Slots → Lease → ℕ
ring_start s lease = s.page_size + s.staging_tokens + 5 * lease.slot

unfoldable pub ring_slice : Slots → Lease → Outcome Error Slots (ℕ × ℕ)
unfolding require ring_start
ring_slice s lease =
    unless_error (require s lease (prefill ∷ copying ∷ host_ready ∷ decode ∷ [])) s
      (done s (ring_start s lease, ring_start s lease + 5))

unfoldable pub ring_write_location : Slots → Lease → ℕ → Outcome Error Slots ℕ
unfolding require ring_start
ring_write_location s lease seq_len = unless_error (require s lease (decode ∷ [])) s (
    if leb 1 seq_len && leb seq_len s.staging_tokens
    then unless_error (require s lease (prefill ∷ copying ∷ host_ready ∷ decode ∷ [])) s
        (done s (ring_start s lease + 1 + (seq_len - 1) % 4))
    else raised s bad_length)

unfoldable pub begin_handoff : Slots → Lease → Outcome Error Slots (Unit {0})
unfolding require
begin_handoff s lease = unless_error (require s lease (prefill ∷ [])) s (
    if is_lease s.prefill_owner lease
    then done (set_phase s lease copying) tt
    else raised s lost_owner)

abbrev pub is_ready : Option Event → Bool
is_ready none = false
is_ready (some e) = e.ready

unfoldable pub finish_handoff : Slots → Lease → Option Event → Outcome Error Slots (Unit {0})
unfolding require
finish_handoff s lease completion_event = unless_error (require s lease (copying ∷ [])) s (
    if is_ready completion_event
    then (if is_lease s.prefill_owner lease
        then done
            (record s { phases = put lease.req_pool_idx host_ready s.phases; prefill_owner = none })
            tt
        else raised s lost_owner)
    else raised s copies_pending)

unfoldable pub admit_decode : Slots → Lease → Outcome Error Slots (Unit {0})
unfolding require
admit_decode s lease =
    unless_error (require s lease (host_ready ∷ [])) s (done (set_phase s lease decode) tt)

-- `any(event is None for event in copy_events)`
unfoldable pub any_missing : List (Option Event) → Bool
any_missing [] = false
any_missing (none ∷ es) = true
any_missing (some e ∷ es) = any_missing es

-- The synchronizations of `drain`, in order: whether all return.
unfoldable pub all_sound : List (Option Event) → Bool
all_sound [] = true
all_sound (none ∷ es) = false
all_sound (some e ∷ es) = e.sound && all_sound es

abbrev pub disown : Option Lease → Lease → Option Lease
disown owner lease = if is_lease owner lease then none else owner

unfoldable pub drain :
    Slots → Lease → Option Event → List (Option Event) → Outcome Error Slots (Unit {0})
unfolding require any_missing all_sound
drain s lease terminal_event copy_events =
    unless_error (require s lease (prefill ∷ copying ∷ host_ready ∷ decode ∷ failed ∷ [])) s (
      if any_missing (terminal_event ∷ copy_events)
      then raised s missing_events
      else (let releasing_state = set_phase s lease releasing in
          if all_sound (terminal_event ∷ copy_events)
          then done
              (record releasing_state {
                prefill_owner = disown s.prefill_owner lease;
                phases = put lease.req_pool_idx drained releasing_state.phases;
              })
              tt
          else raised (set_phase releasing_state lease failed) device_error))

-- `allocator.free_group is not None` is given as a flag.
unfoldable pub logical_flush : Slots → Lease → Bool → Outcome Error Slots (Unit {0})
unfolding require
logical_flush s lease has_free_group =
    unless_error (require s lease (drained ∷ [])) s
      (if has_free_group then raised s not_flushed else done (set_phase s lease logical_flushed) tt)

unfoldable pub commit_release : Slots → Lease → Outcome Error Slots (Unit {0})
unfolding require
commit_release s lease = unless_error (require s lease (logical_flushed ∷ [])) s (
    done
      (record s {
        active = del lease.req_pool_idx s.active;
        phases = del lease.req_pool_idx s.phases;
        free_slots = sort (s.free_slots ++ lease.slot ∷ []);
      })
      tt)

-- `snapshot`
pub record Snapshot : Type 0 where
  pub staging_capacity_tokens : ℕ
  pub staging_available_tokens : ℕ
  pub staging_owner : Option ℕ
  pub raw_pool_size_tokens : ℕ
  pub ring_reserved_tokens : ℕ
  pub lease_capacity : ℕ
  pub lease_active : ℕ
  pub lease_free : ℕ

unfoldable pub snapshot : Slots → Snapshot
unfolding raw_pool_size
snapshot s = record {
  staging_capacity_tokens = s.staging_tokens;
  staging_available_tokens = elim s.prefill_owner [ none ↦ s.staging_tokens | some l ↦ 0 ];
  staging_owner = elim s.prefill_owner [ none ↦ none | some l ↦ some l.req_pool_idx ];
  raw_pool_size_tokens = raw_pool_size s;
  ring_reserved_tokens = 5 * s.max_requests;
  lease_capacity = s.max_requests;
  lease_active = length s.active;
  lease_free = length s.free_slots;
}

-- `slots.phases[lease.req_pool_idx] = "failed"` for a lease in force, as the runtime writes it when
-- a handoff or a graph replay fails.
unfoldable pub mark_failed : Slots → Lease → Slots
mark_failed s lease =
    if is_lease (get lease.req_pool_idx s.active) lease then set_phase s lease failed else s
