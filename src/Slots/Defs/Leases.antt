-- ===== src/Slots/Defs/Leases.antt =====
-- The data of slots.py and its comparisons.
use qsa_hisparse.Prelude.{
  ℕ, String, ◌≡◌, Bool, true, false, ◌&&◌, ◌||◌, Option, none, some, List, [], ◌∷◌, ◌==◌, str_eq,
  Dict, str_eq_iff, ◌↔◌, arith,
}

pub record Lease : Type 0 where
  pub req_pool_idx : ℕ
  pub generation : ℕ
  pub rid : String
  pub slot : ℕ

-- The strings that `phases` holds.
pub data Phase : Type 0 where
  prefill copying host_ready decode releasing failed drained logical_flushed : Phase

-- One constructor for each `raise`; `key_error` is the dict's own.
pub data Error : Type 0 where
  bad_geometry bad_lease already_owned stale_generation staging_busy exhausted : Error
  stale_lease wrong_phase key_error staging_foreign bad_position bad_length : Error
  lost_owner copies_pending missing_events device_error not_flushed : Error

-- `QSAHiSparseSlots`
pub record Slots : Type 0 where
  pub staging_tokens : ℕ
  pub page_size : ℕ
  pub max_requests : ℕ
  pub active : Dict Lease
  pub phases : Dict Phase
  pub last_generation : Dict ℕ
  pub free_slots : List ℕ
  pub prefill_owner : Option Lease

-- A device event: what `query()` returns, and whether `synchronize()` returns without an error.
pub record Event : Type 0 where
  pub ready : Bool
  pub sound : Bool

abbrev pub phase_code : Phase → ℕ
phase_code prefill = 0
phase_code copying = 1
phase_code host_ready = 2
phase_code decode = 3
phase_code releasing = 4
phase_code failed = 5
phase_code drained = 6
phase_code logical_flushed = 7

abbrev pub phase_eq : Phase → Phase → Bool
phase_eq p q = phase_code p == phase_code q

-- `phase in phases`
abbrev pub phase_in : Phase → List Phase → Bool
phase_in p [] = false
phase_in p (q ∷ qs) = phase_eq p q || phase_in p qs

-- `==` of two leases: the dataclass compares its fields.
unfoldable pub lease_eq : Lease → Lease → Bool
lease_eq a b =
    (a.req_pool_idx == b.req_pool_idx)
    && ((a.generation == b.generation) && (str_eq a.rid b.rid && (a.slot == b.slot)))

pub lease_eq_iff : (a b : Lease) → (lease_eq a b ≡ true) ↔ (a ≡ b)
unfolding lease_eq
lease_eq_iff a b = ground (arith, str_eq_iff a.rid b.rid)

abbrev pub is_lease : Option Lease → Lease → Bool
is_lease none l = false
is_lease (some a) l = lease_eq a l
