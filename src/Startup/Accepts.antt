-- ===== src/Startup/Accepts.antt =====
-- Which configurations are accepted, and what the runtime can rely on then.
use qsa_hisparse.Prelude.{
  ℕ, ◌*◌, ◌<◌, String, ◌≡◌, refl, ◌↔◌, ◌⊎◌, inl, inr, Bool, true, false, ◌==◌, none, some,
  Sum-cases, Option-cases, subst, sym, arith,
}
use qsa_hisparse.Slots.Defs.{Slots}
use qsa_hisparse.Startup.Config.{
  Parsed, natural, negative, not_integer, Pool, Value, num, check_rest, first_missing, is_chunk,
  is_plain_pool, max_requests_of, overlaps, prefix_cache_options, required, validate_budgeted,
  validate_configuration,
}
use qsa_hisparse.Startup.Required.{
  IsFalsy, HasArguments, is_true_iff, first_missing-AllEqual, required-HasArguments,
}

-- The pool of so many whole contexts, plain and in pages of 64.
pub record IsPlainPool (requests : ℕ) (pool : Pool) : Type 0 where
  pub contexts : pool.size ≡ requests * 262144
  pub paged : pool.page_size ≡ 64
  pub compressed : pool.qsa_compress_ratio ≡ 4
  pub selected : pool.qsa_token_topk ≡ 2048
  pub layered : pool.full_layer_nums ≡ 12
  pub one_head : pool.head_num ≡ 1
  pub wide : pool.head_dim ≡ 256
  pub eight_bits : pool.is_float8_e4m3fn ≡ true
  pub not_hnd : pool.use_hnd ≡ false
  pub not_vectorized : pool.is_vectorized_5d ≡ false
  pub not_captured : pool.post_capture_active ≡ false
  pub not_quantized : pool.is_quantized_kv_cache ≡ false

is_plain_pool_iff : (n : ℕ) (pool : Pool) → (is_plain_pool n pool ≡ true) ↔ IsPlainPool n pool
unfolding is_plain_pool
is_plain_pool_iff n pool = (
  (λ e. record {
    contexts = ground arith;
    paged = ground arith;
    compressed = ground arith;
    selected = ground arith;
    layered = ground arith;
    one_head = ground arith;
    wide = ground arith;
    eight_bits = ground arith;
    not_hnd = ground arith;
    not_vectorized = ground arith;
    not_captured = ground arith;
    not_quantized = ground arith;
  }),
  λ h. ground (
    arith, h.contexts, h.paged, h.compressed, h.selected, h.layered, h.one_head, h.wide,
    h.eight_bits, h.not_hnd, h.not_vectorized, h.not_captured, h.not_quantized,
  ),
)

-- How many requests run: one without the offload of several, and 2, 4 or 8 with it.
abbrev pub IsBounded : (String → Value) → Bool → ℕ → Type 0
IsBounded args false n = n ≡ 1
IsBounded args true n = (args "max_running_requests" ≡ num n) × ((n ≡ 2) ⊎ ((n ≡ 4) ⊎ (n ≡ 8)))

max_requests_of_iff :
    (args : String → Value) (p2 : Bool) (n : ℕ)
    → (max_requests_of args p2 ≡ some n) ↔ IsBounded args p2 n
unfolding max_requests_of
max_requests_of_iff args false n = ground arith
max_requests_of_iff args true n = ground arith

is_chunk_iff :
    (v : Value) (p2 : Bool)
    → (is_chunk v p2 ≡ true) ↔ ((v ≡ num 2048) ⊎ ((p2 ≡ true) × (v ≡ num 4096)))
unfolding is_chunk
is_chunk_iff v p2 = ground arith

-- Neither data-parallel attention nor an overlap of batches, nor streaming sessions.
abbrev pub IsSerial : (String → Value) → Type 0
IsSerial args =
    IsFalsy (args "enable_dp_attention")
    × IsFalsy (args "enable_two_batch_overlap")
    × IsFalsy (args "enable_single_batch_overlap")
    × IsFalsy (args "enable_streaming_session")

overlaps_iff : (args : String → Value) → (overlaps args ≡ false) ↔ IsSerial args
unfolding overlaps
overlaps_iff args = (
  (λ e. (
    (is_true_iff (args "enable_dp_attention")).0 (ground arith),
    (is_true_iff (args "enable_two_batch_overlap")).0 (ground arith),
    (is_true_iff (args "enable_single_batch_overlap")).0 (ground arith),
    (is_true_iff (args "enable_streaming_session")).0 (ground arith),
  )),
  λ (a, b, c, d).
      rw
        (
          (is_true_iff (args "enable_dp_attention")).1 a,
          (is_true_iff (args "enable_two_batch_overlap")).1 b,
          (is_true_iff (args "enable_single_batch_overlap")).1 c,
          (is_true_iff (args "enable_streaming_session")).1 d,
        )
        refl,
)

-- A configuration that the runtime runs with.
pub record IsAccepted (budget : ℕ) (args : String → Value) (pool : Pool) (p2 graph strict : Bool)
    : Type 0 where
  pub host : (budget ≡ 0) ⊎ (p2 ≡ true)
  pub graphed : (graph ≡ false) ⊎ (p2 ≡ true)
  pub requests : ℕ
  pub bounded : IsBounded args p2 requests
  pub equal : HasArguments args requests p2 graph strict
  pub chunked :
      (args "chunked_prefill_size" ≡ num 2048)
      ⊎ ((p2 ≡ true) × (args "chunked_prefill_size" ≡ num 4096))
  pub own_coordinator : IsFalsy (args "enable_hisparse")
  pub plain : IsSerial args
  pub pooled : IsPlainPool requests pool

prefix_cache_options-natural :
    (mb entries : Parsed) (budget limit : ℕ)
    → prefix_cache_options mb entries ≡ inr (budget, limit)
    → (megabytes : ℕ) × (mb ≡ natural megabytes)
      × (entries ≡ natural limit)
      × (0 < limit)
      × (megabytes * 1024 * 1024 ≡ budget)
unfolding prefix_cache_options
prefix_cache_options-natural not_integer entries budget limit e = absurd (ground arith)
prefix_cache_options-natural negative not_integer budget limit e = absurd (ground arith)
prefix_cache_options-natural negative negative budget limit e = absurd (ground arith)
prefix_cache_options-natural negative (natural n) budget limit e = absurd (ground arith)
prefix_cache_options-natural (natural mb) not_integer budget limit e = absurd (ground arith)
prefix_cache_options-natural (natural mb) negative budget limit e = absurd (ground arith)
prefix_cache_options-natural (natural mb) (natural n) budget limit e =
    (mb, refl, ground arith, ground arith, ground arith)

module _ (mb entries : Parsed) (args : String → Value) (pool : Pool) (p2 graph strict : Bool) where
  accept :
      (budget : ℕ)
      → validate_budgeted budget args pool p2 graph strict ≡ none
      → IsAccepted budget args pool p2 graph strict
  unfolding validate_budgeted check_rest
  accept budget e = elim (Option-cases (max_requests_of args p2)) [
    | inl unbounded ↦ absurd (ground arith)
    | inr (n, bounded) ↦ elim (Option-cases (first_missing args (required n p2 graph strict))) [
      | inr (name, missing) ↦ absurd (ground arith)
      | inl complete ↦
          let rest : check_rest args pool n p2 ≡ none = ground arith in
          record {
            host = ground arith;
            graphed = ground arith;
            requests = n;
            bounded = (max_requests_of_iff args p2 n).0 bounded;
            equal =
                (required-HasArguments args n p2 graph strict).0
                  ((first_missing-AllEqual args (required n p2 graph strict)).0 complete);
            chunked = (is_chunk_iff (args "chunked_prefill_size") p2).0 (ground arith);
            own_coordinator = (is_true_iff (args "enable_hisparse")).0 (ground arith);
            plain = (overlaps_iff args).0 (ground arith);
            pooled = (is_plain_pool_iff n pool).0 (ground arith);
          }
    ]
  ]

  budgeted :
      (budget : ℕ)
      → IsAccepted budget args pool p2 graph strict
      → validate_budgeted budget args pool p2 graph strict ≡ none
  unfolding validate_budgeted check_rest
  budgeted budget a = ground (
    arith,
    a.host,
    a.graphed,
    (max_requests_of_iff args p2 a.requests).1 a.bounded,
    (first_missing-AllEqual args (required a.requests p2 graph strict)).1
        ((required-HasArguments args a.requests p2 graph strict).1 a.equal),
    (is_chunk_iff (args "chunked_prefill_size") p2).1 a.chunked,
    (is_true_iff (args "enable_hisparse")).1 a.own_coordinator,
    (overlaps_iff args).1 a.plain,
    (is_plain_pool_iff a.requests pool).1 a.pooled,
  )

  accepted :
      validate_configuration mb entries args pool p2 graph strict ≡ none
      → (megabytes : ℕ) × (limit : ℕ) × (mb ≡ natural megabytes)
        × (entries ≡ natural limit)
        × (0 < limit)
        × IsAccepted (megabytes * 1024 * 1024) args pool p2 graph strict
  unfolding validate_configuration
  accepted e = elim (Sum-cases (prefix_cache_options mb entries)) [
    | inl (err, bad) ↦ absurd (ground arith)
    | inr ((budget, limit), found) ↦
        let (megabytes, m, n, positive, same) =
          prefix_cache_options-natural mb entries budget limit found in
        (
          megabytes,
          limit,
          m,
          n,
          positive,
          subst (λ b. IsAccepted b args pool p2 graph strict) (sym same)
              (accept budget (ground arith)),
        )
  ]

  validates :
      (megabytes : ℕ) × (limit : ℕ) × (mb ≡ natural megabytes)
        × (entries ≡ natural limit)
        × (0 < limit)
        × IsAccepted (megabytes * 1024 * 1024) args pool p2 graph strict
      → validate_configuration mb entries args pool p2 graph strict ≡ none
  unfolding validate_configuration prefix_cache_options
  validates (megabytes, limit, m, n, positive, a) =
      let fine : (limit == 0) ≡ false = ground arith in
      rw (m, n, validate_configuration, prefix_cache_options, fine)
        (budgeted (megabytes * 1024 * 1024) a)

-- `validate_configuration` accepts exactly the configurations whose budget of host prefixes is a number
-- of megabytes and whose entry limit is a positive number, that use host prefixes and graphs only with
-- several requests, run 2, 4 or 8 requests then and one otherwise, have the required value at every
-- argument of `HasArguments`, a known chunk size, neither the other coordinator nor an overlap, and the
-- plain pool of that many contexts.
pub validate_configuration_iff :
    (mb entries : Parsed) (args : String → Value) (pool : Pool) (p2 graph strict : Bool)
    → (validate_configuration mb entries args pool p2 graph strict ≡ none) ↔ (
        (megabytes : ℕ) × (limit : ℕ) × (mb ≡ natural megabytes)
        × (entries ≡ natural limit)
        × (0 < limit)
        × IsAccepted (megabytes * 1024 * 1024) args pool p2 graph strict)
validate_configuration_iff mb entries args pool p2 graph strict =
    (accepted mb entries args pool p2 graph strict, validates mb entries args pool p2 graph strict)
