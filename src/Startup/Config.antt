-- ===== src/Startup/Config.antt =====
-- hisparse/config.py: the budget of host prefixes, and which server configurations are accepted.
use qsa_hisparse.Prelude.{
  ℕ, ◌*◌, String, ◌⊎◌, inl, inr, Bool, true, false, not, ◌&&◌, ◌||◌, Option, none, some, List, [],
  ◌∷◌, ◌++◌, ◌==◌, if◌then◌else◌, str_eq, words_eq, range_from,
}

-- What `int(text)` gives.
pub data Parsed : Type 0 where
  not_integer : Parsed
  negative : Parsed
  natural : ℕ → Parsed

pub data Error : Type 0 where
  not_integers out_of_range prefixes_need_p2 graph_needs_p2 bad_max_requests : Error
  requires : String → Error
  bad_chunk mla_coordinator overlap bad_pool : Error

-- `prefix_cache_options`, with the two texts of the environment as `int` reads them: the budget in
-- bytes, and the entry limit.
unfoldable pub prefix_cache_options : Parsed → Parsed → Error ⊎ (ℕ × ℕ)
prefix_cache_options not_integer entries = inl not_integers
prefix_cache_options negative not_integer = inl not_integers
prefix_cache_options negative negative = inl out_of_range
prefix_cache_options negative (natural n) = inl out_of_range
prefix_cache_options (natural mb) not_integer = inl not_integers
prefix_cache_options (natural mb) negative = inl out_of_range
prefix_cache_options (natural mb) (natural n) =
    if n == 0 then inl out_of_range else inr (mb * 1024 * 1024, n)

-- What `getattr(args, name, None)` gives; `other` is a value of no type that is compared here.
pub data Value : Type 0 where
  absent other : Value
  truth : Bool → Value
  num : ℕ → Value
  text : String → Value
  nums : List ℕ → Value

abbrev bit : Bool → ℕ
bit b = if b then 1 else 0

-- `==` with the value that is required; a Boolean is the number 0 or 1.
unfoldable pub value_eq : Value → Value → Bool
value_eq absent absent = true
value_eq (truth a) (truth b) = bit a == bit b
value_eq (truth a) (num n) = bit a == n
value_eq (num n) (truth b) = n == bit b
value_eq (num n) (num m) = n == m
value_eq (text a) (text b) = str_eq a b
value_eq (nums a) (nums b) = words_eq a b
value_eq a b = false

-- `bool(…)`
unfoldable pub is_true : Value → Bool
is_true absent = false
is_true other = true
is_true (truth b) = b
is_true (num n) = not (n == 0)
is_true (text a) = not (str_eq a "")
is_true (nums []) = false
is_true (nums (n ∷ ns)) = true

-- What the checks read of the pool.
pub record Pool : Type 0 where
  pub size : ℕ
  pub page_size : ℕ
  pub qsa_compress_ratio : ℕ
  pub qsa_token_topk : ℕ
  pub full_layer_nums : ℕ
  pub head_num : ℕ
  pub head_dim : ℕ
  pub is_float8_e4m3fn : Bool
  pub use_hnd : Bool
  pub is_vectorized_5d : Bool
  pub post_capture_active : Bool
  pub is_quantized_kv_cache : Bool

-- The dict `required`, in its order.
unfoldable pub required : ℕ → Bool → Bool → Bool → List (String × Value)
required max_requests p2 graph strict =
    ("max_running_requests", num max_requests)
    ∷ ("tp_size", num 2)
    ∷ ("pp_size", num 1)
    ∷ ("disable_radix_cache", truth true)
    ∷ ("disable_overlap_schedule", truth true)
    ∷ ("cuda_graph_backend_decode", text (if graph then "full" else "disabled"))
    ∷ ("cuda_graph_backend_prefill", text "disabled")
    ∷ ("context_length", num 262144)
    ∷ ("max_total_tokens", num (max_requests * 262144))
    ∷ ("skip_server_warmup", truth true)
    ∷ ("random_seed", num 147342228)
    ∷ ("speculative_algorithm", absent)
    ∷ ("disaggregation_mode", text "null")
    ∷ ((if not p2 || strict then ("enable_deterministic_inference", truth true) ∷ [] else [])
        ++ (if graph
            then ("disable_cuda_graph_padding", truth true)
              ∷ ("cuda_graph_bs_decode", nums (range_from 1 max_requests))
              ∷ ("cuda_graph_max_bs_decode", num max_requests)
              ∷ ("enable_torch_compile", truth false)
              ∷ []
            else []))

-- The loop over `required`: the first name that differs.
unfoldable pub first_missing : (String → Value) → List (String × Value) → Option String
unfolding value_eq
first_missing args [] = none
first_missing args ((name, value) ∷ rest) =
    let later = first_missing args rest in if value_eq (args name) value then later else some name

-- `max_requests`; `none` is the ValueError.
unfoldable pub max_requests_of : (String → Value) → Bool → Option ℕ
max_requests_of args false = some 1
max_requests_of args true = elim (args "max_running_requests") [
  | num n ↦ if (n == 2) || ((n == 4) || (n == 8)) then some n else none
  | _ ↦ none
]

unfoldable pub is_chunk : Value → Bool → Bool
is_chunk v p2 = elim v [ num n ↦ (n == 2048) || (p2 && (n == 4096)) | _ ↦ false ]

unfoldable pub overlaps : (String → Value) → Bool
unfolding is_true
overlaps args =
    is_true (args "enable_dp_attention")
    || (is_true (args "enable_two_batch_overlap")
        || (is_true (args "enable_single_batch_overlap")
            || is_true (args "enable_streaming_session")))

unfoldable pub is_plain_pool : ℕ → Pool → Bool
is_plain_pool max_requests pool =
    (pool.size == max_requests * 262144)
    && ((pool.page_size == 64)
        && ((pool.qsa_compress_ratio == 4)
            && ((pool.qsa_token_topk == 2048)
                && ((pool.full_layer_nums == 12)
                    && ((pool.head_num == 1)
                        && ((pool.head_dim == 256)
                            && (pool.is_float8_e4m3fn
                                && (not pool.use_hnd
                                    && (not pool.is_vectorized_5d
                                        && (not pool.post_capture_active
                                            && not pool.is_quantized_kv_cache))))))))))

-- The checks behind `required`.
unfoldable pub check_rest : (String → Value) → Pool → ℕ → Bool → Option Error
unfolding is_chunk overlaps is_plain_pool
check_rest args pool max_requests p2 =
    if not (is_chunk (args "chunked_prefill_size") p2)
    then some bad_chunk
    else if is_true (args "enable_hisparse")
    then some mla_coordinator
    else if overlaps args
    then some overlap
    else if is_plain_pool max_requests pool
    then none
    else some bad_pool

-- `validate_configuration`: what it raises; `budget` is that of `prefix_cache_options`.
unfoldable pub validate_budgeted : ℕ → (String → Value) → Pool → Bool → Bool → Bool → Option Error
unfolding max_requests_of required first_missing check_rest
validate_budgeted budget args pool p2 graph strict =
    if not (budget == 0) && not p2
    then some prefixes_need_p2
    else if graph && not p2
    then some graph_needs_p2
    else (elim (max_requests_of args p2) [
      | none ↦ some bad_max_requests
      | some n ↦ elim (first_missing args (required n p2 graph strict)) [
        | some name ↦ some (requires name)
        | none ↦ check_rest args pool n p2
      ]
    ])

unfoldable pub validate_configuration :
    Parsed → Parsed → (String → Value) → Pool → Bool → Bool → Bool → Option Error
unfolding prefix_cache_options validate_budgeted
validate_configuration mb entries args pool p2 graph strict =
    elim (prefix_cache_options mb entries) [
      | inl e ↦ some e
      | inr (budget, limit) ↦ validate_budgeted budget args pool p2 graph strict
    ]
