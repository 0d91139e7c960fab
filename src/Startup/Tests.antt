-- ===== src/Startup/Tests.antt =====
-- Concrete answers, files and configurations, and the theorems of the start at them.
use qsa_hisparse.Prelude.{
  ℕ, ◌<◌, ◌*◌, ◌*◌, String, ◌≡◌, ◌↔◌, inr, true, false, Option, none, some, List, [], ◌∷◌,
  if◌then◌else◌, str_eq,
}
use qsa_hisparse.Slots.Defs.{Slots}
use qsa_hisparse.Startup.Scope.{Answer, names}
use qsa_hisparse.Startup.Pins.{Pin, Files, verify, ArePinned, verify_iff}
use qsa_hisparse.Startup.Config.{
  natural, Value, absent, truth, num, text, Pool, validate_configuration,
}
use qsa_hisparse.Startup.Accepts.{IsAccepted, validate_configuration_iff}

abbrev target : Answer
target = names (some "Qwen4ExpForConditionalGeneration" ∷ [])

abbrev pin : Pin
pin = record { file = "sglang/a.py"; sha256 = "d1"; module_sha256 = "m1" }

abbrev pinned : String → Option Pin
pinned name = some pin

abbrev files : Files
files = record { read = λ file. some "m1"; definition = λ file name. some "d1" }

abbrev checked : List String
checked = "sglang.a.f" ∷ []

abbrev found : List (String × Pin)
found = ("sglang.a.f", pin) ∷ []

-- Two requests, no graph, light observation.
abbrev args : String → Value
args name =
    if str_eq name "max_running_requests"
    then num 2
    else if str_eq name "tp_size"
    then num 2
    else if str_eq name "pp_size"
    then num 1
    else if str_eq name "disable_radix_cache"
    then truth true
    else if str_eq name "disable_overlap_schedule"
    then truth true
    else if str_eq name "cuda_graph_backend_decode"
    then text "disabled"
    else if str_eq name "cuda_graph_backend_prefill"
    then text "disabled"
    else if str_eq name "context_length"
    then num 262144
    else if str_eq name "max_total_tokens"
    then num 524288
    else if str_eq name "skip_server_warmup"
    then truth true
    else if str_eq name "random_seed"
    then num 147342228
    else if str_eq name "disaggregation_mode"
    then text "null"
    else if str_eq name "chunked_prefill_size"
    then num 4096
    else absent

abbrev pool : Pool
pool = record {
  size = 524288;
  page_size = 64;
  qsa_compress_ratio = 4;
  qsa_token_topk = 2048;
  full_layer_nums = 12;
  head_num = 1;
  head_dim = 256;
  is_float8_e4m3fn = true;
  use_hnd = false;
  is_vectorized_5d = false;
  post_capture_active = false;
  is_quantized_kv_cache = false;
}

verify_iff_example :
    (verify files pinned checked ≡ inr found) ↔ ArePinned files pinned checked found
verify_iff_example = verify_iff files pinned checked found

validate_configuration_iff_example :
    (validate_configuration (natural 0) (natural 256) args pool true false false ≡ none) ↔ (
      (megabytes : ℕ) × (limit : ℕ) × ((natural 0) ≡ natural megabytes)
      × ((natural 256) ≡ natural limit)
      × (0 < limit)
      × IsAccepted (megabytes * 1024 * 1024) args pool true false false)
validate_configuration_iff_example =
    validate_configuration_iff (natural 0) (natural 256) args pool true false false
