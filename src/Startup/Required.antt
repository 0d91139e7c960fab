-- ===== src/Startup/Required.antt =====
-- hisparse/config.py: what `required` asks of the arguments, written out.
use qsa_hisparse.Prelude.{
  ℕ, ◌*◌, String, ◌≡◌, refl, ◌↔◌, ◌⊎◌, inl, inr, Bool, true, false, not, ◌||◌, none, List, [], ◌∷◌,
  ◌++◌, if◌then◌else◌, range_from, arith, str_eq_iff, words_eq_iff,
}
use qsa_hisparse.Startup.Config.{
  Value, absent, other, truth, num, text, nums, first_missing, is_true, required, value_eq,
}

-- A value that is equal to the required one in Python, where a Boolean is the number 0 or 1.
abbrev pub Equals : Value → Value → Type 0
Equals v absent = v ≡ absent
Equals v other = ⊥
Equals v (truth b) = (v ≡ truth b) ⊎ (v ≡ num (if b then 1 else 0))
Equals v (num n) = (v ≡ num n) ⊎ (((n ≡ 1) × (v ≡ truth true)) ⊎ ((n ≡ 0) × (v ≡ truth false)))
Equals v (text t) = v ≡ text t
Equals v (nums ns) = v ≡ nums ns

-- A value that is false in a condition.
abbrev pub IsFalsy : Value → Type 0
IsFalsy v = (v ≡ absent) ⊎ ((v ≡ truth false) ⊎ ((v ≡ num 0) ⊎ ((v ≡ text "") ⊎ (v ≡ nums []))))

pub value_eq_iff : (v w : Value) → (value_eq v w ≡ true) ↔ Equals v w
unfolding value_eq
value_eq_iff absent absent = ground arith
value_eq_iff absent other = ground arith
value_eq_iff absent (truth b) = ground arith
value_eq_iff absent (num n) = ground arith
value_eq_iff absent (text t) = ground arith
value_eq_iff absent (nums ns) = ground arith
value_eq_iff other absent = ground arith
value_eq_iff other other = ground arith
value_eq_iff other (truth b) = ground arith
value_eq_iff other (num n) = ground arith
value_eq_iff other (text t) = ground arith
value_eq_iff other (nums ns) = ground arith
value_eq_iff (truth a) absent = ground arith
value_eq_iff (truth a) other = ground arith
value_eq_iff (truth a) (truth b) = ground arith
value_eq_iff (truth a) (num n) = ground arith
value_eq_iff (truth a) (text t) = ground arith
value_eq_iff (truth a) (nums ns) = ground arith
value_eq_iff (num m) absent = ground arith
value_eq_iff (num m) other = ground arith
value_eq_iff (num m) (truth b) = ground arith
value_eq_iff (num m) (num n) = ground arith
value_eq_iff (num m) (text t) = ground arith
value_eq_iff (num m) (nums ns) = ground arith
value_eq_iff (text s) absent = ground arith
value_eq_iff (text s) other = ground arith
value_eq_iff (text s) (truth b) = ground arith
value_eq_iff (text s) (num n) = ground arith
value_eq_iff (text s) (text t) = ground (arith, str_eq_iff s t)
value_eq_iff (text s) (nums ns) = ground arith
value_eq_iff (nums ms) absent = ground arith
value_eq_iff (nums ms) other = ground arith
value_eq_iff (nums ms) (truth b) = ground arith
value_eq_iff (nums ms) (num n) = ground arith
value_eq_iff (nums ms) (text t) = ground arith
value_eq_iff (nums ms) (nums ns) = ground (arith, words_eq_iff ms ns)

pub is_true_iff : (v : Value) → (is_true v ≡ false) ↔ IsFalsy v
unfolding is_true
is_true_iff absent = ground arith
is_true_iff other = ground arith
is_true_iff (truth b) = ground arith
is_true_iff (num n) = ground arith
is_true_iff (text t) = ground (arith, str_eq_iff t "")
is_true_iff (nums []) = ground arith
is_true_iff (nums (n ∷ ns)) = ground arith

-- Every name has the value that is required of it.
abbrev pub AllEqual : (String → Value) → List (String × Value) → Type 0
AllEqual args [] = Unit {0}
AllEqual args ((name, value) ∷ rest) = Equals (args name) value × AllEqual args rest

pub first_missing-AllEqual :
    (args : String → Value) (rs : List (String × Value))
    → (first_missing args rs ≡ none) ↔ AllEqual args rs
unfolding first_missing
first_missing-AllEqual args [] = ground arith
first_missing-AllEqual args ((name, value) ∷ rs) =
    ground (arith, first_missing-AllEqual args rs, value_eq_iff (args name) value)

AllEqual-append :
    (args : String → Value) (xs ys : List (String × Value))
    → AllEqual args (xs ++ ys) ↔ (AllEqual args xs × AllEqual args ys)
AllEqual-append args [] ys = ((λ h. (tt, h)), λ h. h.1)
AllEqual-append args ((name, value) ∷ xs) ys =
    let rest = AllEqual-append args xs ys in
    ((λ h. let (e, f) = rest.0 h.1 in ((h.0, e), f)), λ h. (h.0.0, rest.1 (h.0.1, h.1)))

-- The arguments that are required of every server.
pub record HasArguments (args : String → Value) (requests : ℕ) (p2 graph strict : Bool)
    : Type 0 where
  pub running : Equals (args "max_running_requests") (num requests)
  pub tensor_parallel : Equals (args "tp_size") (num 2)
  pub one_stage : Equals (args "pp_size") (num 1)
  pub no_radix : Equals (args "disable_radix_cache") (truth true)
  pub no_overlap : Equals (args "disable_overlap_schedule") (truth true)
  pub decode_backend :
      Equals (args "cuda_graph_backend_decode") (text (if graph then "full" else "disabled"))
  pub prefill_backend : Equals (args "cuda_graph_backend_prefill") (text "disabled")
  pub context : Equals (args "context_length") (num 262144)
  pub tokens : Equals (args "max_total_tokens") (num (requests * 262144))
  pub no_warmup : Equals (args "skip_server_warmup") (truth true)
  pub seeded : Equals (args "random_seed") (num 147342228)
  pub no_speculation : Equals (args "speculative_algorithm") absent
  pub together : Equals (args "disaggregation_mode") (text "null")
  pub deterministic :
      ((p2 ≡ true) × (strict ≡ false)) ⊎ Equals (args "enable_deterministic_inference") (truth true)
  pub graphs :
      (graph ≡ false)
      ⊎ (Equals (args "disable_cuda_graph_padding") (truth true)
          × Equals (args "cuda_graph_bs_decode") (nums (range_from 1 requests))
          × Equals (args "cuda_graph_max_bs_decode") (num requests)
          × Equals (args "enable_torch_compile") (truth false))

deterministic_iff :
    (args : String → Value) (p2 strict : Bool)
    → AllEqual args
        (if not p2 || strict then ("enable_deterministic_inference", truth true) ∷ [] else [])
      ↔ (((p2 ≡ true) × (strict ≡ false))
          ⊎ Equals (args "enable_deterministic_inference") (truth true))
deterministic_iff args true true = ground arith
deterministic_iff args true false = ground arith
deterministic_iff args false strict = ground arith

graphs_iff :
    (args : String → Value) (n : ℕ) (graph : Bool)
    → AllEqual args (
        if graph
        then ("disable_cuda_graph_padding", truth true)
          ∷ ("cuda_graph_bs_decode", nums (range_from 1 n))
          ∷ ("cuda_graph_max_bs_decode", num n)
          ∷ ("enable_torch_compile", truth false)
          ∷ []
        else [])
      ↔ ((graph ≡ false)
          ⊎ (Equals (args "disable_cuda_graph_padding") (truth true)
              × Equals (args "cuda_graph_bs_decode") (nums (range_from 1 n))
              × Equals (args "cuda_graph_max_bs_decode") (num n)
              × Equals (args "enable_torch_compile") (truth false)))
graphs_iff args n true = (
  (λ (a, (b, (c, (d, e)))). inr (a, b, c, d)),
  λ h. elim h [ inl e ↦ absurd (ground arith) | inr (a, b, c, d) ↦ (a, (b, (c, (d, tt)))) ],
)
graphs_iff args n false = ((λ h. inl refl), λ h. tt)

pub required-HasArguments :
    (args : String → Value) (n : ℕ) (p2 graph strict : Bool)
    → AllEqual args (required n p2 graph strict) ↔ HasArguments args n p2 graph strict
unfolding required
required-HasArguments args n p2 graph strict =
    let extra = AllEqual-append args _ _ in
    (
      (λ (
        running,
        (
          tensor_parallel,
          (
            one_stage,
            (
              no_radix,
              (
                no_overlap,
                (
                  decode_backend,
                  (
                    prefill_backend,
                    (context, (tokens, (no_warmup, (seeded, (no_speculation, (together, more)))))),
                  ),
                ),
              ),
            ),
          ),
        ),
      ).
          let (det, gr) = extra.0 more in
          record {
            running = running;
            tensor_parallel = tensor_parallel;
            one_stage = one_stage;
            no_radix = no_radix;
            no_overlap = no_overlap;
            decode_backend = decode_backend;
            prefill_backend = prefill_backend;
            context = context;
            tokens = tokens;
            no_warmup = no_warmup;
            seeded = seeded;
            no_speculation = no_speculation;
            together = together;
            deterministic = (deterministic_iff args p2 strict).0 det;
            graphs = (graphs_iff args n graph).0 gr;
          }),
      λ h. (
        h.running,
        (
          h.tensor_parallel,
          (
            h.one_stage,
            (
              h.no_radix,
              (
                h.no_overlap,
                (
                  h.decode_backend,
                  (
                    h.prefill_backend,
                    (
                      h.context,
                      (
                        h.tokens,
                        (
                          h.no_warmup,
                          (
                            h.seeded,
                            (
                              h.no_speculation,
                              (
                                h.together,
                                extra.1 (
                                  (deterministic_iff args p2 strict).1 h.deterministic,
                                  (graphs_iff args n graph).1 h.graphs,
                                ),
                              ),
                            ),
                          ),
                        ),
                      ),
                    ),
                  ),
                ),
              ),
            ),
          ),
        ),
      ),
    )
