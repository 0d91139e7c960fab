-- ===== src/Startup/Switches.antt =====
-- features.py and plugin.py: the switches, and the activation that they ask for.
use qsa_hisparse.Prelude.{
  String, ◌≡◌, ◌≢◌, ◌↔◌, ◌⊎◌, inl, inr, ◌∙◌, Bool, true, false, not, ◌||◌, Option, none, some, List,
  [], ◌∷◌, ◌++◌, if◌then◌else◌, str_eq, str_eq_iff, is_some, Option-cases, Sum-cases, List-cases,
  arith,
}

-- `Features`
pub record Features : Type 0 where
  pub model_compat : Bool
  pub hisparse_mode : Option String

unfoldable pub active : Features → List String
active f =
    (if f.model_compat then "model_compat" ∷ [] else [])
    ++ (if is_some f.hisparse_mode then "hisparse" ∷ [] else [])

-- The `raise`s of `read_features`, each a PluginConfigError.
pub data ConfigError : Type 0 where
  bad_compat bad_mode compat_missing : ConfigError

-- `environ.get(MODEL_COMPAT_ENV, "")`, and `environ.get(HISPARSE_ENV) or None`.
unfoldable pub compat_of : (String → Option String) → String
compat_of environ = elim (environ "SGLANG_QSA_MODEL_COMPAT") [ none ↦ "" | some value ↦ value ]

unfoldable pub mode_of : (String → Option String) → Option String
mode_of environ = elim (environ "SGLANG_QSA_HISPARSE_V3") [
  | none ↦ none
  | some value ↦ if str_eq value "" then none else some value
]

-- `mode in HISPARSE_MODES`
unfoldable pub is_mode : String → Bool
is_mode mode =
    str_eq mode "p2-offload"
    || (str_eq mode "p2-resident" || (str_eq mode "offload" || str_eq mode "resident"))

unfoldable pub read_features : (String → Option String) → ConfigError ⊎ Features
unfolding compat_of mode_of is_mode
read_features environ =
    let compat = compat_of environ in
    let features : Features = record {
      model_compat = str_eq compat "1";
      hisparse_mode = mode_of environ;
    } in
    if not (str_eq compat "" || (str_eq compat "0" || str_eq compat "1"))
    then inl bad_compat
    else (elim (mode_of environ) [
      | none ↦ inr features
      | some mode ↦
          if not (is_mode mode)
          then inl bad_mode
          else if not (str_eq compat "1")
          then inl compat_missing
          else inr features
    ])

-- The exceptions that reach `load`: PluginConfigError, PluginActivationError itself,
-- FingerprintMismatch, and any Exception.
pub data Raise : Type 0 where
  of_config : ConfigError → Raise
  activation_error fingerprint_mismatch : Raise
  exception : Raise

-- `except PluginActivationError`: the class and those derived from it.
unfoldable pub is_activation_error : Raise → Bool
is_activation_error (of_config e) = true
is_activation_error activation_error = true
is_activation_error fingerprint_mismatch = true
is_activation_error exception = false

-- `load`: what it raises. `activate` gives what the activation of some features raises.
unfoldable pub load : (Features → Option Raise) → (String → Option String) → Option Raise
unfolding read_features active is_activation_error
load activate environ = elim (read_features environ) [
  | inl e ↦ some (of_config e)
  | inr features ↦ elim (active features) [
    | [] ↦ none
    | name ∷ names ↦ elim (activate features) [
      | none ↦ none
      | some raise ↦ if is_activation_error raise then some raise else some activation_error
    ]
  ]
]

-- An environment asks for these features, in a combination that is supported.
pub record IsRequest (environ : String → Option String) (f : Features) : Type 0 where
  pub switch : (compat_of environ ≡ "") ⊎ ((compat_of environ ≡ "0") ⊎ (compat_of environ ≡ "1"))
  pub compat : (f.model_compat ≡ true) ↔ (compat_of environ ≡ "1")
  pub mode : f.hisparse_mode ≡ mode_of environ
  pub known : (m : String) → f.hisparse_mode ≡ some m → is_mode m ≡ true
  pub based : is_some f.hisparse_mode ≡ true → f.model_compat ≡ true

-- `read_features` returns the features that the environment asks for, and raises when it asks for
-- none in a supported combination: the compatibility switch is empty, 0 or 1, the mode is one of the
-- four, and a mode comes with the compatibility patches.
pub read_features_iff :
    (environ : String → Option String) (f : Features)
    → (read_features environ ≡ inr f) ↔ IsRequest environ f
unfolding read_features
read_features_iff environ f = (to, from)
  where
    to : read_features environ ≡ inr f → IsRequest environ f
    to e = record {
      switch = ground (
        arith,
        str_eq_iff (compat_of environ) "",
        str_eq_iff (compat_of environ) "0",
        str_eq_iff (compat_of environ) "1",
      );
      compat = ground (arith, str_eq_iff (compat_of environ) "1");
      mode = ground arith;
      known = λ m h. ground arith;
      based = λ h. ground arith;
    }

    from : IsRequest environ f → read_features environ ≡ inr f
    from h = elim (Option-cases (mode_of environ)) [
      | inl plain ↦ ground (
        arith,
        h.switch,
        h.compat,
        h.mode,
        str_eq_iff (compat_of environ) "",
        str_eq_iff (compat_of environ) "0",
        str_eq_iff (compat_of environ) "1",
      )
      | inr (m, asked) ↦
          let mode = h.mode ∙ asked in
          ground (
            arith,
            h.switch,
            h.compat,
            h.known m mode,
            h.based,
            mode,
            str_eq_iff (compat_of environ) "",
            str_eq_iff (compat_of environ) "0",
            str_eq_iff (compat_of environ) "1",
          )
    ]

-- `load` never raises a plain exception, which the plugin loader would log and ignore; it does nothing
-- exactly when nothing is asked for, and returns exactly when nothing is asked for or the activation
-- succeeds.
pub load_lem :
    (activate : Features → Option Raise) (environ : String → Option String)
    → (load activate environ ≢ some exception)
      × ((load activate environ ≡ none) ↔ (
          (f : Features) × (read_features environ ≡ inr f)
          × ((active f ≡ []) ⊎ (activate f ≡ none))))
unfolding load is_activation_error
load_lem activate environ = ((λ e. ground arith), ((λ e. returned e), (λ h. ground (arith, h.1))))
  where
    returned :
        load activate environ ≡ none
        → (f : Features) × (read_features environ ≡ inr f) × ((active f ≡ []) ⊎ (activate f ≡ none))
    returned e = elim (Sum-cases (read_features environ)) [
      | inl (err, bad) ↦ absurd (ground arith)
      | inr (f, read) ↦ elim (List-cases (active f)) [
        | inl nothing ↦ (f, read, inl nothing)
        | inr (name, names, some_name) ↦ elim (Option-cases (activate f)) [
          | inl fine ↦ (f, read, inr fine)
          | inr (raise, bad) ↦ absurd (ground arith)
        ]
      ]
    ]
