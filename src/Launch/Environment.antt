-- ===== src/Launch/Environment.antt =====
-- launch.py: what the server reads in the environment that the launcher gives it.
use qsa_hisparse.Prelude.{String, ◌≡◌, refl, false, Option, some, str_eq}
use qsa_hisparse.Startup.Switches.{read_features, compat_of, mode_of}
use qsa_hisparse.Launch.Preflight.{server_environment, selects_others}

-- The server reads the features that the launcher read, no plugin but this one is selected in it, and
-- its schedulers write their records to the directory that the launcher watches.
pub server_environment_lem :
    (base : String → Option String) (site activation_dir : String)
    → (read_features (server_environment base site activation_dir) ≡ read_features base)
      × (selects_others (server_environment base site activation_dir) ≡ false)
      × (server_environment base site activation_dir "SGLANG_QSA_ACTIVATION_DIR"
          ≡ some activation_dir)
unfolding server_environment selects_others read_features compat_of mode_of str_eq
server_environment_lem base site activation_dir = (refl, refl, refl)
