-- ===== src/Patching/Tests.antt =====
-- Concrete declarations and a concrete registry, and the theorems of patching.py at them.
use qsa_hisparse.Prelude.{ℕ, ◌≡◌, ◌⊎◌, inl, refl, true, false, none, some, List, [], ◌∷◌, str_eq}
use qsa_hisparse.Patching.Names.{Name, name_eq, is_below, overlaps, overlaps_any}
use qsa_hisparse.Patching.Collect.{PatchSpec, AttachSpec, before_hook, replace_hook}
use qsa_hisparse.Patching.Final.{
  Hook, Registry, ours, is_ours, has_foreign, foreign_overlaps, source_eq, hooks_eq, find, Frozen,
  is_late, late, differing, unapplied, names_of, protected_names, check_final, verify_final,
}
use qsa_hisparse.Patching.Guarantees.{verify_final_only_frozen, verify_final_keeps}

abbrev scheduler : Name
scheduler = "sglang" ∷ "Scheduler" ∷ []

abbrev run_batch : Name
run_batch = "sglang" ∷ "Scheduler" ∷ "run_batch" ∷ []

abbrev load_model : Name
load_model = "sglang" ∷ "load_model" ∷ []

abbrev first : PatchSpec
first = record {
  target = run_batch;
  hook_type = before_hook;
  hook = 1;
  hook_is_class = false;
  feature = "hisparse";
  row = "M01";
  depends = [];
}

abbrev second : PatchSpec
second = record first { target = load_model; hook_type = replace_hook; hook = 2 }

abbrev specs : List PatchSpec
specs = first ∷ second ∷ []

abbrev attaches : List AttachSpec
attaches = []

abbrev the_hooks : List Hook
the_hooks = record { hook_type = 0; hook = 1; source = some ours } ∷ []

abbrev registry : Registry
registry = (run_batch, the_hooks) ∷ []

abbrev frozen : Frozen
frozen = record { applied = (run_batch, 7) ∷ []; depends = []; hooks = registry; attached = [] }

abbrev seven : ℕ
seven = 7

abbrev live : Name → ℕ
live name = 7

final_passes : verify_final (some frozen) registry live ≡ none
unfolding verify_final check_final foreign_overlaps has_foreign is_ours overlaps_any overlaps
    name_eq is_below late is_late find hooks_eq source_eq differing unapplied protected_names
    names_of str_eq
final_passes = refl

key_protected : overlaps_any run_batch (protected_names frozen) ≡ true
unfolding overlaps_any overlaps name_eq is_below protected_names names_of str_eq
key_protected = refl

verify_final_only_frozen_example : (the_hooks ≡ []) ⊎ (find run_batch frozen.hooks ≡ some the_hooks)
verify_final_only_frozen_example =
    verify_final_only_frozen frozen registry live 0 run_batch the_hooks final_passes refl
      key_protected

verify_final_keeps_example : live run_batch ≡ seven
verify_final_keeps_example =
    verify_final_keeps frozen registry live 0 run_batch seven final_passes (inl refl)
