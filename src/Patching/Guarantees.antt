-- ===== src/Patching/Guarantees.antt =====
-- What follows when the checks of patching.py pass.
use qsa_hisparse.Prelude.{
  ℕ, zero, suc, ◌≡◌, ◌↔◌, ◌⊎◌, inl, inr, refl, true, false, Option, none, some, List, [], ◌∷◌, ◌++◌,
  str_eq_iff, Option-cases, arith, get_elem?,
}
use qsa_hisparse.Patching.Names.{Name, overlaps_any}
use qsa_hisparse.Patching.Final.{
  Source, Hook, Registry, is_ours, claims_ours, has_foreign, has_claimed, foreign_overlaps,
  source_eq, hooks_eq, find, Frozen, is_late, late, differing, unapplied, is_empty, protected_names,
  check_final, verify_final,
}

source_eq_iff : (a b : Option Source) → (source_eq a b ≡ true) ↔ (a ≡ b)
unfolding source_eq
source_eq_iff none none = ground arith
source_eq_iff none (some b) = ground arith
source_eq_iff (some a) none = ground arith
source_eq_iff (some a) (some b) =
    ground (arith, str_eq_iff a.plugin_name b.plugin_name, str_eq_iff a.dist_name b.dist_name)

hooks_eq_iff : (xs ys : List Hook) → (hooks_eq xs ys ≡ true) ↔ (xs ≡ ys)
unfolding hooks_eq
hooks_eq_iff [] [] = ground arith
hooks_eq_iff [] (y ∷ ys) = ground arith
hooks_eq_iff (x ∷ xs) [] = ground arith
hooks_eq_iff (x ∷ xs) (y ∷ ys) = ground (arith, source_eq_iff x.source y.source, hooks_eq_iff xs ys)

foreign_overlaps-get :
    (registry : Registry) (targets : List Name) (i : ℕ) (key : Name) (hooks : List Hook)
    → is_empty (foreign_overlaps registry targets) ≡ true
    → get_elem? registry i ≡ some (key, hooks)
    → overlaps_any key targets ≡ true
    → has_foreign hooks ≡ false
unfolding foreign_overlaps
foreign_overlaps-get [] targets i key hooks e f o = absurd (ground arith)
foreign_overlaps-get ((k, hs) ∷ registry) targets zero key hooks e f o =
    let a : k ≡ key = ground arith in let b : hs ≡ hooks = ground arith in ground arith
foreign_overlaps-get ((k, hs) ∷ registry) targets (suc i) key hooks e f o =
    foreign_overlaps-get registry targets i key hooks (ground arith) f o

late-get :
    (frozen registry : Registry) (i : ℕ) (key : Name) (hooks : List Hook)
    → is_empty (late frozen registry) ≡ true
    → get_elem? registry i ≡ some (key, hooks)
    → is_late frozen key hooks ≡ false
unfolding late
late-get frozen [] i key hooks e f = absurd (ground arith)
late-get frozen ((k, hs) ∷ registry) zero key hooks e f =
    let a : k ≡ key = ground arith in let b : hs ≡ hooks = ground arith in ground arith
late-get frozen ((k, hs) ∷ registry) (suc i) key hooks e f =
    late-get frozen registry i key hooks (ground arith) f

-- Hooks that are all ours claim to be ours.
own_hooks : (hooks : List Hook) → has_foreign hooks ≡ false → has_claimed hooks ≡ false → hooks ≡ []
unfolding has_foreign has_claimed is_ours claims_ours
own_hooks [] e f = refl
own_hooks (h ∷ hooks) e f =
    absurd (elim (Option-cases h.source) [ inl gone ↦ ground arith | inr (s, from) ↦ ground arith ])

differing-get :
    (live : Name → ℕ) (frozen : List (Name × ℕ)) (i : ℕ) (name : Name) (kept : ℕ)
    → is_empty (differing live frozen) ≡ true
    → get_elem? frozen i ≡ some (name, kept)
    → live name ≡ kept
unfolding differing
differing-get live [] i name kept e f = absurd (ground arith)
differing-get live ((n, k) ∷ frozen) zero name kept e f =
    let a : n ≡ name = ground arith in let b : k ≡ kept = ground arith in ground arith
differing-get live ((n, k) ∷ frozen) (suc i) name kept e f =
    differing-get live frozen i name kept (ground arith) f

differing-append :
    (live : Name → ℕ) (xs ys : List (Name × ℕ))
    → is_empty (differing live (xs ++ ys)) ≡ true
    → is_empty (differing live ys) ≡ true
unfolding differing
differing-append live [] ys e = e
differing-append live ((n, k) ∷ xs) ys e = differing-append live xs ys (ground arith)

-- When `verify_final` passes, an entry of the registry on or around a protected name (a patched
-- target, an attached member or a dependency) has no hook at all or is exactly the frozen entry: no
-- other plugin's hook, no later one and no changed one is left there.
pub verify_final_only_frozen :
    (f : Frozen) (registry : Registry) (live : Name → ℕ) (i : ℕ) (key : Name) (hooks : List Hook)
    → verify_final (some f) registry live ≡ none
    → get_elem? registry i ≡ some (key, hooks)
    → overlaps_any key (protected_names f) ≡ true
    → (hooks ≡ []) ⊎ (find key f.hooks ≡ some hooks)
unfolding verify_final check_final is_late
verify_final_only_frozen f registry live i key hooks e g o =
    let own = foreign_overlaps-get registry (protected_names f) i key hooks (ground arith) g o in
    let early = late-get f.hooks registry i key hooks (ground arith) g in
    elim (Option-cases (find key f.hooks)) [
      | inl new ↦ inl (own_hooks hooks own (ground arith))
      | inr (kept, there) ↦ inr (ground (arith, hooks_eq_iff hooks kept))
    ]

-- When `verify_final` passes, every patched target and every attached member still stands for the
-- object that the activation put there.
pub verify_final_keeps :
    (f : Frozen) (registry : Registry) (live : Name → ℕ) (i : ℕ) (name : Name) (kept : ℕ)
    → verify_final (some f) registry live ≡ none
    → (get_elem? f.applied i ≡ some (name, kept)) ⊎ (get_elem? f.attached i ≡ some (name, kept))
    → live name ≡ kept
unfolding verify_final check_final
verify_final_keeps f registry live i name kept e (inl patched) =
    differing-get live f.applied i name kept
      (differing-append live (unapplied f.applied f.depends) f.applied (ground arith)) patched
verify_final_keeps f registry live i name kept e (inr attached) =
    differing-get live f.attached i name kept (ground arith) attached
