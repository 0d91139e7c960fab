-- ===== src/Patching/Final.antt =====
-- `verify_final`: the registry of SGLang's hooks against what the activation froze. The registry is a
-- dict of names to hooks; the objects that the names stand for are numbers.
use qsa_hisparse.Prelude.{
  ℕ, String, Bool, true, false, not, ◌&&◌, ◌||◌, Option, none, some, List, [], ◌∷◌, ◌++◌,
  if◌then◌else◌, str_eq, ◌==◌, is_some,
}
use qsa_hisparse.Patching.Names.{Name, name_eq, overlaps_any}

-- `HookSource`
pub record Source : Type 0 where
  pub plugin_name : String
  pub dist_name : String

-- An entry of the registry: the type and the object of the hook, and where it comes from.
pub record Hook : Type 0 where
  pub hook_type : ℕ
  pub hook : ℕ
  pub source : Option Source

abbrev pub Registry : Type 0
Registry = List (Name × List Hook)

-- `_source()`
abbrev pub ours : Source
ours = record { plugin_name = "qsa_hisparse"; dist_name = "sglang-qsa-hisparse" }

unfoldable pub is_ours : Hook → Bool
is_ours h = elim h.source [
  | none ↦ false
  | some s ↦ str_eq s.plugin_name ours.plugin_name && str_eq s.dist_name ours.dist_name
]

-- Whether a hook says that it is from this plugin.
unfoldable pub claims_ours : Hook → Bool
claims_ours h = elim h.source [ none ↦ false | some s ↦ str_eq s.plugin_name ours.plugin_name ]

unfoldable pub has_foreign : List Hook → Bool
unfolding is_ours
has_foreign [] = false
has_foreign (h ∷ hooks) = not (is_ours h) || has_foreign hooks

unfoldable pub has_claimed : List Hook → Bool
unfolding claims_ours
has_claimed [] = false
has_claimed (h ∷ hooks) = claims_ours h || has_claimed hooks

-- `_foreign_overlaps`: the keys that overlap a target and have a hook that is not exactly ours.
unfoldable pub foreign_overlaps : Registry → List Name → List Name
unfolding has_foreign overlaps_any
foreign_overlaps [] targets = []
foreign_overlaps ((key, hooks) ∷ registry) targets =
    let rest = foreign_overlaps registry targets in
    if has_foreign hooks && overlaps_any key targets then key ∷ rest else rest

-- `_existing_entries`: the keys that overlap a name and have any hook.
unfoldable pub existing_entries : Registry → List Name → List Name
unfolding overlaps_any
existing_entries [] names = []
existing_entries ((key, []) ∷ registry) names = existing_entries registry names
existing_entries ((key, h ∷ hooks) ∷ registry) names =
    let rest = existing_entries registry names in
    if overlaps_any key names then key ∷ rest else rest

-- `==` of two tuples of hooks.
unfoldable pub source_eq : Option Source → Option Source → Bool
source_eq none none = true
source_eq none (some b) = false
source_eq (some a) none = false
source_eq (some a) (some b) = str_eq a.plugin_name b.plugin_name && str_eq a.dist_name b.dist_name

unfoldable pub hooks_eq : List Hook → List Hook → Bool
unfolding source_eq
hooks_eq [] [] = true
hooks_eq [] (y ∷ ys) = false
hooks_eq (x ∷ xs) [] = false
hooks_eq (x ∷ xs) (y ∷ ys) =
    ((x.hook_type == y.hook_type) && ((x.hook == y.hook) && source_eq x.source y.source))
    && hooks_eq xs ys

-- A dict with names as keys.
unfoldable pub find : {V : Type 0} → Name → List (Name × V) → Option V
unfolding name_eq
find k [] = none
find k ((j, v) ∷ m) = let rest = find k m in if name_eq j k then some v else rest

-- What the activation freezes: the objects behind the patched targets and the dependencies, the hooks
-- of each target, and the attached members with their values.
pub record Frozen : Type 0 where
  pub applied : List (Name × ℕ)
  pub depends : List (Name × ℕ)
  pub hooks : Registry
  pub attached : List (Name × ℕ)

-- An entry that was changed, or that this plugin made, after the activation.
unfoldable pub is_late : Registry → Name → List Hook → Bool
unfolding find hooks_eq has_claimed
is_late frozen key hooks = elim (find key frozen) [
  | none ↦ has_claimed hooks
  | some kept ↦ not (hooks_eq hooks kept)
]

unfoldable pub late : Registry → Registry → List Name
unfolding is_late
late frozen [] = []
late frozen ((key, hooks) ∷ registry) =
    let rest = late frozen registry in if is_late frozen key hooks then key ∷ rest else rest

-- The names whose object is no longer the one that was frozen.
unfoldable pub differing : (Name → ℕ) → List (Name × ℕ) → List Name
differing live [] = []
differing live ((name, kept) ∷ frozen) =
    let rest = differing live frozen in if live name == kept then rest else name ∷ rest

-- The dependencies that are no targets, as `{**_frozen_depends, **_applied}` keeps them.
unfoldable pub unapplied : List (Name × ℕ) → List (Name × ℕ) → List (Name × ℕ)
unfolding find
unapplied applied [] = []
unapplied applied ((name, kept) ∷ depends) =
    let rest = unapplied applied depends in
    if is_some (find name applied) then rest else (name, kept) ∷ rest

unfoldable pub names_of : List (Name × ℕ) → List Name
names_of [] = []
names_of ((name, kept) ∷ rest) = name ∷ names_of rest

-- The `raise`s of `verify_final`, in their order.
pub data FinalError : Type 0 where
  not_activated foreign_hooks late_hooks replaced not_attached : FinalError

abbrev pub is_empty : List Name → Bool
is_empty [] = true
is_empty (n ∷ ns) = false

-- The names that the activation protects.
unfoldable pub protected_names : Frozen → List Name
unfolding names_of
protected_names f = names_of f.applied ++ (names_of f.attached ++ names_of f.depends)

unfoldable pub check_final : Frozen → Registry → (Name → ℕ) → Option FinalError
unfolding foreign_overlaps late differing unapplied protected_names
check_final f registry live =
    if not (is_empty (foreign_overlaps registry (protected_names f)))
    then some foreign_hooks
    else if not (is_empty (late f.hooks registry))
    then some late_hooks
    else if not (is_empty (differing live (unapplied f.applied f.depends ++ f.applied)))
    then some replaced
    else if not (is_empty (differing live f.attached))
    then some not_attached
    else none

-- `verify_final` up to its record: nothing, or what it raises. `live` gives the object that a name
-- stands for now.
unfoldable pub verify_final : Option Frozen → Registry → (Name → ℕ) → Option FinalError
unfolding check_final
verify_final none registry live = some not_activated
verify_final (some f) registry live = check_final f registry live
