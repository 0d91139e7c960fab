-- ===== src/Patching/Collect.antt =====
-- `collect`: the declarations of the active features, and the conflicts that it refuses.
use qsa_hisparse.Prelude.{
  ℕ, String, ◌⊎◌, inl, inr, Bool, false, ◌&&◌, ◌||◌, Option, none, some, List, [], ◌∷◌, ◌++◌,
  if◌then◌else◌, str_eq, ◌==◌,
}
use qsa_hisparse.Patching.Names.{Name, name_eq, is_below}

-- `HOOK_TYPES`
pub data HookType : Type 0 where
  before_hook after_hook around_hook replace_hook : HookType

-- `PatchSpec`: the hook is an object, and whether it is a class.
pub record PatchSpec : Type 0 where
  pub target : Name
  pub hook_type : HookType
  pub hook : ℕ
  pub hook_is_class : Bool
  pub feature : String
  pub row : String
  pub depends : List Name

-- `AttachSpec`
pub record AttachSpec : Type 0 where
  pub owner : Name
  pub name : String
  pub value : ℕ
  pub feature : String
  pub row : String
  pub depends : List Name

abbrev pub attach_target : AttachSpec → Name
attach_target a = a.owner ++ a.name ∷ []

-- `spec.feature in wanted`, for the features that are active and the framework.
unfoldable pub feature_in : String → List String → Bool
feature_in f [] = false
feature_in f (g ∷ gs) = str_eq g f || feature_in f gs

unfoldable pub wanted_specs : List String → List PatchSpec → List PatchSpec
unfolding feature_in
wanted_specs wanted [] = []
wanted_specs wanted (s ∷ specs) =
    let rest = wanted_specs wanted specs in if feature_in s.feature wanted then s ∷ rest else rest

unfoldable pub wanted_attaches : List String → List AttachSpec → List AttachSpec
unfolding feature_in
wanted_attaches wanted [] = []
wanted_attaches wanted (a ∷ attaches) =
    let rest = wanted_attaches wanted attaches in
    if feature_in a.feature wanted then a ∷ rest else rest

abbrev hook_code : HookType → ℕ
hook_code before_hook = 0
hook_code after_hook = 1
hook_code around_hook = 2
hook_code replace_hook = 3

-- `==` of the keys of two declarations.
unfoldable pub key_eq : PatchSpec → PatchSpec → Bool
key_eq a b =
    str_eq a.feature b.feature
    && (str_eq a.row b.row
        && (name_eq a.target b.target && (hook_code a.hook_type == hook_code b.hook_type)))

abbrev pub is_replace : PatchSpec → Bool
is_replace s = hook_code s.hook_type == 3

-- Whether a test holds of some declaration.
unfoldable pub any_spec : (PatchSpec → Bool) → List PatchSpec → Bool
any_spec f [] = false
any_spec f (s ∷ specs) = f s || any_spec f specs

-- `keys.count(k) > 1` of some key.
unfoldable pub has_repeated : List PatchSpec → Bool
unfolding any_spec key_eq
has_repeated [] = false
has_repeated (s ∷ specs) = any_spec (λ t. key_eq s t) specs || has_repeated specs

-- The loop over the REPLACE patches.
unfoldable pub has_two_replaces : List PatchSpec → Bool
unfolding any_spec name_eq
has_two_replaces [] = false
has_two_replaces (s ∷ specs) =
    (is_replace s && any_spec (λ t. is_replace t && name_eq s.target t.target) specs)
    || has_two_replaces specs

-- A hook on a member of a class that another hook replaces.
unfoldable pub has_nested : List PatchSpec → List PatchSpec → Bool
unfolding any_spec is_below
has_nested all [] = false
has_nested all (s ∷ specs) =
    any_spec (λ owner. (is_replace owner && owner.hook_is_class) && is_below s.target owner.target)
      all
    || has_nested all specs

unfoldable pub any_attach : (AttachSpec → Bool) → List AttachSpec → Bool
any_attach f [] = false
any_attach f (a ∷ attaches) = f a || any_attach f attaches

unfoldable pub has_duplicates : List AttachSpec → Bool
unfolding any_attach name_eq
has_duplicates [] = false
has_duplicates (a ∷ attaches) =
    any_attach (λ b. name_eq (attach_target a) (attach_target b)) attaches
    || has_duplicates attaches

unfoldable pub has_hooked : List AttachSpec → List PatchSpec → Bool
unfolding any_spec name_eq
has_hooked [] specs = false
has_hooked (a ∷ attaches) specs =
    any_spec (λ s. name_eq s.target (attach_target a)) specs || has_hooked attaches specs

-- The `raise`s of `collect`, in their order.
pub data Conflict : Type 0 where
  repeated two_replaces nested duplicates hooked : Conflict

unfoldable pub conflict : List PatchSpec → List AttachSpec → Option Conflict
unfolding has_repeated has_two_replaces has_nested has_duplicates has_hooked
conflict specs attaches =
    if has_repeated specs
    then some repeated
    else if has_two_replaces specs
    then some two_replaces
    else if has_nested specs specs
    then some nested
    else if has_duplicates attaches
    then some duplicates
    else if has_hooked attaches specs
    then some hooked
    else none

-- `collect` up to the manifest: the declarations of what is wanted, or the conflict among them.
unfoldable pub collect :
    List String → List PatchSpec → List AttachSpec → Conflict ⊎ (List PatchSpec × List AttachSpec)
unfolding wanted_specs wanted_attaches conflict
collect wanted declared attached =
    let specs = wanted_specs wanted declared in
    let attaches = wanted_attaches wanted attached in
    elim (conflict specs attaches) [ some c ↦ inl c | none ↦ inr (specs, attaches) ]
