-- ===== src/Patching/Conflicts.antt =====
-- What follows when the declarations have no conflict.
use qsa_hisparse.Prelude.{
  ℕ, zero, suc, ◌<◌, ◌≡◌, inl, inr, Bool, false, ◌&&◌, none, some, List, [], ◌∷◌, Bool-cases, arith,
  get_elem?,
}
use qsa_hisparse.Patching.Names.{name_eq, is_below}
use qsa_hisparse.Patching.Collect.{
  PatchSpec, AttachSpec, key_eq, is_replace, any_spec, has_repeated, has_two_replaces, has_nested,
  conflict,
}

any_spec-get :
    (test : PatchSpec → Bool) (specs : List PatchSpec) (i : ℕ) (s : PatchSpec)
    → any_spec test specs ≡ false
    → get_elem? specs i ≡ some s
    → test s ≡ false
unfolding any_spec
any_spec-get test [] i s e f = absurd (ground arith)
any_spec-get test (x ∷ specs) zero s e f = let a : x ≡ s = ground arith in ground arith
any_spec-get test (x ∷ specs) (suc i) s e f = any_spec-get test specs i s (ground arith) f

has_repeated-get :
    (specs : List PatchSpec) (i j : ℕ) (a b : PatchSpec)
    → has_repeated specs ≡ false
    → i < j
    → get_elem? specs i ≡ some a
    → get_elem? specs j ≡ some b
    → key_eq a b ≡ false
unfolding has_repeated
has_repeated-get [] i j a b e h f g = absurd (ground arith)
has_repeated-get (x ∷ specs) i zero a b e h f g = absurd (omega arith)
has_repeated-get (x ∷ specs) zero (suc j) a b e h f g =
    let same : x ≡ a = ground arith in
    let one = any_spec-get (λ t. key_eq x t) specs j b (ground arith) g in ground arith
has_repeated-get (x ∷ specs) (suc i) (suc j) a b e h f g =
    has_repeated-get specs i j a b (ground arith) (omega arith) f g

has_two_replaces-get :
    (specs : List PatchSpec) (i j : ℕ) (a b : PatchSpec)
    → has_two_replaces specs ≡ false
    → i < j
    → get_elem? specs i ≡ some a
    → get_elem? specs j ≡ some b
    → (is_replace a && (is_replace b && name_eq a.target b.target)) ≡ false
unfolding has_two_replaces
has_two_replaces-get [] i j a b e h f g = absurd (ground arith)
has_two_replaces-get (x ∷ specs) i zero a b e h f g = absurd (omega arith)
has_two_replaces-get (x ∷ specs) zero (suc j) a b e h f g =
    let same : x ≡ a = ground arith in
    elim (Bool-cases (is_replace x)) [
      | inr other ↦ ground arith
      | inl replaces ↦
          let one =
            any_spec-get (λ t. is_replace t && name_eq x.target t.target) specs j b (ground arith)
              g in
          ground arith
    ]
has_two_replaces-get (x ∷ specs) (suc i) (suc j) a b e h f g =
    has_two_replaces-get specs i j a b (ground arith) (omega arith) f g

has_nested-get :
    (all specs : List PatchSpec) (i j : ℕ) (a b : PatchSpec)
    → has_nested all specs ≡ false
    → get_elem? specs i ≡ some a
    → get_elem? all j ≡ some b
    → ((is_replace b && b.hook_is_class) && is_below a.target b.target) ≡ false
unfolding has_nested
has_nested-get all [] i j a b e f g = absurd (ground arith)
has_nested-get all (x ∷ specs) zero j a b e f g =
    let same : x ≡ a = ground arith in
    let one =
      any_spec-get (λ o. (is_replace o && o.hook_is_class) && is_below x.target o.target) all j b
        (ground arith) g in
    ground arith
has_nested-get all (x ∷ specs) (suc i) j a b e f g =
    has_nested-get all specs i j a b (ground arith) f g

-- When the declarations of the active features pass the checks on conflicts, two of them in different
-- places differ in feature, row, target or type, at most one of them replaces a given target, and
-- none hooks a member of a class that another one replaces.
pub conflict_apart :
    (specs : List PatchSpec) (attaches : List AttachSpec) (i j : ℕ) (a b : PatchSpec)
    → conflict specs attaches ≡ none
    → i < j
    → get_elem? specs i ≡ some a
    → get_elem? specs j ≡ some b
    → (key_eq a b ≡ false)
      × ((is_replace a && (is_replace b && name_eq a.target b.target)) ≡ false)
      × (((is_replace b && b.hook_is_class) && is_below a.target b.target) ≡ false)
      × (((is_replace a && a.hook_is_class) && is_below b.target a.target) ≡ false)
unfolding conflict
conflict_apart specs attaches i j a b e h f g = (
  has_repeated-get specs i j a b (ground arith) h f g,
  has_two_replaces-get specs i j a b (ground arith) h f g,
  has_nested-get specs specs i j a b (ground arith) f g,
  has_nested-get specs specs j i b a (ground arith) g f,
)
