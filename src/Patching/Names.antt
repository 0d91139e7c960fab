-- ===== src/Patching/Names.antt =====
-- Dotted names, by their parts: `startswith(b + ".")` asks for a proper prefix of parts.
use qsa_hisparse.Prelude.{
  String, ◌≡◌, ◌↔◌, ◌⊎◌, inl, inr, refl, Bool, true, false, ◌&&◌, ◌||◌, List, [], ◌∷◌, ◌++◌, str_eq,
  str_eq_iff, arith,
}

abbrev pub Name : Type 0
Name = List String

unfoldable pub name_eq : Name → Name → Bool
name_eq [] [] = true
name_eq [] (y ∷ ys) = false
name_eq (x ∷ xs) [] = false
name_eq (x ∷ xs) (y ∷ ys) = str_eq x y && name_eq xs ys

-- `a.startswith(b + ".")`
unfoldable pub is_below : Name → Name → Bool
is_below [] b = false
is_below (x ∷ xs) [] = true
is_below (x ∷ xs) (y ∷ ys) = str_eq x y && is_below xs ys

-- `_overlaps`
unfoldable pub overlaps : Name → Name → Bool
unfolding name_eq is_below
overlaps a b = name_eq a b || (is_below a b || is_below b a)

-- `any(_overlaps(key, name) for name in names)`
unfoldable pub overlaps_any : Name → List Name → Bool
unfolding overlaps
overlaps_any a [] = false
overlaps_any a (b ∷ bs) = overlaps a b || overlaps_any a bs

pub name_eq_iff : (a b : Name) → (name_eq a b ≡ true) ↔ (a ≡ b)
unfolding name_eq
name_eq_iff [] [] = ground arith
name_eq_iff [] (y ∷ ys) = ground arith
name_eq_iff (x ∷ xs) [] = ground arith
name_eq_iff (x ∷ xs) (y ∷ ys) = ground (arith, str_eq_iff x y, name_eq_iff xs ys)

-- `b` is a prefix of `a`.
abbrev pub IsPrefix : Name → Name → Type 0
IsPrefix b a = (rest : Name) × (a ≡ b ++ rest)

is_below-IsPrefix : (a b : Name) → ((name_eq a b || is_below a b) ≡ true) ↔ IsPrefix b a
unfolding name_eq is_below
is_below-IsPrefix [] [] = ((λ e. ([], refl)), (λ h. refl))
is_below-IsPrefix [] (y ∷ ys) = ((λ e. absurd (ground arith)), (λ h. absurd (ground (arith, h.1))))
is_below-IsPrefix (x ∷ xs) [] = ((λ e. (x ∷ xs, refl)), (λ h. refl))
is_below-IsPrefix (x ∷ xs) (y ∷ ys) = (
  (λ e.
      let (rest, f) = (is_below-IsPrefix xs ys).0 (ground arith) in
      (rest, ground (arith, str_eq_iff x y))),
  (λ h.
      let tail = (is_below-IsPrefix xs ys).1 (h.0, ground (arith, h.1)) in
      ground (arith, str_eq_iff x y, h.1)),
)

-- Two dotted names overlap exactly when one of them is a prefix of the other, part by part, so a name
-- overlaps itself, the classes and modules around it and the members in it, and nothing else.
pub overlaps_iff : (a b : Name) → (overlaps a b ≡ true) ↔ (IsPrefix b a ⊎ IsPrefix a b)
unfolding overlaps
overlaps_iff a b = (
  (λ e. elim (split e) [
    | inl p ↦ inl ((is_below-IsPrefix a b).0 p)
    | inr q ↦ inr ((is_below-IsPrefix b a).0 q)
  ]),
  (λ h. elim h [
    | inl p ↦ ground (arith, (is_below-IsPrefix a b).1 p)
    | inr q ↦ ground (arith, (is_below-IsPrefix b a).1 q, name_eq_iff a b, name_eq_iff b a)
  ]),
)
  where
    split :
        overlaps a b ≡ true
        → ((name_eq a b || is_below a b) ≡ true) ⊎ ((name_eq b a || is_below b a) ≡ true)
    split e = ground arith
