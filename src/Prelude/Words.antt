-- ===== src/Prelude/Words.antt =====
-- Sequences of numbers, such as byte strings: equality and prefixes.
use Prim.Native.Nat.{ℕ}
use mathlib.Core.Path.{◌≡◌, refl}
use mathlib.Core.Logic.{◌↔◌}
use mathlib.Core.Bool.{Bool, true, false, ◌&&◌}
use mathlib.Core.List.{List, [], ◌∷◌, ◌++◌}
use native.Mathlib.Omega.{arith}
use qsa_hisparse.Prelude.Tests.{◌==◌}

-- `==` of two sequences of numbers, and `startswith`.
unfoldable pub words_eq : List ℕ → List ℕ → Bool
words_eq [] [] = true
words_eq [] (y ∷ ys) = false
words_eq (x ∷ xs) [] = false
words_eq (x ∷ xs) (y ∷ ys) = (x == y) && words_eq xs ys

pub words_eq_iff : (xs ys : List ℕ) → (words_eq xs ys ≡ true) ↔ (xs ≡ ys)
unfolding words_eq
words_eq_iff [] [] = ground arith
words_eq_iff [] (y ∷ ys) = ground arith
words_eq_iff (x ∷ xs) [] = ground arith
words_eq_iff (x ∷ xs) (y ∷ ys) = ground (arith, words_eq_iff xs ys)

unfoldable pub starts_with : List ℕ → List ℕ → Bool
starts_with xs [] = true
starts_with [] (p ∷ ps) = false
starts_with (x ∷ xs) (p ∷ ps) = (x == p) && starts_with xs ps

pub starts_with_iff :
    (xs ps : List ℕ) → (starts_with xs ps ≡ true) ↔ ((rest : List ℕ) × (xs ≡ ps ++ rest))
unfolding starts_with
starts_with_iff xs [] = (λ e. (xs, refl), λ h. refl)
starts_with_iff [] (p ∷ ps) = (λ e. absurd (ground arith), λ h. absurd (ground (arith, h.1)))
starts_with_iff (x ∷ xs) (p ∷ ps) = (
  (λ e. let (rest, f) = (starts_with_iff xs ps).0 (ground arith) in (rest, ground arith)),
  (λ h. ground (arith, h.1, (starts_with_iff xs ps).1 (h.0, ground (arith, h.1)))),
)
