-- ===== src/Prelude/Dicts.antt =====
-- A Python dict with integer keys: its items in insertion order.
use Prim.Native.Nat.{ℕ, ◌+◌}
use mathlib.Core.Path.{◌≡◌, refl}
use mathlib.Core.Bool.{Bool}
use mathlib.Core.List.{List, [], ◌∷◌, ◌++◌}
use mathlib.Core.Option.{Option, none, some}
use native.Mathlib.Omega.{arith}
use qsa_hisparse.Prelude.Lists.{length}
use qsa_hisparse.Prelude.Tests.{◌==◌, if◌then◌else◌, is_some}

abbrev pub Dict : Type 0 → Type 0
Dict V = List (ℕ × V)

module _ {V : Type 0} where
  -- `d.get(k)`
  unfoldable pub get : ℕ → Dict V → Option V
  get k [] = none
  get k ((j, v) ∷ m) = if j == k then some v else get k m

  -- `k in d`
  abbrev pub has : ℕ → Dict V → Bool
  has k m = is_some (get k m)

  -- `d.get(k, x)`
  abbrev pub get_or : ℕ → Dict V → V → V
  get_or k m x = elim (get k m) [ none ↦ x | some v ↦ v ]

  -- `d[k] = v`: in place, or at the end.
  unfoldable pub put : ℕ → V → Dict V → Dict V
  put k v [] = (k, v) ∷ []
  put k v ((j, w) ∷ m) = if j == k then (j, v) ∷ m else (j, w) ∷ put k v m

  -- `del d[k]`
  unfoldable pub del : ℕ → Dict V → Dict V
  del k [] = []
  del k ((j, w) ∷ m) = let rest = del k m in if j == k then rest else (j, w) ∷ rest

  pub get-put :
      (k j : ℕ) (v : V) (m : Dict V) → get j (put k v m) ≡ (if k == j then some v else get j m)
  unfolding get put
  get-put k j v [] = refl
  get-put k j v ((i, w) ∷ m) = ground (arith, get-put k j v m)

  pub get-del : (k j : ℕ) (m : Dict V) → get j (del k m) ≡ (if k == j then none else get j m)
  unfolding get del
  get-del k j [] = ground arith
  get-del k j ((i, w) ∷ m) = ground (arith, get-del k j m)

  pub get-append :
      (k : ℕ) (m n : Dict V) → get k (m ++ n) ≡ elim (get k m) [ none ↦ get k n | some v ↦ some v ]
  unfolding get
  get-append k [] n = refl
  get-append k ((j, v) ∷ m) n = ground (arith, get-append k m n)

  pub put-put : (k : ℕ) (v w : V) (m : Dict V) → put k v (put k w m) ≡ put k v m
  unfolding put
  put-put k v w [] = ground arith
  put-put k v w ((j, x) ∷ m) = ground (arith, put-put k v w m)

  -- No key stands twice.
  abbrev pub Unique : Dict V → Type 0
  Unique [] = Unit {0}
  Unique ((k, v) ∷ m) = (get k m ≡ none) × Unique m

  pub Unique-put : (k : ℕ) (v : V) (m : Dict V) → Unique m → Unique (put k v m)
  unfolding put get
  Unique-put k v [] u = (refl, tt)
  Unique-put k v ((j, w) ∷ m) u = ground (arith, get-put k j v m, Unique-put k v m u.1)

  pub Unique-del : (k : ℕ) (m : Dict V) → Unique m → Unique (del k m)
  unfolding del get
  Unique-del k [] u = tt
  Unique-del k ((j, w) ∷ m) u = ground (arith, get-del k j m, Unique-del k m u.1)

  pub del_absent : (k : ℕ) (m : Dict V) → get k m ≡ none → del k m ≡ m
  unfolding get del
  del_absent k [] h = refl
  del_absent k ((j, w) ∷ m) h = ground (arith, del_absent k m)

  pub del-put_new : (k : ℕ) (v : V) (m : Dict V) → get k m ≡ none → del k (put k v m) ≡ m
  unfolding get put del
  del-put_new k v [] h = ground arith
  del-put_new k v ((j, x) ∷ m) h = ground (arith, del-put_new k v m)

  -- The sum of a weight over the values.
  abbrev pub weigh : (V → ℕ) → Dict V → ℕ
  weigh f [] = 0
  weigh f ((k, v) ∷ m) = f v + weigh f m

  pub weigh-put_new :
      (f : V → ℕ) (k : ℕ) (v : V) (m : Dict V)
      → get k m ≡ none
      → weigh f (put k v m) ≡ weigh f m + f v
  unfolding get put
  weigh-put_new f k v [] h = omega arith
  weigh-put_new f k v ((j, w) ∷ m) h = ground (arith, weigh-put_new f k v m)

  pub weigh-put :
      (f : V → ℕ) (k : ℕ) (v w : V) (m : Dict V)
      → get k m ≡ some w
      → weigh f (put k v m) + f w ≡ weigh f m + f v
  unfolding get put
  weigh-put f k v w [] h = absurd (ground arith)
  weigh-put f k v w ((j, x) ∷ m) h = ground (arith, weigh-put f k v w m)

  pub weigh-del :
      (f : V → ℕ) (k : ℕ) (v : V) (m : Dict V)
      → Unique m
      → get k m ≡ some v
      → weigh f (del k m) + f v ≡ weigh f m
  unfolding get del
  weigh-del f k v [] u h = absurd (ground arith)
  weigh-del f k v ((j, x) ∷ m) u h = ground (arith, weigh-del f k v m u.1, del_absent k m)

  abbrev pub each_one : V → ℕ
  each_one v = 1

  pub length-weigh : (m : Dict V) → length m ≡ weigh each_one m
  length-weigh [] = refl
  length-weigh ((k, v) ∷ m) = omega (arith, length-weigh m)

  pub length-put_new :
      (k : ℕ) (v : V) (m : Dict V) → get k m ≡ none → length (put k v m) ≡ length m + 1
  length-put_new k v m h =
      omega (arith, length-weigh m, length-weigh (put k v m), weigh-put_new each_one k v m h)

  pub length-put : (k : ℕ) (v w : V) (m : Dict V) → get k m ≡ some w → length (put k v m) ≡ length m
  length-put k v w m h =
      omega (arith, length-weigh m, length-weigh (put k v m), weigh-put each_one k v w m h)

  pub length-del :
      (k : ℕ) (v : V) (m : Dict V) → Unique m → get k m ≡ some v → length (del k m) + 1 ≡ length m
  length-del k v m u h =
      omega (arith, length-weigh m, length-weigh (del k m), weigh-del each_one k v m u h)

  pub Unique-append_one :
      (m : Dict V) (k : ℕ) (v : V) → Unique m → get k m ≡ none → Unique (m ++ (k, v) ∷ [])
  unfolding get
  Unique-append_one [] k v u h = (refl, tt)
  Unique-append_one ((j, w) ∷ m) k v u h =
      ground (arith, get-append j m ((k, v) ∷ []), Unique-append_one m k v u.1)

  pub get-append_one :
      (j k : ℕ) (v : V) (m : Dict V)
      → get k m ≡ none
      → get j (m ++ (k, v) ∷ []) ≡ (if k == j then some v else get j m)
  unfolding get
  get-append_one j k v [] h = refl
  get-append_one j k v ((i, w) ∷ m) h = ground (arith, get-append_one j k v m)
