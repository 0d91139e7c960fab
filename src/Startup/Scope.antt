-- ===== src/Startup/Scope.antt =====
-- scope.py: whether this process serves a target model. What the configuration answers is a parameter
-- of each call; the answer that `functools.cache` keeps is the state.
use qsa_hisparse.Prelude.{
  String, ◌≡◌, ◌≢◌, ◌↔◌, inl, inr, refl, sym, ◌∙◌, ap, subst, Bool, true, false, ◌||◌, Option, none,
  some, List, [], ◌∷◌, if◌then◌else◌, str_eq, Option-cases, Bool-cases, List-cases, arith,
}

-- `_served_architectures()`: it raises, returns no list, or a list with a text or something else in
-- each place.
pub data Answer : Type 0 where
  raises no_list : Answer
  names : List (Option String) → Answer

-- `name in TARGET_ARCHITECTURES`
unfoldable pub is_target : String → Bool
is_target name = str_eq name "Qwen4ExpForConditionalGeneration"

-- The texts of the list, when all are texts.
unfoldable pub all_texts : List (Option String) → Option (List String)
all_texts [] = some []
all_texts (none ∷ xs) = none
all_texts (some x ∷ xs) = elim (all_texts xs) [ none ↦ none | some ys ↦ some (x ∷ ys) ]

-- A set of Booleans: whether it has `true`, and whether it has `false`.
unfoldable pub decisions : List String → Bool × Bool
unfolding is_target
decisions [] = (false, false)
decisions (x ∷ xs) =
    let rest = decisions xs in if is_target x then (true, rest.1) else (rest.0, true)

-- The one member of a set of Booleans.
unfoldable pub sole : Bool → Bool → Option Bool
sole true true = none
sole true false = some true
sole false true = some false
sole false false = none

-- The body of `target_model_active`; `none` is ScopeUndecidable.
unfoldable pub decide : Answer → Option Bool
unfolding all_texts decisions sole
decide raises = none
decide no_list = none
decide (names xs) = elim (all_texts xs) [
  | none ↦ none
  | some [] ↦ none
  | some (y ∷ ys) ↦ sole (decisions (y ∷ ys)).0 (decisions (y ∷ ys)).1
]

-- `target_model_active` behind its cache, which keeps an answer and no exception.
unfoldable pub target_model_active : Option Bool → Answer → Option Bool × Option Bool
unfolding decide
target_model_active (some b) answer = (some b, some b)
target_model_active none answer = (decide answer, decide answer)

-- Every architecture of the list is a text and the test answers `b` for it.
abbrev pub AllAre : Bool → List (Option String) → Type 0
AllAre b [] = Unit {0}
AllAre b (x ∷ xs) = ((name : String) × (x ≡ some name) × (is_target name ≡ b)) × AllAre b xs

AllAre-decisions :
    (b : Bool) (xs : List (Option String)) (ys : List String)
    → all_texts xs ≡ some ys
    → AllAre b xs ↔ ((if b then (decisions ys).1 else (decisions ys).0) ≡ false)
unfolding all_texts decisions
AllAre-decisions true [] ys e = ground arith
AllAre-decisions false [] ys e = ground arith
AllAre-decisions b (none ∷ xs) ys e = absurd (ground arith)
AllAre-decisions b (some x ∷ xs) ys e = elim (Option-cases (all_texts xs)) [
  | inl gone ↦ absurd (ground arith)
  | inr (zs, rest) ↦
      let both = AllAre-decisions b xs zs rest in
      let whole : ys ≡ x ∷ zs = ground arith in
      (
        (λ h.
            let same : x ≡ h.0.0 = ground (arith, h.0.1) in
            let here : is_target x ≡ b = ap is_target same ∙ h.0.2 in
            let others = both.0 h.1 in
            elim (Bool-cases b) [ inl for_it ↦ ground arith | inr other ↦ ground arith ]),
        (λ f. elim (Bool-cases b) [
          | inl for_it ↦ ((x, refl, ground arith), both.1 (ground arith))
          | inr other ↦ ((x, refl, ground arith), both.1 (ground arith))
        ]),
      )
]

AllAre-all_texts :
    (b : Bool) (xs : List (Option String))
    → AllAre b xs
    → (ys : List String) × (all_texts xs ≡ some ys)
unfolding all_texts
AllAre-all_texts b [] h = ([], refl)
AllAre-all_texts b (x ∷ xs) h =
    let (ys, rest) = AllAre-all_texts b xs h.1 in (h.0.0 ∷ ys, ground (arith, h.0.1))

sole_iff :
    (p q b : Bool)
    → (sole p q ≡ some b) ↔ (((if b then q else p) ≡ false) × ((if b then p else q) ≡ true))
unfolding sole
sole_iff true true true = ground arith
sole_iff true true false = ground arith
sole_iff true false true = ground arith
sole_iff true false false = ground arith
sole_iff false true true = ground arith
sole_iff false true false = ground arith
sole_iff false false true = ground arith
sole_iff false false false = ground arith

decisions_some :
    (y : String) (ys : List String) → ((decisions (y ∷ ys)).0 || (decisions (y ∷ ys)).1) ≡ true
unfolding decisions
decisions_some y ys = ground arith

decide-names :
    (x : Option String) (xs : List (Option String)) (b : Bool)
    → (decide (names (x ∷ xs)) ≡ some b) ↔ AllAre b (x ∷ xs)
unfolding decide
decide-names x xs b = elim (Option-cases (all_texts (x ∷ xs))) [
  | inl gone ↦ (
    (λ e. absurd (ground arith)),
    (λ h. absurd (let (zs, here) = AllAre-all_texts b (x ∷ xs) h in ground arith)),
  )
  | inr (zs, here) ↦ elim (List-cases zs) [
    | inl empty ↦ absurd (no_texts x here empty)
    | inr (y, ys, full) ↦
        let known : all_texts (x ∷ xs) ≡ some (y ∷ ys) = ground arith in
        let all = AllAre-decisions b (x ∷ xs) (y ∷ ys) known in
        let one = sole_iff (decisions (y ∷ ys)).0 (decisions (y ∷ ys)).1 b in
        let read : decide (names (x ∷ xs)) ≡ sole (decisions (y ∷ ys)).0 (decisions (y ∷ ys)).1 =
          rw (known, decide) refl in
        (
          (λ e. all.1 (one.0 (sym read ∙ e)).0),
          (λ h.
              let some_one = decisions_some y ys in
              let others = all.0 h in
              read
              ∙ one.1
                  (others, elim (Bool-cases b) [ inl p ↦ ground arith | inr q ↦ ground arith ])),
        )
  ]
]
  where
    no_texts : {zs : List String} (x : Option String) → all_texts (x ∷ xs) ≡ some zs → zs ≡ [] → ⊥
    no_texts none e f = ground arith
    no_texts (some x) e f = elim (Option-cases (all_texts xs)) [
      | inl gone ↦ ground arith
      | inr (ws, rest) ↦ ground arith
    ]

-- The process decides for or against the target model exactly when its configuration gives a list of
-- texts that is not empty and holds only target architectures, or only others; anything else is
-- undecidable, a mixed list too.
pub decide_iff :
    (answer : Answer) (b : Bool)
    → (decide answer ≡ some b)
      ↔ ((xs : List (Option String)) × (answer ≡ names xs) × (xs ≢ []) × AllAre b xs)
unfolding decide all_texts
decide_iff raises b = ((λ e. absurd (ground arith)), (λ h. absurd (ground (arith, h.1))))
decide_iff no_list b = ((λ e. absurd (ground arith)), (λ h. absurd (ground (arith, h.1))))
decide_iff (names []) b = ((λ e. absurd (ground arith)), (λ h. absurd (h.2 (ground (arith, h.1)))))
decide_iff (names (x ∷ xs)) b = (
  (λ e. (x ∷ xs, refl, (λ f. ground arith), (decide-names x xs b).0 e)),
  (λ h. (decide-names x xs b).1 (subst (AllAre b) (same h.0 h.1) h.3)),
)
  where
    same : (ys : List (Option String)) → names (x ∷ xs) ≡ names ys → ys ≡ x ∷ xs
    same ys e = ground arith

-- Once a process has decided, no later reading of its configuration changes the answer, and an
-- undecidable reading is not kept: the first answer that is kept is the first that was decided.
pub target_model_active_stable :
    (kept : Option Bool) (first later : Answer) (b : Bool)
    → (target_model_active kept first).1 ≡ some b
    → (target_model_active (target_model_active kept first).0 later ≡ (some b, some b))
      × ((target_model_active none first).0 ≡ decide first)
unfolding target_model_active
target_model_active_stable none first later b e = ground arith
target_model_active_stable (some c) first later b e = ground arith
