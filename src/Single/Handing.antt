-- ===== src/Single/Handing.antt =====
-- single_request.py: `handoff_layers` over all layers, for a prompt whose rows are known.
use qsa_hisparse.Prelude.{
  ℕ, zero, suc, ◌+◌, ◌/◌, ◌<◌, ◌≤◌, ◌≡◌, refl, sym, ap, subst, Bool, true, some, List, [], ◌∷◌,
  length, get_elem?, arith,
}
use qsa_hisparse.Single.Rows.{Rows}
use qsa_hisparse.Single.State.{Layer, LayerState}
use qsa_hisparse.Single.Handoff.{handoff_layer, handoff_layers}
use qsa_hisparse.Single.Handed.{handoff_layer-IsHanded}
use qsa_hisparse.Single.Decode.{Writer, Holds, handed-Holds}

-- The rows of the tokens of each layer are `k` and `v`.
module _ {A : Type 0} (blank : A) (w : Writer A) (k v : ℕ → Rows A) where
  -- The rows of the prompt, at its slots.
  abbrev pub HasPrompt : List ℕ → ℕ → Layer A → Type 0
  HasPrompt slots li layer =
      (t p : ℕ)
      → get_elem? slots t ≡ some p
      → (layer.k_buffer p ≡ k li t) × (layer.v_buffer p ≡ v li t)

  -- What is stated of one layer that was handed over.
  abbrev pub HandedAt : List ℕ → ℕ → ℕ → ℕ → List (Layer A) → List (LayerState A) → Type 0
  HandedAt slots generation row li layers states =
      (layer : Layer A) × (state : LayerState A) × (get_elem? layers li ≡ some layer)
      × (get_elem? states li ≡ some state)
      × (state.generation ≡ generation)
      × Holds (k row) (v row) (length slots) layer state

  pub record IsHandedOver (slots : List ℕ) (generation first : ℕ) (before layers : List (Layer A))
      (states : List (LayerState A)) : Type 0 where
    pub same_length : length layers ≡ length before
    pub each :
        (li : ℕ) → li < length before → HandedAt slots generation (first + li) li layers states

  handoff_layers-cons :
      (slots : List ℕ) (blocks generation : ℕ) (layer after : Layer A) (state : LayerState A)
      (layers : List (Layer A))
      → handoff_layer blank slots blocks generation layer ≡ some (after, state)
      → handoff_layers blank slots blocks generation (layer ∷ layers) ≡ (
        after ∷ (handoff_layers blank slots blocks generation layers).0,
        state ∷ (handoff_layers blank slots blocks generation layers).1,
        (handoff_layers blank slots blocks generation layers).2,
      )
  unfolding handoff_layers
  handoff_layers-cons slots blocks generation layer after state layers e = ground arith

  handed_each :
      (slots : List ℕ) (generation first : ℕ) (before layers : List (Layer A)) (after : Layer A)
      (states : List (LayerState A)) (state : LayerState A)
      → state.generation ≡ generation
      → Holds (k (first + 0)) (v (first + 0)) (length slots) after state
      → ((li : ℕ)
          → li < length before
          → HandedAt slots generation (suc first + li) li layers states)
      → (li : ℕ) → li < suc (length before)
      → HandedAt slots generation (first + li) li (after ∷ layers) (state ∷ states)
  handed_each slots generation first before layers after states state g h rest zero lt =
      (after, state, refl, refl, g, h)
  handed_each slots generation first before layers after states state g h rest (suc li) lt =
      let next : suc first + li ≡ first + suc li = omega arith in
      subst (λ y. HandedAt slots generation y (suc li) (after ∷ layers) (state ∷ states)) next
        (rest li (omega arith))

  pub handoff_layers-IsHandedOver :
      (slots : List ℕ) (generation first : ℕ) (layers : List (Layer A))
      → 4 ≤ length slots
      → ((li : ℕ) (layer : Layer A)
          → get_elem? layers li ≡ some layer
          → HasPrompt slots (first + li) layer)
      → ((handoff_layers blank slots (length slots / 4) generation layers).2 ≡ true)
        × IsHandedOver slots generation first layers
            (handoff_layers blank slots (length slots / 4) generation layers).0
            (handoff_layers blank slots (length slots / 4) generation layers).1
  unfolding handoff_layers
  handoff_layers-IsHandedOver slots generation first [] enough prompt =
      (refl, record { same_length = refl; each = λ li lt. absurd (omega arith) })
  handoff_layers-IsHandedOver slots generation first (layer ∷ layers) enough prompt =
      let (after, state, run, handed) =
        handoff_layer-IsHanded blank slots generation layer enough in
      let next : (li : ℕ) → first + suc li ≡ suc first + li = λ li. omega arith in
      let (all, rest) =
        handoff_layers-IsHandedOver slots generation (suc first) layers enough
          (λ li x e. subst (λ y. HasPrompt slots y x) (next li) (prompt (suc li) x e)) in
      let z : first + 0 ≡ first = omega arith in
      let first_holds =
        handed-Holds w (k (first + 0)) (v (first + 0)) slots generation layer after state
          (prompt 0 layer refl) handed in
      let r = handoff_layers blank slots (length slots / 4) generation layers in
      let whole =
        handoff_layers-cons slots (length slots / 4) generation layer after state layers run in
      subst
        (λ (x : List (Layer A) × List (LayerState A) × Bool).
          (x.2 ≡ true) × IsHandedOver slots generation first (layer ∷ layers) x.0 x.1)
        (sym whole)
        (
          all,
          record {
            same_length = ap suc rest.same_length;
            each =
                handed_each slots generation first layers r.0 after r.1 state handed.current
                  first_holds rest.each;
          },
        )
