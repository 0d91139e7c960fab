-- ===== src/Single/Passes.antt =====
-- single_request.py: one forward pass over the layers, each with its kernel and `after_store`. The kernel
-- that writes the rows of a token at `ring_loc` is SGLang's, and an argument.
use qsa_hisparse.Prelude.{
  ℕ, zero, suc, ◌+◌, ◌-◌, ◌/◌, ◌%◌, ◌<◌, ◌≤◌, ◌≡◌, ◌≢◌, refl, sym, ◌∙◌, ap, subst, inl, inr, true,
  false, none, some, List, [], ◌∷◌, ◌==◌, length, get_elem?, Outcome, done, and_then, Bool-cases,
  arith,
}
use qsa_hisparse.Single.Rows.{Rows}
use qsa_hisparse.Single.State.{Layer, LayerState, Single, Error}
use qsa_hisparse.Single.Calls.{set_at, store_record, after_store}
use qsa_hisparse.Single.Decode.{Writer, Holds, token_step, token_step-Holds}

set_at_here :
    {B : Type 0} (xs : List B) (i : ℕ) (x b : B)
    → get_elem? xs i ≡ some x
    → get_elem? (set_at xs i b) i ≡ some b
unfolding set_at
set_at_here [] i x b h = absurd (ground arith)
set_at_here (y ∷ xs) zero x b h = refl
set_at_here (y ∷ xs) (suc i) x b h = set_at_here xs i x b h

set_at_elsewhere :
    {B : Type 0} (xs : List B) (i j : ℕ) (b : B)
    → j ≢ i
    → get_elem? (set_at xs i b) j ≡ get_elem? xs j
unfolding set_at
set_at_elsewhere [] i j b h = refl
set_at_elsewhere (x ∷ xs) zero zero b h = absurd (h refl)
set_at_elsewhere (x ∷ xs) zero (suc j) b h = refl
set_at_elsewhere (x ∷ xs) (suc i) zero b h = refl
set_at_elsewhere (x ∷ xs) (suc i) (suc j) b h = set_at_elsewhere xs i j b (λ e. h (ap suc e))

length-set_at : {B : Type 0} (xs : List B) (i : ℕ) (b : B) → length (set_at xs i b) ≡ length xs
unfolding set_at
length-set_at [] i b = refl
length-set_at (x ∷ xs) zero b = refl
length-set_at (x ∷ xs) (suc i) b = ground (arith, length-set_at xs i b)

-- `after_store` of a layer that it finds.
module _ {A : Type 0} (t : Single A) (li : ℕ) (layer : Layer A) (state : LayerState A)
    (on : t.offloaded ≡ true) (is_layer : get_elem? t.layers li ≡ some layer)
    (is_state : get_elem? t.states li ≡ some state)
    (current : state.generation ≡ t.generation) where
  after_store_complete :
      (t.seq_len % 4 == 0) ≡ true
      → after_store t li
        ≡ done
            (record t {
              layers = set_at t.layers li (store_record (t.seq_len / 4 - 1) layer state).0;
              states = set_at t.states li (store_record (t.seq_len / 4 - 1) layer state).1;
            })
            tt
  unfolding after_store
  after_store_complete e = ground arith

  after_store_partial : (t.seq_len % 4 == 0) ≡ false → after_store t li ≡ done t tt
  unfolding after_store
  after_store_partial e = ground arith

-- The rows of the tokens of each layer are `k` and `v`.
module _ {A : Type 0} (w : Writer A) (k v : ℕ → Rows A) where
  -- The kernel of a layer writes the rows of the last token at `ring_loc`.
  abbrev pub write_token : ℕ → Single A → Single A
  write_token li s = elim (get_elem? s.layers li) [
    | none ↦ s
    | some layer ↦ record s {
      layers = set_at s.layers li (record layer {
        k_buffer = w.put layer.k_buffer s.ring_loc (k li (s.seq_len - 1));
        v_buffer = w.put layer.v_buffer s.ring_loc (v li (s.seq_len - 1));
      });
    }
  ]

  -- The layers of one forward pass, in their order.
  abbrev pub store_layers : ℕ → Single A → Outcome Error (Single A) (Unit {0})
  store_layers zero s = done s tt
  store_layers (suc li) s = and_then (store_layers li s) (λ t u. after_store (write_token li t) li)

  -- A layer of the adapter holds the rows of the first `seq` tokens.
  pub record LayerHolds (s : Single A) (li seq : ℕ) : Type 0 where
    pub layer : Layer A
    pub state : LayerState A
    pub is_layer : get_elem? s.layers li ≡ some layer
    pub is_state : get_elem? s.states li ≡ some state
    pub current : state.generation ≡ s.generation
    pub holds : Holds (k li) (v li) seq layer state

  -- After `begin_batch` and before the layers.
  pub record IsPending (s : Single A) (seq : ℕ) : Type 0 where
    pub offloaded : s.offloaded ≡ true
    pub stepped : s.seq_len ≡ seq + 1
    pub located : s.ring_loc ≡ 1 + seq % 4

  -- One layer of a forward pass.
  Stored : Single A → ℕ → ℕ → Type 0
  Stored s li seq =
      (layers : List (Layer A)) × (states : List (LayerState A)) × (after_store (write_token li s)
          li
        ≡ done (record s { layers = layers; states = states }) tt)
      × LayerHolds (record s { layers = layers; states = states }) li (seq + 1)
      × (length layers ≡ length s.layers)
      × ((j : ℕ)
          → j ≢ li
          → (get_elem? layers j ≡ get_elem? s.layers j)
            × (get_elem? states j ≡ get_elem? s.states j))

  -- What the step of a layer comes to.
  module _ (li seq n : ℕ) (layer : Layer A) (state : LayerState A) (e : n ≡ seq + 1) where
    abbrev written_layer : Layer A
    written_layer = record layer {
      k_buffer = w.put layer.k_buffer (1 + seq % 4) (k li seq);
      v_buffer = w.put layer.v_buffer (1 + seq % 4) (v li seq);
    }

    token_step_complete :
        (n % 4 == 0) ≡ true
        → token_step w (k li) (v li) seq layer state ≡ store_record (n / 4 - 1) written_layer state
    token_step_complete c =
        let m : ((seq + 1) % 4 == 0) ≡ true = subst (λ x. (x % 4 == 0) ≡ true) e c in
        rw m (ap (λ x. store_record (x / 4 - 1) written_layer state) (sym e))

    token_step_partial :
        (n % 4 == 0) ≡ false → token_step w (k li) (v li) seq layer state ≡ (written_layer, state)
    token_step_partial c =
        let m : ((seq + 1) % 4 == 0) ≡ false = subst (λ x. (x % 4 == 0) ≡ false) e c in rw m refl

  after_store-Stored :
      (s : Single A) (li seq : ℕ) → IsPending s seq → LayerHolds s li seq → Stored s li seq
  unfolding Stored after_store
  after_store-Stored s li seq p h =
      let written : Layer A = record h.layer {
        k_buffer = w.put h.layer.k_buffer (1 + seq % 4) (k li seq);
        v_buffer = w.put h.layer.v_buffer (1 + seq % 4) (v li seq);
      } in
      let kept = token_step-Holds w (k li) (v li) seq h.layer h.state h.holds in
      let t : Single A = record s { layers = set_at s.layers li written } in
      let last : s.seq_len - 1 ≡ seq = omega (arith, p.stepped) in
      let is_written : write_token li s ≡ t = ground (arith, h.is_layer, p.located, last) in
      let here = set_at_here s.layers li h.layer written h.is_layer in
      elim (Bool-cases (s.seq_len % 4 == 0)) [
        | inl e ↦
            let next = store_record (s.seq_len / 4 - 1) written h.state in
            (
              set_at t.layers li next.0,
              set_at s.states li next.1,
              ap (λ x. after_store x li) is_written
                  ∙ after_store_complete t li written h.state p.offloaded here h.is_state h.current
                      e,
              record {
                layer = next.0;
                state = next.1;
                is_layer = set_at_here t.layers li written next.0 here;
                is_state = set_at_here s.states li h.state next.1 h.is_state;
                current = h.current;
                holds =
                    subst (λ x. Holds (k li) (v li) (seq + 1) x.0 x.1)
                      (token_step_complete li seq s.seq_len h.layer h.state p.stepped e) kept;
              },
              length-set_at t.layers li next.0 ∙ length-set_at s.layers li written,
              λ j other. (
                set_at_elsewhere t.layers li j next.0 other
                    ∙ set_at_elsewhere s.layers li j written other,
                set_at_elsewhere s.states li j next.1 other,
              ),
            )
        | inr e ↦ (
          t.layers,
          s.states,
          ap (λ x. after_store x li) is_written
              ∙ after_store_partial t li written h.state p.offloaded here h.is_state h.current e,
          record {
            layer = written;
            state = h.state;
            is_layer = here;
            is_state = h.is_state;
            current = h.current;
            holds =
                subst (λ x. Holds (k li) (v li) (seq + 1) x.0 x.1)
                  (token_step_partial li seq s.seq_len h.layer h.state p.stepped e) kept;
          },
          length-set_at s.layers li written,
          λ j other. (set_at_elsewhere s.layers li j written other, refl),
        )
      ]

  LayerHolds-elsewhere :
      (s : Single A) (layers : List (Layer A)) (states : List (LayerState A)) (li seq : ℕ)
      → (get_elem? layers li ≡ get_elem? s.layers li)
        × (get_elem? states li ≡ get_elem? s.states li)
      → LayerHolds s li seq
      → LayerHolds (record s { layers = layers; states = states }) li seq
  LayerHolds-elsewhere s layers states li seq same h = record {
    layer = h.layer;
    state = h.state;
    is_layer = same.0 ∙ h.is_layer;
    is_state = same.1 ∙ h.is_state;
    current = h.current;
    holds = h.holds;
  }

  -- The first `n` layers of a forward pass.
  pub store_layers-Holds :
      (n seq : ℕ) (s : Single A)
      → IsPending s seq
      → n ≤ length s.layers
      → ((li : ℕ) → li < length s.layers → LayerHolds s li seq)
      → (layers : List (Layer A)) × (states : List (LayerState A)) × (store_layers n s
          ≡ done (record s { layers = layers; states = states }) tt)
        × (length layers ≡ length s.layers)
        × ((li : ℕ)
            → li < n
            → LayerHolds (record s { layers = layers; states = states }) li (seq + 1))
        × ((li : ℕ)
            → n ≤ li
            → li < length s.layers
            → LayerHolds (record s { layers = layers; states = states }) li seq)
  unfolding Stored
  store_layers-Holds zero seq s p le h =
      (s.layers, s.states, refl, refl, (λ li lt. absurd (omega arith)), λ li lo lt. h li lt)
  store_layers-Holds (suc n) seq s p le h =
      let (ls, ss, runs, same, early, late) = store_layers-Holds n seq s p (omega arith) h in
      let t : Single A = record s { layers = ls; states = ss } in
      let pending : IsPending t seq = record {
        offloaded = p.offloaded;
        stepped = p.stepped;
        located = p.located;
      } in
      let (ls', ss', stores, here, same', apart) =
        after_store-Stored t n seq pending (late n (omega arith) (omega arith)) in
      (
        ls',
        ss',
        rw (runs, and_then) stores,
        same' ∙ same,
        λ li lt. elim (Bool-cases (li == n)) [
          | inl e ↦
              let at : n ≡ li = ground arith in
              subst (λ x. LayerHolds (record s { layers = ls'; states = ss' }) x (seq + 1)) at here
          | inr other ↦
              LayerHolds-elsewhere t ls' ss' li (seq + 1) (apart li (λ e. absurd (ground arith)))
                (early li (ground arith))
        ],
        λ li lo lt.
            LayerHolds-elsewhere t ls' ss' li seq (apart li (λ e. absurd (omega (arith, e))))
              (late li (omega arith) lt),
      )
