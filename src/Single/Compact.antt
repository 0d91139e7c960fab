-- ===== src/Single/Compact.antt =====
-- single_request.py: the compact copy of a selection passes its oracle.
use qsa_hisparse.Prelude.{
  ℕ, zero, suc, ◌+◌, ◌-◌, ◌*◌, ◌/◌, ◌%◌, ◌<◌, ◌≡◌, refl, ◌∙◌, ap, Bool, true, Option, none, some,
  List, [], ◌∷◌, ◌++◌, ◌==◌, length, take, drop, get_elem?, range_from, map, arith,
}
use qsa_hisparse.Single.Rows.{Rows, write_rows, gather}
use qsa_hisparse.Single.Chunks.{get_elem?-gather, write_rows_in, write_rows_before}
use qsa_hisparse.Single.Selection.{
  selected_tokens, places, write_table, Compact, Sources, compact_plane, finish_selected, expands,
  pending_then_padding, maps_in_order, rows_agree, records_agree, check_selected,
}
use qsa_hisparse.Single.Table.{
  get_elem?-range_from, write_table_at, maps_in_order_all, tokens_of, distinct-tokens_of,
  distinct-append_range, AllBelow-tokens_of,
}
use qsa_hisparse.Single.Columns.{
  IsSelected, raw_of, take_prefix, get_elem?-lt, length-map_plain, raw_valid, raw_selected,
  valid_set_lem, expands_lem, pending_lem,
}

-- One plane: the selected rows, and the pending ones behind them.
module _ {A : Type 0} (selected tail : ℕ) (plane unpacked ring : Rows A) where
  compact_plane_selected :
      (i : ℕ) → i < selected → compact_plane selected tail plane unpacked ring (1 + i) ≡ unpacked i
  unfolding compact_plane
  compact_plane_selected i h =
      let first = write_rows plane 1 (gather unpacked (range_from 0 selected)) in
      write_rows_before first (1 + selected) (gather ring (range_from 1 tail)) (1 + i) (omega arith)
      ∙ (write_rows_in plane 1 (gather unpacked (range_from 0 selected)) i (unpacked (0 + i)) (
            get_elem?-gather unpacked (range_from 0 selected) i (0 + i)
              (get_elem?-range_from 0 selected i h))
          ∙ ap unpacked (omega arith))

  compact_plane_pending :
      (i : ℕ)
      → i < tail
      → compact_plane selected tail plane unpacked ring (1 + selected + i) ≡ ring (1 + i)
  unfolding compact_plane
  compact_plane_pending i h =
      let first = write_rows plane 1 (gather unpacked (range_from 0 selected)) in
      write_rows_in first (1 + selected) (gather ring (range_from 1 tail)) i (ring (1 + i))
        (get_elem?-gather ring (range_from 1 tail) i (1 + i) (get_elem?-range_from 1 tail i h))

module _ {A : Type 0} (same : A → A → Bool) (same_refl : (a : A) → same a a ≡ true) where
  rows_agree_all :
      (n : ℕ) (m : Rows A) (i : ℕ) (m' : Rows A) (j : ℕ)
      → ((l : ℕ) → l < n → m (i + l) ≡ m' (j + l))
      → rows_agree same n m i m' j ≡ true
  unfolding rows_agree
  rows_agree_all zero m i m' j h = refl
  rows_agree_all (suc n) m i m' j h =
      let here : m i ≡ m' j = ap m (omega arith) ∙ (h 0 (omega arith) ∙ ap m' (omega arith)) in
      let rest =
        rows_agree_all n m (i + 1) m' (j + 1)
          (λ l lt. ap m (omega arith) ∙ (h (suc l) (omega arith) ∙ ap m' (omega arith))) in
      rw (here, same_refl (m' j)) rest

  records_agree_all :
      (plane host : Rows A) (half place : ℕ) (bs : List ℕ)
      → ((n b l : ℕ)
          → get_elem? bs n ≡ some b
          → l < 4
          → plane (place + (n * 4 + l)) ≡ host (b * 8 + half + l))
      → records_agree same plane host half place (map some bs) ≡ true
  unfolding records_agree
  records_agree_all plane host half place [] h = refl
  records_agree_all plane host half place (b ∷ bs) h =
      let rows =
        rows_agree_all 4 plane place host (b * 8 + half)
          (λ l lt. ap plane (omega arith) ∙ h 0 b l refl lt) in
      let rest =
        records_agree_all plane host half (place + 4) bs
          (λ n c l e lt. ap plane (omega arith) ∙ h (suc n) c l e lt) in
      ground (arith, rows, rest)

  -- For a selection of distinct complete blocks whose records were unpacked from the host, the compact
  -- copy passes its oracle at every step: the columns are those of the blocks and of the pending tokens,
  -- the rows are those of the host and of the ring, and the table sends each token to its row.
  pub finish_selected-check :
      (strict : Bool) (decode_steps seq capacity base : ℕ) (bs : List ℕ) (more : List (Option ℕ))
      (host : Rows A) (sources : Sources A) (compact : Compact A)
      → IsSelected seq bs host sources
      → check_selected same strict decode_steps seq capacity base
          (raw_of seq bs)
          (map some bs ++ more)
          host
          sources
          (finish_selected seq capacity base (raw_of seq bs) sources compact)
        ≡ none
  unfolding check_selected finish_selected
  finish_selected-check strict decode_steps seq capacity base bs more host sources compact h =
      let selected = selected_tokens seq in
      let tail = seq % 4 in
      let after = finish_selected seq capacity base (raw_of seq bs) sources compact in
      let many : selected / 4 ≡ length (map some bs) =
        omega (arith, h.as_many, length-map_plain bs) in
      let ids : take (selected / 4) (map some bs ++ more) ≡ map some bs =
        take_prefix (selected / 4) (map some bs) more many in
      let counted : (length (map some bs) == selected / 4) ≡ true = ground (arith, many) in
      let valid = valid_set_lem (seq / 4) bs h.apart h.complete in
      let parts = raw_selected seq bs h.as_many in
      let expanded : expands (take selected (raw_of seq bs)) (map some bs) ≡ true =
        rw parts.0 (expands_lem bs) in
      let start : seq - tail ≡ seq / 4 * 4 = omega arith in
      let pending : pending_then_padding (seq - tail) tail (2051 - selected - tail)
            (drop selected (raw_of seq bs))
          ≡ true =
        rw (parts.1, start) (pending_lem (seq / 4 * 4) tail (2051 - selected - tail)) in
      let keys = records_agree_all after.keys host 0 1 bs (λ n b l e lt.
        compact_plane_selected selected tail compact.keys sources.unpacked_k sources.ring_k
          (n * 4 + l) (omega (arith, get_elem?-lt bs n b e, h.as_many))
        ∙ ((h.unpacked n b l e lt).0 ∙ ap host (omega arith))) in
      let values = records_agree_all after.values host 4 1 bs (λ n b l e lt.
        compact_plane_selected selected tail compact.values sources.unpacked_v sources.ring_v
          (n * 4 + l) (omega (arith, get_elem?-lt bs n b e, h.as_many))
        ∙ (h.unpacked n b l e lt).1) in
      let tail_keys =
        rows_agree_all tail after.keys (1 + selected) sources.ring_k 1
          (compact_plane_pending selected tail compact.keys sources.unpacked_k sources.ring_k) in
      let tail_values =
        rows_agree_all tail after.values (1 + selected) sources.ring_v 1
          (compact_plane_pending selected tail compact.values sources.unpacked_v sources.ring_v) in
      let mapped : maps_in_order after.table
            (places capacity (take (selected + tail) (raw_of seq bs))) (1 + base)
          ≡ true =
        rw (raw_valid seq bs h.as_many capacity) (
          maps_in_order_all
            (write_table compact.table (tokens_of bs ++ range_from (seq / 4 * 4) tail) (1 + base))
            (tokens_of bs ++ range_from (seq / 4 * 4) tail) (1 + base)
            (λ i t e.
              write_table_at compact.table (tokens_of bs ++ range_from (seq / 4 * 4) tail)
                (1 + base) i t
                (distinct-append_range (tokens_of bs) (seq / 4 * 4) tail
                  (distinct-tokens_of bs h.apart) (AllBelow-tokens_of (seq / 4) bs h.complete))
                e)) in
      ground (
        arith, ids, counted, valid, expanded, pending, keys, values, tail_keys, tail_values, mapped,
      )
