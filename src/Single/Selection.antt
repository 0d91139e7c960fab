-- ===== src/Single/Selection.antt =====
-- single_request.py: the compact copy of a selection, `finish_selected`, and its oracle,
-- `check_selected`. An index of -1 is `none`; `same` compares two rows.
use qsa_hisparse.Prelude.{
  ℕ, zero, suc, ◌+◌, ◌-◌, ◌*◌, ◌/◌, ◌%◌, min, Bool, true, false, not, ◌&&◌, ◌||◌, Option, none,
  some, List, [], ◌∷◌, if◌then◌else◌, ltb, ◌==◌, length, take, drop, range_from,
}
use qsa_hisparse.Single.Rows.{Rows, write_rows, gather}

-- `min(seq_len // 4, 512) * 4`
abbrev pub selected_tokens : ℕ → ℕ
selected_tokens seq = min (seq / 4) 512 * 4

-- The columns of a table that an index writes; -1 is the last one.
unfoldable pub places : ℕ → List (Option ℕ) → List ℕ
places capacity [] = []
places capacity (none ∷ raw) = (capacity - 1) ∷ places capacity raw
places capacity (some t ∷ raw) = t ∷ places capacity raw

-- `table[0, valid] = arange(first, ...)`
unfoldable pub write_table : (ℕ → ℕ) → List ℕ → ℕ → ℕ → ℕ
write_table table [] first i = table i
write_table table (t ∷ valid) first i =
    write_table (λ j. if j == t then first else table j) valid (first + 1) i

pub record Compact (A : Type 0) : Type 0 where
  pub keys : Rows A
  pub values : Rows A
  pub table : ℕ → ℕ

-- What a selection is made from: the unpacked rows of its records, and the rings of the layer.
pub record Sources (A : Type 0) : Type 0 where
  pub unpacked_k : Rows A
  pub unpacked_v : Rows A
  pub ring_k : Rows A
  pub ring_v : Rows A

module _ {A : Type 0} where
  -- One plane of the compact copy: the selected rows, and behind them the pending ones.
  unfoldable pub compact_plane : ℕ → ℕ → Rows A → Rows A → Rows A → Rows A
  unfolding write_rows gather range_from
  compact_plane selected tail plane unpacked ring =
      write_rows (write_rows plane 1 (gather unpacked (range_from 0 selected))) (1 + selected)
        (gather ring (range_from 1 tail))

  unfoldable pub finish_selected : ℕ → ℕ → ℕ → List (Option ℕ) → Sources A → Compact A → Compact A
  unfolding compact_plane places write_table
  finish_selected seq capacity base raw sources compact = record {
    keys =
        compact_plane (selected_tokens seq) (seq % 4) compact.keys sources.unpacked_k
          sources.ring_k;
    values =
        compact_plane (selected_tokens seq) (seq % 4) compact.values sources.unpacked_v
          sources.ring_v;
    table =
        write_table compact.table (places capacity (take (selected_tokens seq + seq % 4) raw))
          (1 + base);
  }

unfoldable pub is_index : Option ℕ → ℕ → Bool
is_index none t = false
is_index (some s) t = s == t

unfoldable pub mem_index : Option ℕ → List (Option ℕ) → Bool
mem_index none ids = false
mem_index (some t) [] = false
mem_index (some t) (some s ∷ ids) = s == t || mem_index (some t) ids
mem_index (some t) (none ∷ ids) = mem_index (some t) ids

-- The set of blocks that is selected: no -1, none twice, and all complete.
unfoldable pub valid_set : ℕ → List (Option ℕ) → Bool
unfolding mem_index
valid_set blocks [] = true
valid_set blocks (none ∷ ids) = false
valid_set blocks (some b ∷ ids) =
    ltb b blocks && (not (mem_index (some b) ids) && valid_set blocks ids)

-- `raw_indices[0, :selected]` is the expansion of the blocks.
unfoldable pub expands : List (Option ℕ) → List (Option ℕ) → Bool
unfolding is_index
expands [] [] = true
expands (a ∷ b ∷ c ∷ d ∷ raw) (some t ∷ ids) =
    is_index a (t * 4)
    && (is_index b (t * 4 + 1)
        && (is_index c (t * 4 + 2) && (is_index d (t * 4 + 3) && expands raw ids)))
expands raw ids = false

-- `raw_indices[0, selected:]` is the pending tokens, and -1 behind them.
unfoldable pub pending_then_padding : ℕ → ℕ → ℕ → List (Option ℕ) → Bool
unfolding is_index
pending_then_padding start zero padding [] = padding == 0
pending_then_padding start zero zero (r ∷ raw) = false
pending_then_padding start zero (suc padding) (none ∷ raw) =
    pending_then_padding start zero padding raw
pending_then_padding start zero (suc padding) (some t ∷ raw) = false
pending_then_padding start (suc tail) padding [] = false
pending_then_padding start (suc tail) padding (r ∷ raw) =
    is_index r start && pending_then_padding (start + 1) tail padding raw

pub data CheckError : Type 0 where
  invalid_set invalid_expansion bytes_differ pending_differ tail_bytes_differ mapping_differs :
      CheckError

-- `decode_steps in (1, 2, 3, 384, 767) or seq_len % 4 == 0`
unfoldable pub is_checked_step : ℕ → ℕ → Bool
is_checked_step decode_steps seq =
    decode_steps == 1
    || (decode_steps == 2
        || (decode_steps == 3 || (decode_steps == 384 || (decode_steps == 767 || seq % 4 == 0))))

-- The mapping read back at the selected tokens is `arange(first, ...)`.
unfoldable pub maps_in_order : (ℕ → ℕ) → List ℕ → ℕ → Bool
maps_in_order table [] first = true
maps_in_order table (t ∷ valid) first = table t == first && maps_in_order table valid (first + 1)

module _ {A : Type 0} (same : A → A → Bool) where
  -- Two buffers agree on `count` rows.
  unfoldable pub rows_agree : ℕ → Rows A → ℕ → Rows A → ℕ → Bool
  rows_agree zero m i n j = true
  rows_agree (suc count) m i n j = same (m i) (n j) && rows_agree count m (i + 1) n (j + 1)

  -- The compact rows of the blocks are those of the host, keys or (at `half` = 4) values.
  unfoldable pub records_agree : Rows A → Rows A → ℕ → ℕ → List (Option ℕ) → Bool
  unfolding rows_agree
  records_agree plane host half place [] = true
  records_agree plane host half place (none ∷ ids) = false
  records_agree plane host half place (some b ∷ ids) =
      rows_agree 4 plane place host (b * 8 + half) && records_agree plane host half (place + 4) ids

  -- `check_selected`
  unfoldable pub check_selected :
      Bool
      → ℕ
      → ℕ
      → ℕ
      → ℕ
      → List (Option ℕ)
      → List (Option ℕ)
      → Rows A
      → Sources A
      → Compact A
      → Option CheckError
  unfolding is_checked_step valid_set expands records_agree pending_then_padding rows_agree
      maps_in_order places
  check_selected strict decode_steps seq capacity base raw blocks host sources compact =
      let selected = selected_tokens seq in
      let tail = seq % 4 in
      let ids = take (selected / 4) blocks in
      if not (strict && is_checked_step decode_steps seq)
      then none
      else if not (valid_set (seq / 4) ids && (length ids == selected / 4))
      then some invalid_set
      else if not (expands (take selected raw) ids)
      then some invalid_expansion
      else if not
          (records_agree compact.keys host 0 1 ids && records_agree compact.values host 4 1 ids)
      then some bytes_differ
      else if not
          (pending_then_padding (seq - tail) tail (2051 - selected - tail) (drop selected raw))
      then some pending_differ
      else if not (
          rows_agree tail compact.keys (1 + selected) sources.ring_k 1
          && rows_agree tail compact.values (1 + selected) sources.ring_v 1)
      then some tail_bytes_differ
      else if maps_in_order compact.table (places capacity (take (selected + tail) raw)) (1 + base)
      then none
      else some mapping_differs
