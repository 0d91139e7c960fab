-- ===== src/Single/Rows.antt =====
-- single_request.py: the copies of rows. A buffer gives the row at a place, and a record of four tokens
-- is eight rows, as in layout.py; nothing is stored beyond what the source stores.
use qsa_hisparse.Prelude.{
  ℕ, zero, suc, ◌+◌, ◌-◌, ◌*◌, ◌/◌, ◌%◌, min, ◌&&◌, Option, none, some, List, [], ◌∷◌, map,
  if◌then◌else◌, ltb, leb, ◌==◌, take, drop,
}
use qsa_hisparse.Layout.Defs.{pack_c4}

abbrev pub Rows : Type 0 → Type 0
Rows A = ℕ → A

-- Which block a slot of the hot set holds; `none` is -1.
abbrev pub Tokens : Type 0
Tokens = ℕ → Option ℕ

-- HOT, and the step of the copy loop.
abbrev pub hot_blocks : ℕ
hot_blocks = 2048

abbrev pub chunk : ℕ
chunk = 4096

module _ {A : Type 0} where
  -- `m[start : start + len].copy_(rows)`
  unfoldable pub write_rows : Rows A → ℕ → List A → Rows A
  write_rows m start [] i = m i
  write_rows m start (a ∷ rows) i =
      let rest = write_rows m (start + 1) rows i in if i == start then a else rest

  -- `m[dst].copy_(source[src])`, of one record.
  unfoldable pub copy_record : Rows A → ℕ → Rows A → ℕ → Rows A
  copy_record m dst source src i = if i / 8 == dst then source (src * 8 + i % 8) else m i

  -- `index_select(0, src)`
  unfoldable pub gather : Rows A → List ℕ → List A
  gather m places = map m places

  -- The loop of `handoff` over `range(0, blocks * 4, 4096)`; `none` is a ValueError of `pack_c4`. The
  -- fuel is at least the number of the tokens.
  unfoldable pub copy_chunks : ℕ → ℕ → ℕ → Rows A → Rows A → List ℕ → Rows A → Option (Rows A)
  unfolding gather pack_c4 write_rows
  copy_chunks zero offset total k v slots host = some host
  copy_chunks (suc fuel) offset total k v slots host =
      let src = take (min (offset + chunk) total - offset) (drop offset slots) in
      if ltb offset total
      then (elim (pack_c4 (gather k src) (gather v src)) [
        | none ↦ none
        | some packed ↦
            copy_chunks fuel (offset + chunk) total k v slots (write_rows host (offset * 2) packed)
      ])
      else some host

  -- `ring_k` and `ring_v`: the rows of the last tokens behind the padding row.
  unfoldable pub ring_rows : A → Rows A → List ℕ → Rows A
  unfolding gather write_rows
  ring_rows blank m last = write_rows (λ i. blank) 1 (gather m last)

  -- `stage_short_prefix` of the first `count` records.
  unfoldable pub stage_hot : ℕ → Rows A → Rows A → Rows A
  stage_hot count hot records i =
      if leb count hot_blocks && ltb i (count * 8) then records i else hot i

unfoldable pub stage_tokens : ℕ → Tokens → Tokens
stage_tokens count tokens i = if leb count hot_blocks && ltb i count then some i else tokens i

-- `tokens[0, slot] = block`
unfoldable pub set_token : Tokens → ℕ → ℕ → Tokens
set_token tokens slot block i = if i == slot then some block else tokens i
