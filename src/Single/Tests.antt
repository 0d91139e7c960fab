-- ===== src/Single/Tests.antt =====
-- A prompt of 2048 tokens and four decoded ones in one layer, a selection at eleven tokens, and an
-- adapter between two requests.
use qsa_hisparse.Prelude.{
  ℕ, zero, suc, ◌+◌, ◌-◌, ◌*◌, ◌<◌, ◌≡◌, ◌≢◌, refl, Bool, true, false, ◌||◌, Option, none, some,
  List, [], ◌∷◌, ◌++◌, if◌then◌else◌, ◌==◌, ltb, str_eq, map, get_elem?, is_some, range_from, done,
  raised, after, arith,
}
use qsa_hisparse.Single.Rows.{Rows}
use qsa_hisparse.Single.State.{
  Layer, Lease, Single, not_serving, not_contiguous, owner_changed, repeated_rid, duplicate_release,
  Batch, extend, decode, seen, owned_by, is_decode_mode, start,
}
use qsa_hisparse.Single.Handoff.{handoff, handoff_layers, contiguous, distinct, mem}
use qsa_hisparse.Single.Batch.{Around, begin_batch, own_batch, claim, serve_batch, decode_step}
use qsa_hisparse.Single.Calls.{release, after_release, is_lease}
use qsa_hisparse.Single.Selection.{Sources, Compact, finish_selected, check_selected}
use qsa_hisparse.Single.Columns.{IsSelected, raw_of}
use qsa_hisparse.Single.Compact.{finish_selected-check}
use qsa_hisparse.Single.Decode.{Writer}
use qsa_hisparse.Single.Invariant.{Inv}
use qsa_hisparse.Single.History.{
  Call, begins, releases, commits, run, run-start-Inv, begin_batch_once, begin_batch-failed,
  release_returns,
}

abbrev empty_row : ℕ
empty_row = 0

abbrev put_row : Rows ℕ → ℕ → ℕ → Rows ℕ
put_row m i a j = if j == i then a else m j

put_row_here : (m : Rows ℕ) (i a : ℕ) → put_row m i a i ≡ a
put_row_here m i a = ground arith

put_row_elsewhere : (m : Rows ℕ) (i a j : ℕ) → j ≢ i → put_row m i a j ≡ m j
put_row_elsewhere m i a j h = ground arith

abbrev store_kernel : Writer ℕ
store_kernel = record { put = put_row; put_here = put_row_here; put_elsewhere = put_row_elsewhere }

abbrev key_of : Rows ℕ
key_of t = t

abbrev value_of : Rows ℕ
value_of t = t + 50

-- A prompt of 2048 tokens in one layer.
abbrev prompt_slots : List ℕ
prompt_slots = range_from 10 2048

abbrev prompt_layer : Layer ℕ
prompt_layer = record { k_buffer = λ p. p - 10; v_buffer = λ p. p + 40; host = λ i. 0 }

abbrev decoded : ℕ
decoded = 3

-- The two complete blocks of eleven tokens, in another order.
abbrev eleven : ℕ
eleven = 11

abbrev blocks : List ℕ
blocks = 1 ∷ 0 ∷ []

abbrev stored : Rows ℕ
stored i = i

abbrev sources : Sources ℕ
sources = record {
  unpacked_k = λ i. if ltb i 4 then 8 + i else i - 4;
  unpacked_v = λ i. if ltb i 4 then 12 + i else i;
  ring_k = λ i. 100 + i;
  ring_v = λ i. 200 + i;
}

abbrev nothing : Compact ℕ
nothing = record { keys = λ i. 0; values = λ i. 0; table = λ i. 0 }

abbrev same_row : ℕ → ℕ → Bool
same_row a b = a == b

same_row_refl : (a : ℕ) → same_row a a ≡ true
same_row_refl a = ground arith

unpacked_rows :
    (n b j : ℕ)
    → get_elem? blocks n ≡ some b
    → j < 4
    → (sources.unpacked_k (n * 4 + j) ≡ stored (b * 8 + j))
      × (sources.unpacked_v (n * 4 + j) ≡ stored (b * 8 + 4 + j))
unpacked_rows zero b j h lt = ground arith
unpacked_rows (suc zero) b j h lt = ground arith
unpacked_rows (suc (suc n)) b j h lt = absurd (ground arith)

is_selected : IsSelected eleven blocks stored sources
unfolding distinct mem
is_selected = record {
  apart = refl;
  complete = (omega arith, (omega arith, tt));
  as_many = refl;
  unpacked = unpacked_rows;
}

abbrev third : ℕ
third = 3

abbrev width : ℕ
width = 4096

abbrev no_base : ℕ
no_base = 0

abbrev no_more : List (Option ℕ)
no_more = []

abbrev around : Around empty_row
around = record {
  restore = λ layer. layer;
  restored_alike = true;
  row = λ n. prompt_slots;
  logical_kept = true;
}

abbrev prefill : Batch
prefill = record { mode = extend; batch_size = 1; req = 7; rids = "a" ∷ []; seq = 9 }

abbrev layers : List (Layer ℕ)
layers = prompt_layer ∷ []

abbrev taken : List (Call empty_row)
taken = begins prefill around ∷ []

abbrev given_back : List (Call empty_row)
given_back =
    releases 7 "a" ∷ commits (some (record { req = 7; rid = "a"; generation = 1 })) false ∷ []

abbrev seven : ℕ
seven = 7

abbrev nine : ℕ
nine = 9

abbrev served : Single ℕ
served = run empty_row taken (start true layers)

-- A decode step at which the allocator has no row of the prompt.
abbrev decode_first : Batch
decode_first = record { mode = decode; batch_size = 1; req = 7; rids = "a" ∷ []; seq = 2049 }

abbrev without_rows : Around empty_row
without_rows = record {
  restore = λ layer. layer;
  restored_alike = true;
  row = λ n. [];
  logical_kept = true;
}

abbrev failed_handoff : Single ℕ
failed_handoff = after (begin_batch empty_row served decode_first without_rows)

served_fails :
    begin_batch empty_row served decode_first without_rows ≡ raised failed_handoff not_contiguous
unfolding start begin_batch own_batch claim serve_batch seen owned_by is_decode_mode str_eq
    decode_step handoff contiguous distinct handoff_layers
served_fails = refl

taken_known : seen "a" (run empty_row taken (start true layers)).seen_rids ≡ true
unfolding start begin_batch own_batch claim serve_batch seen owned_by is_decode_mode str_eq
taken_known = refl

taken_free : (run empty_row given_back (run empty_row taken (start true layers))).owner ≡ none
unfolding start begin_batch own_batch claim serve_batch seen owned_by is_decode_mode str_eq release
    after_release is_lease
taken_free = refl

taken_not_owner :
    (run empty_row given_back (run empty_row taken (start true layers))).owner ≢ some (seven, "a")
taken_not_owner e = absurd (ground (arith, taken_free))

taken_owner : (run empty_row taken (start true layers)).owner ≡ some (7, "a")
unfolding start begin_batch own_batch claim serve_batch seen owned_by is_decode_mode str_eq
taken_owner = refl

taken_live : (run empty_row taken (start true layers)).releasing ≡ false
unfolding start begin_batch own_batch claim serve_batch seen owned_by is_decode_mode str_eq
taken_live = refl

finish_selected-check_example :
    check_selected same_row true third eleven width no_base
      (raw_of eleven blocks)
      (map some blocks ++ no_more)
      stored
      sources
      (finish_selected eleven width no_base (raw_of eleven blocks) sources nothing)
    ≡ none
finish_selected-check_example =
    finish_selected-check same_row same_row_refl true third eleven width no_base blocks no_more
      stored sources nothing is_selected

run-start-Inv_example : Inv (run empty_row taken (start true layers))
run-start-Inv_example = run-start-Inv empty_row true layers taken

begin_batch_once_example :
    begin_batch empty_row
      (run empty_row given_back (run empty_row taken (start true layers)))
      (record { mode = extend; batch_size = 1; req = seven; rids = "a" ∷ []; seq = nine })
      around
    ≡ raised (run empty_row given_back (run empty_row taken (start true layers))) (
        if (run empty_row given_back (run empty_row taken (start true layers))).failed
          || (run empty_row given_back (run empty_row taken (start true layers))).releasing
        then not_serving
        else if is_some (run empty_row given_back (run empty_row taken (start true layers))).owner
        then owner_changed
        else repeated_rid)
begin_batch_once_example =
    begin_batch_once empty_row true layers taken given_back seven nine "a" around taken_known
      taken_not_owner

begin_batch-failed_example :
    begin_batch empty_row (run empty_row given_back failed_handoff) prefill around
    ≡ raised (run empty_row given_back failed_handoff) not_serving
begin_batch-failed_example =
    begin_batch-failed empty_row served failed_handoff decode_first without_rows not_contiguous
      given_back prefill around served_fails refl

release_returns_example :
    (t : Single ℕ) × (u : Single ℕ) × (lease : Lease) × (release
        (run empty_row taken (start true layers))
        seven
        "a"
      ≡ done t (some lease))
    × (after_release t (some lease) false ≡ done u tt)
    × (u.owner ≡ none)
    × (u.releasing ≡ false)
    × (u.host_claimed ≡ false)
    × (u.pending_release ≡ none)
    × (release u seven "a" ≡ raised u duplicate_release)
release_returns_example =
    release_returns empty_row true layers taken seven "a" taken_owner taken_live
