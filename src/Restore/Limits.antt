-- ===== src/Restore/Limits.antt =====
-- prefix_cache.py: the split of a prefill, and the flush.
use qsa_hisparse.Prelude.{
  ℕ, ◌+◌, ◌%◌, ◌<◌, ◌≡◌, ◌≢◌, refl, inl, inr, String, Bool, true, false, not, ◌||◌, ◌==◌,
  if◌then◌else◌, none, some, List, [], ◌∷◌, max, is_some, get, get-del, Dict, done, raised,
  Outcome-cases, List-cases, arith,
}
use qsa_hisparse.Prefix.Defs.{Snapshot}
use qsa_hisparse.Image.Defs.{page}
use qsa_hisparse.Prefix.Cache.{reset}
use qsa_hisparse.Restore.State.{
  State, Req, flush_races, close_match, release_aborted_request, release_all, keys_of,
  drop_host_prefixes,
}
use qsa_hisparse.Restore.Hits.{prefill_checkpoint_limit, pending_prefix_tokens}

-- A prefill of a request that is split ends its first part on a page boundary behind the prefix that it
-- has or is about to get, the last such boundary before its end, so something of the suffix is left;
-- a page has 64 tokens, as the startup requires.
pub prefill_checkpoint_limit_lem :
    (model : String) (s : State) (req : Req) (length prefix_len limit : ℕ)
    → prefill_checkpoint_limit model s req length page prefix_len ≡ some limit
    → (0 < limit)
      × ((max prefix_len (pending_prefix_tokens s req) + limit) % page ≡ 0)
      × (max prefix_len (pending_prefix_tokens s req) + limit < length)
      × (length < max prefix_len (pending_prefix_tokens s req) + limit + page)
unfolding prefill_checkpoint_limit
prefill_checkpoint_limit_lem model s req length prefix_len limit h = ground arith

-- A handle that is closed is gone, and so is one that was not there.
abbrev listed : ℕ → List ℕ → Bool
listed h [] = false
listed h (k ∷ ks) = k == h || listed h ks

close_match-gone :
    (s t : State) (k h : ℕ)
    → close_match s k ≡ done t tt
    → (t.restoring ≡ s.restoring)
      × (t.freed ≡ s.freed)
      × (get h t.matches ≡ (if k == h then none else get h s.matches))
unfolding close_match
close_match-gone s t k h e = ground (arith, get-del k h s.matches)

release_all-gone :
    (handles : List ℕ) (s t : State) (h : ℕ)
    → s.restoring ≡ []
    → release_all handles s ≡ done t tt
    → (listed h handles || not (is_some (get h s.matches))) ≡ true
    → (t.restoring ≡ []) × (get h t.matches ≡ none)
unfolding release_all release_aborted_request get
release_all-gone [] s t h e r l = ground arith
release_all-gone (k ∷ handles) s t h e r l = elim (Outcome-cases (close_match s k)) [
  | inr (u, x, c) ↦ absurd (ground (arith, e))
  | inl (u, x, c) ↦ ground (arith, close_match-gone s u k h, release_all-gone handles u t h)
]

listed-keys_of :
    (h : ℕ) (m : Dict (ℕ × Snapshot)) → (listed h (keys_of m) || not (is_some (get h m))) ≡ true
unfolding keys_of get
listed-keys_of h [] = refl
listed-keys_of h ((k, v) ∷ m) = ground (arith, listed-keys_of h m)

-- A flush of the host prefixes raises while a restore is under way, and otherwise, when it returns, no
-- request has a match any more and the host cache has no entry.
pub drop_host_prefixes_lem :
    (s : State)
    → (s.restoring ≢ [] → drop_host_prefixes s ≡ raised s flush_races)
      × ((t : State) (h : ℕ)
          → drop_host_prefixes s ≡ done t tt
          → (s.restoring ≡ [])
            × (t.restoring ≡ [])
            × (get h t.matches ≡ none)
            × (t.host.entries ≡ []))
unfolding drop_host_prefixes reset
drop_host_prefixes_lem s = elim (List-cases s.restoring) [
  | inr (x, rest, e) ↦ ((λ n. ground arith), λ t h r. absurd (ground arith))
  | inl e ↦ (
    (λ n. absurd (n e)),
    λ t h r. elim (Outcome-cases (release_all (keys_of s.matches) s)) [
      | inr (u, x, c) ↦ absurd (ground arith)
      | inl (u, x, c) ↦
          ground (arith, release_all-gone (keys_of s.matches) s u h e, listed-keys_of h s.matches)
    ],
  )
]
