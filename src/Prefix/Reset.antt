-- ===== src/Prefix/Reset.antt =====
-- `reset`: a new epoch, in which only what somebody reads is kept, and only for its readers.
use qsa_hisparse.Prelude.{
  ℕ, ◌+◌, ◌≤◌, ◌<◌, ◌≡◌, refl, ◌∙◌, Bool, true, ◌||◌, none, some, [], ◌∷◌, ◌==◌, if◌then◌else◌, inl,
  inr, Bool-cases, Option-cases, arith, Dict, get, put, get-put, Unique, Unique-put, length,
}
use qsa_hisparse.Prefix.Defs.{Snapshot, Entry, Cache}
use qsa_hisparse.Prefix.Cache.{snapshots, retire, reset}
use qsa_hisparse.Prefix.Space.{any_snapshot, any_snapshot-append}
use qsa_hisparse.Prefix.Invariant.{Sound, entry_of, readers_of}
use qsa_hisparse.Prefix.Moves.{Follows}

get-retire :
    (j : ℕ) (m n : Dict Entry)
    → Unique m
    → get j (retire m n)
      ≡ elim (get j m) [ none ↦ get j n | some e ↦ if e.readers == 0 then get j n else some e ]
unfolding retire get
get-retire j [] n u = refl
get-retire j ((k, e) ∷ m) n u = elim (Bool-cases (e.readers == 0)) [
  | inl idle ↦ ground (arith, get-retire j m n u.1)
  | inr busy ↦ ground (arith, get-retire j m (put k e n) u.1, get-put k j e n)
]

Unique-retire : (m n : Dict Entry) → Unique n → Unique (retire m n)
unfolding retire
Unique-retire [] n u = u
Unique-retire ((k, e) ∷ m) n u = elim (Bool-cases (e.readers == 0)) [
  | inl idle ↦ rw idle (Unique-retire m n u)
  | inr busy ↦ rw busy (Unique-retire m (put k e n) (Unique-put k e n u))
]

length-put_le : (k : ℕ) (e : Entry) (m : Dict Entry) → length (put k e m) ≤ length m + 1
unfolding put
length-put_le k e [] = omega arith
length-put_le k e ((j, x) ∷ m) = ground (arith, length-put_le k e m)

length-retire : (m n : Dict Entry) → length (retire m n) ≤ length m + length n
unfolding retire
length-retire [] n = omega arith
length-retire ((k, e) ∷ m) n = elim (Bool-cases (e.readers == 0)) [
  | inl idle ↦ rw idle (omega (arith, length-retire m n))
  | inr busy ↦ rw busy (omega (arith, length-retire m (put k e n), length-put_le k e n))
]

any_snapshot-put_le :
    (f : Snapshot → Bool) (k : ℕ) (e : Entry) (m : Dict Entry)
    → any_snapshot f (snapshots (put k e m)) ≡ true
    → (any_snapshot f (snapshots m) || f e.snapshot) ≡ true
unfolding snapshots put
any_snapshot-put_le f k e [] h = ground arith
any_snapshot-put_le f k e ((j, x) ∷ m) h = ground (arith, any_snapshot-put_le f k e m)

any_snapshot-retire :
    (f : Snapshot → Bool) (m n : Dict Entry)
    → any_snapshot f (snapshots (retire m n)) ≡ true
    → (any_snapshot f (snapshots m) || any_snapshot f (snapshots n)) ≡ true
unfolding snapshots retire
any_snapshot-retire f [] n h = ground arith
any_snapshot-retire f ((k, e) ∷ m) n h = elim (Bool-cases (e.readers == 0)) [
  | inl idle ↦ ground (arith, any_snapshot-retire f m n)
  | inr busy ↦ ground (arith, any_snapshot-retire f m (put k e n), any_snapshot-put_le f k e n)
]

-- `reset` empties the entries and opens the next epoch. An entry that has readers goes on under its
-- id with the same snapshot and the same readers, any other live entry is gone, and the retired ones
-- stay.
pub reset_lem :
    (c : Cache)
    → Sound c
    → Follows c (reset c)
      × ((reset c).epoch ≡ c.epoch + 1)
      × ((reset c).entries ≡ [])
      × ((k : ℕ) → readers_of k (reset c) ≡ readers_of k c)
      × ((k : ℕ) → 0 < readers_of k c → entry_of k (reset c) ≡ entry_of k c)
unfolding reset get snapshots
reset_lem c v = (
  record {
    sound = record {
      unique = tt;
      unique_retired = Unique-retire c.entries c.retired v.unique_retired;
      apart = λ j x f. absurd (ground arith);
      known = λ j f. ground (arith, get-retire j c.entries c.retired v.unique, v.known j);
      pinned = λ j x f. ground (arith, get-retire j c.entries c.retired v.unique, v.pinned j x);
      aligned = λ j x f. absurd (ground arith);
    };
    fewer = λ f h.
        any_snapshot-append f (snapshots c.entries) (snapshots c.retired)
        ∙ any_snapshot-retire f c.entries c.retired h;
    shorter = omega (arith, length-retire c.entries c.retired);
    same_budget = refl;
    same_limit = refl;
    same_id = refl;
    stays = λ j p q. ground (arith, get-retire j c.entries c.retired v.unique);
  },
  refl,
  refl,
  (λ k. counts k),
  (λ k h. ground (arith, get-retire k c.entries c.retired v.unique)),
)
  where
    counts : (k : ℕ) → readers_of k (reset c) ≡ readers_of k c
    counts k = elim (Option-cases (get k c.entries)) [
      | inl gone ↦ ground (arith, get-retire k c.entries c.retired v.unique)
      | inr (e, here) ↦ ground (arith, get-retire k c.entries c.retired v.unique, v.apart k e here)
    ]
