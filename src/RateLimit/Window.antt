-- ===== src/RateLimit/Window.antt =====
-- The pruning loop of `check` against a plain recursion, on one window of internal/api/ratelimit.go.
use dbbat.Prelude.{
  ℕ, suc, ◌+◌, ◌-◌, ◌≤◌, ◌≡◌, refl, List, [], ◌∷◌, ◌++◌, arith, if◌then◌else◌, length, drop, All,
  Bool-cases, inl, inr, Bool, true, ◌==◌, All-append,
}
use native.Mathlib.Nat.{zero-add}
use dbbat.Prelude.Sums.{count}
use dbbat.RateLimit.{fresh, valid_start_loop, prune}

-- Sorted from old to new, and nothing newer than `now`.
abbrev pub Sorted : List ℕ → Type 0
Sorted [] = Unit
Sorted (t ∷ ts) = All (λ u. t ≤ u) ts × Sorted ts

-- The list without its leading expired timestamps.
unfoldable pub drop_expired : ℕ → List ℕ → List ℕ
drop_expired now [] = []
drop_expired now (t ∷ ts) = let rest = drop_expired now ts in if fresh now t then t ∷ ts else rest

expired_prefix : ℕ → List ℕ → ℕ
expired_prefix now [] = 0
expired_prefix now (t ∷ ts) = let n = expired_prefix now ts in if fresh now t then 0 else suc n

valid_start_loop-cons :
    (now n i start t : ℕ) (ts : List ℕ)
    → valid_start_loop now n i start (t ∷ ts) ≡ (
        if fresh now t
        then i
        else valid_start_loop now n (i + 1) (if i == n - 1 then n else start) ts)
unfolding valid_start_loop
valid_start_loop-cons now n i start t ts = refl

expired_prefix-cons :
    (now t : ℕ) (ts : List ℕ)
    → expired_prefix now (t ∷ ts) ≡ (if fresh now t then 0 else suc (expired_prefix now ts))
unfolding expired_prefix
expired_prefix-cons now t ts = refl

-- On a list that is not empty the loop counts the expired prefix.
valid_start_loop_lem :
    (now n i start t : ℕ) (ts : List ℕ)
    → n ≡ i + length (t ∷ ts)
    → valid_start_loop now n i start (t ∷ ts) ≡ i + expired_prefix now (t ∷ ts)
valid_start_loop_lem now n i start t [] h = unfold valid_start_loop expired_prefix in ground arith
valid_start_loop_lem now n i start t (u ∷ ts) h = ground (
  arith,
  valid_start_loop-cons now n i start t (u ∷ ts),
  expired_prefix-cons now t (u ∷ ts),
  valid_start_loop_lem now n (i + 1) (if i == n - 1 then n else start) u ts,
)

drop-expired_prefix :
    (now : ℕ) (ts : List ℕ) → drop (expired_prefix now ts) ts ≡ drop_expired now ts
unfolding expired_prefix drop_expired
drop-expired_prefix now [] = refl
drop-expired_prefix now (t ∷ ts) = ground (arith, drop-expired_prefix now ts)

-- Pruning a window drops exactly its leading expired timestamps.
pub prune-drop_expired : (now : ℕ) (ts : List ℕ) → prune now ts ≡ drop_expired now ts
unfolding prune
prune-drop_expired now [] = unfold drop_expired valid_start_loop in refl
prune-drop_expired now (t ∷ ts) =
    rw (valid_start_loop_lem now (length (t ∷ ts)) 0 0 t ts (omega arith), zero-add)
      (drop-expired_prefix now (t ∷ ts))

-- In a sorted list all that follows a fresh timestamp is fresh.
count_of_fresh :
    (now t : ℕ) (ts : List ℕ)
    → fresh now t ≡ true
    → All (λ u. t ≤ u) ts
    → count (fresh now) ts ≡ length ts
unfolding count
count_of_fresh now t [] f h = refl
count_of_fresh now t (u ∷ ts) f (h, hs) = ground (arith, count_of_fresh now t ts f hs)

-- The pruned window of a sorted list counts the timestamps of the last minute.
pub length-drop_expired :
    (now : ℕ) (ts : List ℕ) → Sorted ts → length (drop_expired now ts) ≡ count (fresh now) ts
unfolding drop_expired count
length-drop_expired now [] s = refl
length-drop_expired now (t ∷ ts) (h, s) =
    ground (arith, length-drop_expired now ts s, count_of_fresh now t ts)

pub count-drop_expired :
    (now : ℕ) (p : ℕ → Bool) (ts : List ℕ)
    → ((t : ℕ) → p t ≡ true → fresh now t ≡ true)
    → count p (drop_expired now ts) ≡ count p ts
unfolding drop_expired count
count-drop_expired now p [] h = refl
count-drop_expired now p (t ∷ ts) h = ground (arith, count-drop_expired now p ts h, h t)

pub All-drop_expired :
    (P : ℕ → Type 0) (now : ℕ) (ts : List ℕ) → All P ts → All P (drop_expired now ts)
unfolding drop_expired
All-drop_expired P now [] h = tt
All-drop_expired P now (t ∷ ts) (h, hs) = elim (Bool-cases (fresh now t)) [
  | inl e ↦ rw e (h, hs)
  | inr e ↦ rw e (All-drop_expired P now ts hs)
]

pub drop_expired-Sorted : (now : ℕ) (ts : List ℕ) → Sorted ts → Sorted (drop_expired now ts)
unfolding drop_expired
drop_expired-Sorted now [] s = tt
drop_expired-Sorted now (t ∷ ts) (h, s) = elim (Bool-cases (fresh now t)) [
  | inl e ↦ rw e (h, s)
  | inr e ↦ rw e (drop_expired-Sorted now ts s)
]

-- A timestamp that is no older than any other goes to the end.
pub Sorted-append :
    (now : ℕ) (ts : List ℕ) → Sorted ts → All (λ u. u ≤ now) ts → Sorted (ts ++ (now ∷ []))
Sorted-append now [] s h = (tt, tt)
Sorted-append now (t ∷ ts) (a, s) (h, hs) =
    (All-append (λ u. t ≤ u) ts (now ∷ []) a (h, tt), Sorted-append now ts s hs)
