-- ===== src/Proxy/Limits/Watch.antt =====
-- Which calls `Watch` of internal/proxy/shared/limits.go makes.
use dbbat.Prelude.{
  ◌≡◌, ◌⊎◌, refl, sym, ap, subst, All, ◌++◌, true, false, none, some, List, [], ◌∷◌, arith,
  Option-cases, Bool-cases, inl, inr,
}
use dbbat.Proxy.Limits.{
  LimitError, LimitGuard, Live, check_guard, Signal, tick, done, watch_loop, is_idle, watch,
}

-- The moments that the watcher looks at: the start, and each tick before the session ends.
unfoldable pub observed : List Signal → List Live
observed [] = []
observed (done ∷ signals) = []
observed (tick l ∷ signals) = l ∷ observed signals

-- Nothing is wrong at any of the moments.
abbrev pub Quiet : LimitGuard → List Live → Type 0
Quiet g = All (λ l. check_guard g l ≡ none)

-- The calls of `onViolation` are right for the moments that were looked at: none where nothing is
-- wrong at any, and otherwise the one call with what is wrong at the first.
abbrev pub Reports : LimitGuard → List Live → List LimitError → Type 0
Reports g ls calls =
    (Quiet g ls × (calls ≡ []))
    ⊎ ((before : List Live) × (l : Live) × (after : List Live) × (e : LimitError) × (ls
          ≡ before ++ (l ∷ after))
        × Quiet g before
        × (check_guard g l ≡ some e)
        × (calls ≡ e ∷ []))

Reports-cons :
    (g : LimitGuard) (l : Live) (ls : List Live) (calls : List LimitError)
    → check_guard g l ≡ none
    → Reports g ls calls
    → Reports g (l ∷ ls) calls
Reports-cons g l ls calls ok (inl (quiet, none_made)) = inl ((ok, quiet), none_made)
Reports-cons g l ls calls ok (inr (before, at, after, e, split, quiet, wrong, made)) =
    inr (l ∷ before, at, after, e, ap (◌∷◌ l) split, (ok, quiet), wrong, made)

watch_loop-Reports :
    (g : LimitGuard) (signals : List Signal) → Reports g (observed signals) (watch_loop g signals)
unfolding watch_loop observed
watch_loop-Reports g [] = inl (tt, refl)
watch_loop-Reports g (done ∷ signals) = inl (tt, refl)
watch_loop-Reports g (tick l ∷ signals) = elim (Option-cases (check_guard g l)) [
  | inl e ↦
      subst (Reports g (l ∷ observed signals)) (sym (loop-none e))
        (Reports-cons g l (observed signals) _ e (watch_loop-Reports g signals))
  | inr (x, e) ↦
      subst (Reports g (l ∷ observed signals)) (sym (loop-some x e))
        (inr ([], l, observed signals, x, refl, tt, e, refl))
]
  where
    loop-none : check_guard g l ≡ none → watch_loop g (tick l ∷ signals) ≡ watch_loop g signals
    loop-none e = rw (e, watch_loop)

    loop-some :
        (x : LimitError) → check_guard g l ≡ some x → watch_loop g (tick l ∷ signals) ≡ x ∷ []
    loop-some x e = rw (e, watch_loop)

-- A guard with nothing to enforce never trips, so not watching it misses nothing.
idle_quiet : (g : LimitGuard) (l : Live) → is_idle g ≡ true → check_guard g l ≡ none
unfolding is_idle check_guard
idle_quiet g l h = ground arith

idle_Quiet : (g : LimitGuard) (ls : List Live) → is_idle g ≡ true → Quiet g ls
idle_Quiet g [] h = tt
idle_Quiet g (l ∷ ls) h = (idle_quiet g l h, idle_Quiet g ls h)

watch_idle :
    (g : LimitGuard) (l : Live) (signals : List Signal)
    → is_idle g ≡ true
    → watch (some g) l signals ≡ []
unfolding watch
watch_idle g l signals h = rw (h, watch)

watch_on :
    (g : LimitGuard) (l : Live) (signals : List Signal)
    → is_idle g ≡ false
    → check_guard g l ≡ none
    → watch (some g) l signals ≡ watch_loop g signals
unfolding watch
watch_on g l signals h e = rw (h, e, watch)

watch_at_once :
    (g : LimitGuard) (l : Live) (signals : List Signal) (x : LimitError)
    → is_idle g ≡ false
    → check_guard g l ≡ some x
    → watch (some g) l signals ≡ x ∷ []
unfolding watch
watch_at_once g l signals x h e = rw (h, e, watch)

-- `Watch` makes no call of `onViolation` if every moment that it looks at, the start and the ticks
-- before the session ends, passes `Check`, and otherwise exactly one, with what `Check` finds at
-- the first moment that does not. This holds of the guards that it does not watch, too.
pub watch-Reports :
    (g : LimitGuard) (l : Live) (signals : List Signal)
    → Reports g (l ∷ observed signals) (watch (some g) l signals)
watch-Reports g l signals = elim (Bool-cases (is_idle g)) [
  | inl idle ↦ inl (idle_Quiet g (l ∷ observed signals) idle, watch_idle g l signals idle)
  | inr busy ↦ elim (Option-cases (check_guard g l)) [
    | inl e ↦
        subst (Reports g (l ∷ observed signals)) (sym (watch_on g l signals busy e))
          (Reports-cons g l (observed signals) _ e (watch_loop-Reports g signals))
    | inr (x, e) ↦ inr ([], l, observed signals, x, refl, tt, e, watch_at_once g l signals x busy e)
  ]
]
