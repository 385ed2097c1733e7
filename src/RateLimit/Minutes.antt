-- ===== src/RateLimit/Minutes.antt =====
-- The window of a key beside all the requests of the key that were ever allowed, minute by minute,
-- for the limiter of internal/api/ratelimit.go.
use dbbat.Prelude.{
  ℕ, ◌+◌, ◌≤◌, ◌<◌, ◌≡◌, ◌⊎◌, refl, String, Bool, true, ◌&&◌, List, [], ◌∷◌, ◌++◌, arith, leb,
  if◌then◌else◌, length, All, All-append, Bool-cases, inl, inr, Option-cases, not,
}
use dbbat.Prelude.Keys.{string_eq}
use dbbat.Prelude.Maps.{lookup, Unique, lookup-keep}
use dbbat.Prelude.Sums.{count, count-append, count_mono}
use dbbat.RateLimit.{
  RateLimiter, Verdict, minute, fresh, check_window, get_window, is_stale, cleanup,
}
use dbbat.RateLimit.Window.{
  Sorted, drop_expired, prune-drop_expired, length-drop_expired, count-drop_expired,
  All-drop_expired, drop_expired-Sorted, Sorted-append,
}

-- The instants of the minute that ends at `t`.
abbrev pub in_minute : ℕ → ℕ → Bool
in_minute t u = fresh t u && leb u t

-- The window of a key beside the log of all the requests of the key that were ever allowed.
pub record Tracks (bound now : ℕ) (window log : List ℕ) : Type 0 where
  pub sorted : Sorted window
  pub window_past : All (λ u. u ≤ now) window
  pub same : (t : ℕ) → now ≤ t → count (in_minute t) window ≡ count (in_minute t) log
  pub within : (t : ℕ) → count (in_minute t) log ≤ bound

abbrev note : ℕ → Verdict → List ℕ → List ℕ
note now v log = if v.allowed then log ++ (now ∷ []) else log

pub Tracks-empty : (bound now : ℕ) → Tracks bound now [] []
unfolding count
Tracks-empty bound now = record {
  sorted = tt;
  window_past = tt;
  same = λ t h. refl;
  within = λ t. omega arith;
}

All-le_trans : (a b : ℕ) (ts : List ℕ) → a ≤ b → All (λ u. u ≤ a) ts → All (λ u. u ≤ b) ts
All-le_trans a b [] h k = tt
All-le_trans a b (t ∷ ts) h (k, ks) = (omega arith, All-le_trans a b ts h ks)

module _ (bound now now' : ℕ) (window log : List ℕ) (later : now ≤ now')
    (t : Tracks bound now window log) where
  -- The window without its expired part still answers for the log, from now on.
  Tracks-drop_expired : Tracks bound now' (drop_expired now' window) log
  Tracks-drop_expired = record {
    sorted = drop_expired-Sorted now' window t.sorted;
    window_past = All-drop_expired _ now' window (All-le_trans now now' window later t.window_past);
    same = λ u h.
        ground
          (arith, count-drop_expired now' (in_minute u) window (λ w p. ground arith), t.same u);
    within = t.within;
  }

  in_minute-le_length :
      (u : ℕ) → now' ≤ u → count (in_minute u) log ≤ length (drop_expired now' window)
  in_minute-le_length u h = ground (
    arith,
    t.same u,
    length-drop_expired now' window t.sorted,
    count_mono (in_minute u) (fresh now') window (λ w p. ground arith),
  )

  Tracks-allowed :
      length (drop_expired now' window) < bound
      → Tracks bound now' (drop_expired now' window ++ (now' ∷ [])) (log ++ (now' ∷ []))
  Tracks-allowed room =
      let d = Tracks-drop_expired in
      record {
        sorted = Sorted-append now' _ d.sorted d.window_past;
        window_past =
            All-append _ (drop_expired now' window) (now' ∷ []) d.window_past (omega arith, tt);
        same = λ u h.
            rw
              (
                count-append (in_minute u) (drop_expired now' window),
                count-append (in_minute u) log,
              )
              (ground (arith, d.same u));
        within = λ u.
            rw (count-append) (unfold count in ground (arith, t.within u, in_minute-le_length u));
      }

-- One critical section of `check` keeps the window in step with the log.
pub Tracks-check_window :
    (burst limit now now' : ℕ) (window log : List ℕ)
    → now ≤ now'
    → Tracks (limit + burst) now window log
    → Tracks
        (limit + burst)
        now'
        (check_window burst limit now' window).1
        (note now' (check_window burst limit now' window).0 log)
unfolding check_window
Tracks-check_window burst limit now now' window log later t =
    rw (prune-drop_expired now' window)
      (elim (Bool-cases (leb (limit + burst) (length (drop_expired now' window)))) [
        | inl full ↦ rw full (Tracks-drop_expired (limit + burst) now now' window log later t)
        | inr room ↦
            rw room (Tracks-allowed (limit + burst) now now' window log later t (ground arith))
      ])

pub Tracks-later :
    (bound now now' : ℕ) (window log : List ℕ)
    → now ≤ now'
    → Tracks bound now window log
    → Tracks bound now' window log
Tracks-later bound now now' window log later t = record {
  sorted = t.sorted;
  window_past = All-le_trans now now' window later t.window_past;
  same = λ u h. t.same u (omega arith);
  within = t.within;
}

-- Every timestamp of a stale window is older than a minute.
pub stale_old :
    (now : ℕ) (ts : List ℕ) → Sorted ts → is_stale now ts ≡ true → All (λ u. u + minute < now) ts
stale_old now [] s h = tt
stale_old now (u ∷ []) s h = (ground arith, tt)
stale_old now (u ∷ u' ∷ ts) ((le, _), s) h =
    let rest = stale_old now (u' ∷ ts) s h in (omega arith, rest)

count_old :
    (now t : ℕ) (ts : List ℕ)
    → now ≤ t
    → All (λ u. u + minute < now) ts
    → count (in_minute t) ts ≡ 0
unfolding count
count_old now t [] h o = refl
count_old now t (u ∷ ts) h (o, os) = ground (arith, count_old now t ts h os)

pub Tracks-stale :
    (bound now now' : ℕ) (window log : List ℕ)
    → now ≤ now'
    → is_stale now' window ≡ true
    → Tracks bound now window log
    → Tracks bound now' [] log
Tracks-stale bound now now' window log later stale t = record {
  sorted = tt;
  window_past = tt;
  same = λ u h.
      unfold count in
      ground (arith, count_old now' u window h (stale_old now' window t.sorted stale), t.same u);
  within = t.within;
}

pub get_window-cleanup :
    (k : String) (now : ℕ) (rl : RateLimiter)
    → Unique rl.windows
    → (get_window k (cleanup now rl) ≡ get_window k rl)
      ⊎ ((get_window k (cleanup now rl) ≡ []) × (is_stale now (get_window k rl) ≡ true))
unfolding get_window cleanup
get_window-cleanup k now rl u =
    let kept = lookup-keep (λ ts. not (is_stale now ts)) k rl.windows u in
    elim (Option-cases (lookup k rl.windows)) [
      | inl miss ↦ inl (rw (kept, miss))
      | inr (ts, hit) ↦ elim (Bool-cases (is_stale now ts)) [
        | inl stale ↦ inr (rw (kept, hit, stale), rw hit stale)
        | inr live ↦ inl (rw (kept, hit, live))
      ]
    ]
