-- ===== src/RateLimit/Shared/Bound.antt =====
-- How many requests of a key the limiter of internal/api/ratelimit.go allows in a minute, when requests
-- run beside one another.
use dbbat.Prelude.{
  ℕ, ◌+◌, ◌≤◌, ◌<◌, ◌≡◌, ◌⊎◌, refl, sym, ap, ◌∙◌, subst, String, true, false, not, Option, none,
  some, List, [], ◌∷◌, ◌++◌, ◌==◌, arith, if◌then◌else◌, Bool-cases, Option-cases, inl, inr,
}
use mathlib.Core.List.{append-nil, append_assoc}
use dbbat.Prelude.Keys.{string_eq, ◌=?◌}
use dbbat.Prelude.Maps.{
  lookup, insert, Unique, insert-Unique, keep-Unique, lookup-keep, lookup-insert,
  lookup-insert_self,
}
use dbbat.Prelude.Sums.{count}
use dbbat.RateLimit.{RateLimitConfig, check_window, is_stale}
use dbbat.RateLimit.Minutes.{
  in_minute, Tracks, Tracks-empty, Tracks-check_window, Tracks-later, Tracks-stale,
}
use dbbat.RateLimit.Shared.{
  Shared, new_shared, write, take_with, take_window, check_at, sweep, Event, takes, checks, ticks,
  step, allowed_by, check_held, allowed_held,
}

-- The window that the map has for a key.
abbrev at_address : (ℕ → List ℕ) → Option ℕ → List ℕ
at_address heap none = []
at_address heap (some a) = heap a

abbrev window_at : String → Shared → List ℕ
window_at k s = at_address s.heap (lookup k s.windows)

-- Keys have windows of their own, and what a request has taken is in the map for its key.
pub record Ready (k : String) (bound now : ℕ) (s : Shared) (log : List ℕ) : Type 0 where
  pub unique : Unique s.windows
  pub below : (j : String) (a : ℕ) → lookup j s.windows ≡ some a → a < s.next
  pub distinct :
      (i j : String) (a : ℕ) → lookup i s.windows ≡ some a → lookup j s.windows ≡ some a → i ≡ j
  pub holds :
      (r : ℕ) (key : String) (a : ℕ) → s.held r ≡ some (key, a) → lookup key s.windows ≡ some a
  pub tracks : Tracks bound now (window_at k s) log

module _ (k : String) (bound now : ℕ) (log : List ℕ) where
  take_some-Ready :
      (r : ℕ) (key : String) (a : ℕ) (s : Shared)
      → lookup key s.windows ≡ some a
      → Ready k bound now s log
      → Ready k bound now (take_with r key (some a) s) log
  take_some-Ready r key a s h i =
      unfold take_with in
      record {
        unique = i.unique;
        below = i.below;
        distinct = i.distinct;
        holds = λ r' key' a' e. elim (Bool-cases (r' == r)) [
          | inl here ↦ ground (arith, here, h)
          | inr other ↦ i.holds r' key' a' (ground (arith, other))
        ];
        tracks = i.tracks;
      }

  new_entry :
      (key : String) (s : Shared) (j : String) (a : ℕ)
      → lookup j (insert key s.next s.windows) ≡ some a
      → ((key ≡ j) × (a ≡ s.next)) ⊎ (lookup j s.windows ≡ some a)
  new_entry key s j a e = elim (Bool-cases (key =? j)) [
    | inl same ↦ inl (
      (string_eq.beq_iff key j).0 same,
      ground (arith, same, lookup-insert key j s.next s.windows),
    )
    | inr other ↦ inr (ground (arith, other, lookup-insert key j s.next s.windows))
  ]

  new_window :
      (key : String) (s : Shared)
      → lookup key s.windows ≡ none
      → ((j : String) (a : ℕ) → lookup j s.windows ≡ some a → a < s.next)
      → at_address (write s.next [] s.heap) (lookup k (insert key s.next s.windows)) ≡ window_at k s
  new_window key s h below = elim (Bool-cases (key =? k)) [
    | inl same ↦
        let eq = (string_eq.beq_iff key k).0 same in
        rw (lookup-insert key k s.next s.windows, same, ← eq, h) (ground arith)
    | inr other ↦
        rw (lookup-insert key k s.next s.windows, other)
          (elim (Option-cases (lookup k s.windows)) [
            | inl miss ↦ rw miss refl
            | inr (b, hit) ↦ rw hit (ground (arith, below k b hit))
          ])
  ]

  take_none-Ready :
      (r : ℕ) (key : String) (s : Shared)
      → lookup key s.windows ≡ none
      → Ready k bound now s log
      → Ready k bound now (take_with r key none s) log
  take_none-Ready r key s h i =
      unfold take_with in
      record {
        unique = insert-Unique key s.next s.windows i.unique;
        below = λ j a e. elim (new_entry key s j a e) [
          | inl (_, new) ↦ omega (arith, new)
          | inr old ↦ omega (arith, i.below j a old)
        ];
        distinct = λ j j' a e e'. elim (new_entry key s j a e) [
          | inl (here, new) ↦ elim (new_entry key s j' a e') [
            | inl (here', new') ↦ sym here ∙ here'
            | inr old ↦ absurd (omega (arith, new, i.below j' a old))
          ]
          | inr old ↦ elim (new_entry key s j' a e') [
            | inl (here', new') ↦ absurd (omega (arith, new', i.below j a old))
            | inr old' ↦ i.distinct j j' a old old'
          ]
        ];
        holds = λ r' key' a' e. elim (Bool-cases (r' == r)) [
          | inl here ↦ ground (arith, here, e, lookup-insert_self key s.next s.windows)
          | inr other ↦
              let old = i.holds r' key' a' (ground (arith, other)) in
              ground
                (arith, lookup-insert key key' s.next s.windows, string_eq.beq_iff key key', h, old)
        ];
        tracks = rw (new_window key s h i.below) i.tracks;
      }

  take-Ready :
      (r : ℕ) (key : String) (s : Shared)
      → Ready k bound now s log
      → Ready k bound now (take_window r key s) log
  unfolding take_window
  take-Ready r key s i = elim (Option-cases (lookup key s.windows)) [
    | inl miss ↦ rw miss (take_none-Ready r key s miss i)
    | inr (a, hit) ↦ rw hit (take_some-Ready r key a s hit i)
  ]

-- What stays in the map after a tick was there.
sweep_old :
    (now : ℕ) (s : Shared) (j : String) (a : ℕ)
    → Unique s.windows
    → lookup j (sweep now s).windows ≡ some a
    → lookup j s.windows ≡ some a
unfolding sweep
sweep_old now s j a u h =
    let kept = lookup-keep (λ b. not (is_stale now (s.heap b))) j s.windows u in
    elim (Option-cases (lookup j s.windows)) [
      | inl miss ↦ absurd (ground (arith, kept, miss, h))
      | inr (b, hit) ↦ ground (arith, kept, hit, h)
    ]

sweep_live :
    (now : ℕ) (s : Shared) (j : String) (a : ℕ)
    → Unique s.windows
    → lookup j s.windows ≡ some a
    → is_stale now (s.heap a) ≡ false
    → lookup j (sweep now s).windows ≡ some a
unfolding sweep
sweep_live now s j a u hit live =
    let kept = lookup-keep (λ b. not (is_stale now (s.heap b))) j s.windows u in
    rw (kept, hit, live) refl

sweep_gone :
    (now : ℕ) (s : Shared) (j : String) (a : ℕ)
    → Unique s.windows
    → lookup j s.windows ≡ some a
    → is_stale now (s.heap a) ≡ true
    → lookup j (sweep now s).windows ≡ none
unfolding sweep
sweep_gone now s j a u hit stale =
    let kept = lookup-keep (λ b. not (is_stale now (s.heap b))) j s.windows u in
    rw (kept, hit, stale) refl

sweep_missing :
    (now : ℕ) (s : Shared) (j : String)
    → Unique s.windows
    → lookup j s.windows ≡ none
    → lookup j (sweep now s).windows ≡ none
unfolding sweep
sweep_missing now s j u miss =
    let kept = lookup-keep (λ b. not (is_stale now (s.heap b))) j s.windows u in
    rw (kept, miss) refl

-- No window that a request has taken is stale.
abbrev pub HeldLive : ℕ → Shared → Type 0
HeldLive now s =
    (r : ℕ) (key : String) (a : ℕ) → s.held r ≡ some (key, a) → is_stale now (s.heap a) ≡ false

module _ (k : String) (bound now now' : ℕ) (log : List ℕ) (later : now ≤ now') where
  sweep-Tracks :
      (s : Shared)
      → Unique s.windows
      → Tracks bound now (window_at k s) log
      → Tracks bound now' (at_address s.heap (lookup k (sweep now' s).windows)) log
  sweep-Tracks s u t = elim (Option-cases (lookup k s.windows)) [
    | inl miss ↦
        let t' = rw miss at t in
        rw (sweep_missing now' s k u miss) (Tracks-later bound now now' [] log later t')
    | inr (a, hit) ↦
        let t' : Tracks bound now (s.heap a) log = rw hit at t in
        elim (Bool-cases (is_stale now' (s.heap a))) [
          | inl stale ↦
              rw (sweep_gone now' s k a u hit stale)
                (Tracks-stale bound now now' (s.heap a) log later stale t')
          | inr live ↦
              rw (sweep_live now' s k a u hit live)
                (Tracks-later bound now now' (s.heap a) log later t')
        ]
  ]

  sweep-Ready :
      (s : Shared)
      → HeldLive now' s
      → Ready k bound now s log
      → Ready k bound now' (sweep now' s) log
  sweep-Ready s live i = record {
    unique = unfold sweep in keep-Unique _ s.windows i.unique;
    below = λ j a e. unfold sweep in i.below j a (sweep_old now' s j a i.unique e);
    distinct = λ j j' a e e'.
        i.distinct j j' a (sweep_old now' s j a i.unique e) (sweep_old now' s j' a i.unique e');
    holds = λ r key a e.
        let e' : s.held r ≡ some (key, a) = unfold sweep in e in
        sweep_live now' s key a i.unique (i.holds r key a e') (live r key a e');
    tracks = unfold sweep in sweep-Tracks s i.unique i.tracks;
  }

module _ (k : String) (burst limit now now' : ℕ) (log : List ℕ) (later : now ≤ now') where
  -- The check on the window of `k`, and on another one.
  check_same :
      (a : ℕ) (s : Shared)
      → s.burst ≡ burst
      → Tracks (limit + burst) now (s.heap a) log
      → let (v, s') = check_at a limit now' s in
        Tracks (limit + burst) now' (s'.heap a) (log ++ (if v.allowed then now' ∷ [] else []))
  check_same a s b t =
      let t' = Tracks-check_window burst limit now now' (s.heap a) log later t in
      let self : (a == a) ≡ true = ground arith in
      unfold check_at in
      rw (b, self)
        (elim (Bool-cases (check_window burst limit now' (s.heap a)).0.allowed) [
          | inl passes ↦ rw passes (rw passes at t')
          | inr refused ↦ rw (refused, append-nil log) (rw refused at t')
        ])

  check_other :
      (r l a : ℕ) (key : String) (s : Shared)
      → s.held r ≡ some (key, a)
      → (key =? k) ≡ false
      → Ready k (limit + burst) now s log
      → window_at k (check_at a l now' s).1 ≡ window_at k s
  unfolding check_at
  check_other r l a key s h other i = elim (Option-cases (lookup k s.windows)) [
    | inl miss ↦ rw miss refl
    | inr (b, hit) ↦ elim (Bool-cases (b == a)) [
      | inr apart ↦ rw (hit, apart) refl
      | inl one ↦
          let mine = i.holds r key a h in
          let hit' : lookup k s.windows ≡ some a = ground (arith, hit, one) in
          absurd (cc (other, (string_eq.beq_iff key k).1 (i.distinct key k a mine hit')))
    ]
  ]

  check-Ready :
      (r l a : ℕ) (key : String) (s : Shared)
      → s.held r ≡ some (key, a)
      → (key ≡ k → l ≡ limit)
      → s.burst ≡ burst
      → Ready k (limit + burst) now s log
      → Ready k
          (limit + burst)
          now'
          (check_held r l now' (some (key, a)) s)
          (log ++ allowed_held k l now' (some (key, a)) s)
  check-Ready r l a key s h same b i = record {
    unique = unfold check_at in i.unique;
    below = unfold check_at in i.below;
    distinct = unfold check_at in i.distinct;
    holds = λ r' key' a' e. elim (Bool-cases (r' == r)) [
      | inl here ↦ absurd (ground (arith, here, e))
      | inr other ↦ unfold check_at in i.holds r' key' a' (ground (arith, other, e))
    ];
    tracks = elim (Bool-cases (key =? k)) [
      | inl mine ↦
          let eq = (string_eq.beq_iff key k).0 mine in
          let found : lookup k s.windows ≡ some a =
            subst (λ j. lookup j s.windows ≡ some a) eq (i.holds r key a h) in
          let t : Tracks (limit + burst) now (s.heap a) log = rw found at i.tracks in
          let kept : lookup k (check_at a limit now' s).1.windows ≡ some a =
            unfold check_at in found in
          rw (same eq, mine, kept) (check_same a s b t)
      | inr other ↦
          rw (check_other r l a key s h other i, other, append-nil log)
            (Tracks-later (limit + burst) now now' (window_at k s) log later i.tracks)
    ];
  }

-- The instants at which requests of the key `k` are allowed.
unfoldable pub allowed_at : String → Shared → List Event → List ℕ
unfolding allowed_by step
allowed_at k s [] = []
allowed_at k s (e ∷ events) = allowed_by k e s ++ allowed_at k (step e s) events

-- The clock does not run backwards, every request that has taken the window of `k` has the limit
-- `limit`, and at a tick no window that a request has taken is stale.
abbrev pub InOrder : String → ℕ → ℕ → Shared → List Event → Type 0
InOrder k limit now s [] = Unit
InOrder k limit now s (takes r key ∷ events) = InOrder k limit now (step (takes r key) s) events
InOrder k limit now s (checks r l now' ∷ events) =
    (now ≤ now')
    × ((a : ℕ) → s.held r ≡ some (k, a) → l ≡ limit)
    × InOrder k limit now' (step (checks r l now') s) events
InOrder k limit now s (ticks now' ∷ events) =
    (now ≤ now') × HeldLive now' s × InOrder k limit now' (step (ticks now') s) events

take-burst :
    (r : ℕ) (key : String) (o : Option ℕ) (s : Shared) → (take_with r key o s).burst ≡ s.burst
unfolding take_with
take-burst r key none s = refl
take-burst r key (some a) s = refl

step-burst : (e : Event) (s : Shared) → (step e s).burst ≡ s.burst
unfolding step take_window check_at sweep
step-burst (takes r key) s = take-burst r key (lookup key s.windows) s
step-burst (checks r l now) s = elim (Option-cases (s.held r)) [
  | inl free ↦ rw free refl
  | inr (x, h) ↦ rw h refl
]
step-burst (ticks now) s = refl

Ready-later :
    (k : String) (bound now now' : ℕ) (s : Shared) (log : List ℕ)
    → now ≤ now'
    → Ready k bound now s log
    → Ready k bound now' s log
Ready-later k bound now now' s log later i = record {
  unique = i.unique;
  below = i.below;
  distinct = i.distinct;
  holds = i.holds;
  tracks = Tracks-later bound now now' (window_at k s) log later i.tracks;
}

checks-Ready :
    (k : String) (burst limit now now' r l : ℕ) (s : Shared) (log : List ℕ)
    → now ≤ now'
    → ((a : ℕ) → s.held r ≡ some (k, a) → l ≡ limit)
    → s.burst ≡ burst
    → Ready k (limit + burst) now s log
    → Ready k
        (limit + burst)
        now'
        (step (checks r l now') s)
        (log ++ allowed_by k (checks r l now') s)
unfolding step allowed_by
checks-Ready k burst limit now now' r l s log later same b i =
    let Goal : Option (String × ℕ) → Type 0 = λ o.
      Ready k (limit + burst) now' (check_held r l now' o s) (log ++ allowed_held k l now' o s) in
    elim (Option-cases (s.held r)) [
      | inl free ↦ subst Goal (sym free) (
          subst (Ready k (limit + burst) now' s) (sym (append-nil log))
            (Ready-later k (limit + burst) now now' s log later i))
      | inr ((key, a), h) ↦
          let limited : key ≡ k → l ≡ limit = λ e. same a (h ∙ ap (λ j. some (j, a)) e) in
          subst Goal (sym h)
            (check-Ready k burst limit now now' log later r l a key s h limited b i)
    ]

run-le :
    (k : String) (burst limit now : ℕ) (s : Shared) (log : List ℕ) (events : List Event)
    → InOrder k limit now s events
    → s.burst ≡ burst
    → Ready k (limit + burst) now s log
    → (t : ℕ) → count (in_minute t) (log ++ allowed_at k s events) ≤ limit + burst
unfolding allowed_at
run-le k burst limit now s log [] o b i t = rw append-nil (i.tracks.within t)
run-le k burst limit now s log (takes r key ∷ events) o b i t =
    unfold allowed_by in
    run-le k burst limit now (step (takes r key) s) log events o (step-burst (takes r key) s ∙ b)
      (unfold step in take-Ready k (limit + burst) now log r key s i) t
run-le k burst limit now s log (checks r l now' ∷ events) (later, same, o) b i t =
    let e = checks r l now' in
    rw (← append_assoc log (allowed_by k e s) (allowed_at k (step e s) events)) (
      run-le k burst limit now' (step e s) (log ++ allowed_by k e s) events o (step-burst e s ∙ b)
        (checks-Ready k burst limit now now' r l s log later same b i) t)
run-le k burst limit now s log (ticks now' ∷ events) (later, live, o) b i t =
    unfold allowed_by in
    run-le k burst limit now' (step (ticks now') s) log events o (step-burst (ticks now') s ∙ b)
      (unfold step in sweep-Ready k (limit + burst) now now' log later s live i) t

-- Requests of whatever keys take and check windows of a new limiter in whatever order, and cleanups come
-- between; the clock does not run backwards, the requests of the key `k` have the limit `limit`, and no
-- cleanup finds a window stale that a request has taken and not checked yet. Then in the minute that
-- ends at any instant `t`, at most `limit` plus the burst requests of `k` were allowed.
pub allowed_at-le :
    (cfg : RateLimitConfig) (k : String) (limit : ℕ) (events : List Event) (t : ℕ)
    → InOrder k limit 0 (new_shared cfg) events
    → count (in_minute t) (allowed_at k (new_shared cfg) events) ≤ limit + cfg.burst
allowed_at-le cfg k limit events t o =
    run-le k cfg.burst limit 0 (new_shared cfg) [] events o (unfold new_shared in refl)
      (unfold new_shared in
        record {
          unique = tt;
          below = λ j a e. unfold lookup in absurd (cc e);
          distinct = λ i j a e. unfold lookup in absurd (cc e);
          holds = λ r key a e. absurd (cc e);
          tracks = unfold lookup in Tracks-empty (limit + cfg.burst) 0;
        })
      t
