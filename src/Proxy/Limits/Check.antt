-- ===== src/Proxy/Limits/Check.antt =====
-- What `Check` of internal/proxy/shared/limits.go finds, at one moment and later on.
use dbbat.Prelude.{
  ℕ, ◌+◌, ◌^◌, ◌≤◌, ◌<◌, ◌≡◌, ◌≢◌, ◌⊎◌, refl, subst, true, false, not, ◌&&◌, Option, none, some,
  arith, ltb, ◌==◌, Bool-cases, inl, inr,
}
use dbbat.Proxy.Limits.{
  add64, LimitError, byte_quota_exceeded, grant_expired, grant_revoked, LimitGuard, Live,
  live_bytes, is_flagged, over_quota, check_guard,
}

-- A counter that the guard watches, or 0.
abbrev pub bytes_at : Option ℕ → Live → ℕ
bytes_at none l = 0
bytes_at (some p) l = l.counter p

-- The traffic is far from the end of `int64`.
abbrev pub InRange : LimitGuard → Live → Type 0
InRange g l = g.base_bytes + bytes_at g.from l + bytes_at g.to l < 2 ^ 63

abbrev pub MaxInRange : Option ℕ → Type 0
MaxInRange none = Unit
MaxInRange (some m) = m < 2 ^ 63

live_bytes_lem :
    (g : LimitGuard) (l : Live) → InRange g l → live_bytes g l ≡ bytes_at g.from l + bytes_at g.to l
unfolding live_bytes
live_bytes_lem g l h = ground arith

-- What the guard must do, in plain arithmetic.
abbrev pub Exceeds : Option ℕ → ℕ → Type 0
Exceeds none total = ⊥
Exceeds (some m) total = m ≤ total

abbrev pub IsRevoked : Option ℕ → Live → Type 0
IsRevoked none l = ⊥
IsRevoked (some p) l = l.flag p ≡ true

abbrev pub IsExpired : LimitGuard → Live → Type 0
IsExpired g l = (g.expires_at ≢ 0) × (g.expires_at ≤ l.now)

over_quota_lem :
    (m : Option ℕ) (total : ℕ)
    → MaxInRange m
    → total < 2 ^ 63
    → ((over_quota m total ≡ true) × Exceeds m total)
      ⊎ ((over_quota m total ≡ false) × (¬ Exceeds m total))
unfolding over_quota
over_quota_lem none total hm h = inr (refl, λ e. e)
over_quota_lem (some m) total hm h = elim (Bool-cases (over_quota (some m) total)) [
  | inl e ↦ inl (e, ground (arith, e))
  | inr e ↦ inr (e, ground (arith, e))
]

is_flagged_lem :
    (p : Option ℕ) (l : Live)
    → ((is_flagged p l ≡ true) × IsRevoked p l) ⊎ ((is_flagged p l ≡ false) × (¬ IsRevoked p l))
unfolding is_flagged
is_flagged_lem none l = inr (refl, λ e. e)
is_flagged_lem (some p) l = elim (Bool-cases (l.flag p)) [
  | inl e ↦ inl (e, e)
  | inr e ↦ inr (e, λ e'. cc)
]

-- What each answer of `Check` says of the grant.
abbrev pub Judged : LimitGuard → Live → Option LimitError → Type 0
Judged g l none =
    (¬ IsRevoked g.revoked l)
    × (¬ Exceeds g.max_bytes (g.base_bytes + bytes_at g.from l + bytes_at g.to l))
    × (¬ IsExpired g l)
Judged g l (some grant_revoked) = IsRevoked g.revoked l
Judged g l (some byte_quota_exceeded) =
    (¬ IsRevoked g.revoked l)
    × Exceeds g.max_bytes (g.base_bytes + bytes_at g.from l + bytes_at g.to l)
Judged g l (some grant_expired) =
    (¬ IsRevoked g.revoked l)
    × (¬ Exceeds g.max_bytes (g.base_bytes + bytes_at g.from l + bytes_at g.to l))
    × IsExpired g l

-- While the byte counts stay within `int64`, `Check` finds nothing exactly on a grant that is not
-- revoked, below its quota and not expired, and otherwise names the first of these that fails, in
-- that order.
pub check_guard-Judged :
    (g : LimitGuard) (l : Live)
    → InRange g l
    → MaxInRange g.max_bytes
    → Judged g l (check_guard g l)
unfolding check_guard
check_guard-Judged g l h hm =
    let total = g.base_bytes + bytes_at g.from l + bytes_at g.to l in
    let sum : add64 g.base_bytes (live_bytes g l) ≡ total = ground (arith, live_bytes_lem g l h) in
    elim (is_flagged_lem g.revoked l) [
      | inl (f, is) ↦ rw f is
      | inr (f, not_revoked) ↦ elim (over_quota_lem g.max_bytes total hm h) [
        | inl (q, over) ↦ rw (f, sum, q) (not_revoked, over)
        | inr (q, under) ↦
            elim (Bool-cases (not (g.expires_at == 0) && not (ltb l.now g.expires_at))) [
              | inl e ↦ rw (f, sum, q, e) (not_revoked, under, ground (arith, e))
              | inr e ↦ rw (f, sum, q, e) (not_revoked, under, λ x. ground (arith, e))
            ]
      ]
    ]

-- Time goes on: the clock, the counters and the flags do not go back.
pub record IsLater (l l' : Live) : Type 0 where
  pub clock : l.now ≤ l'.now
  pub counters : (p : ℕ) → l.counter p ≤ l'.counter p
  pub flags : (p : ℕ) → l.flag p ≡ true → l'.flag p ≡ true

bytes_at-le : (p : Option ℕ) (l l' : Live) → IsLater l l' → bytes_at p l ≤ bytes_at p l'
bytes_at-le none l l' later = omega arith
bytes_at-le (some p) l l' later = later.counters p

IsRevoked-later : (p : Option ℕ) (l l' : Live) → IsLater l l' → IsRevoked p l → IsRevoked p l'
IsRevoked-later none l l' later r = r
IsRevoked-later (some p) l l' later r = later.flags p r

Exceeds-le : (m : Option ℕ) (a b : ℕ) → a ≤ b → Exceeds m a → Exceeds m b
Exceeds-le none a b h x = x
Exceeds-le (some m) a b h x = omega arith

still_wrong :
    (g : LimitGuard) (l l' : Live) (e : LimitError)
    → IsLater l l'
    → Judged g l (some e)
    → ¬ Judged g l' none
still_wrong g l l' grant_revoked later j (a, b, c) = a (IsRevoked-later g.revoked l l' later j)
still_wrong g l l' byte_quota_exceeded later (i, j) (a, b, c) = b (
    Exceeds-le g.max_bytes _ _
      (omega (arith, bytes_at-le g.from l l' later, bytes_at-le g.to l l' later)) j)
still_wrong g l l' grant_expired later (i, j, k) (a, b, c) =
    c (k.0, omega (arith, later.clock, k.1))

-- A guard that has tripped stays tripped, at every later moment at which the byte counts are still
-- within `int64`.
pub check_guard-stays :
    (g : LimitGuard) (l l' : Live) (e : LimitError)
    → IsLater l l'
    → InRange g l'
    → MaxInRange g.max_bytes
    → check_guard g l ≡ some e
    → check_guard g l' ≢ none
check_guard-stays g l l' e later h hm tripped passes =
    still_wrong g l l' e later
      (subst (Judged g l) tripped (
        check_guard-Judged g l
          (omega (arith, bytes_at-le g.from l l' later, bytes_at-le g.to l l' later)) hm))
      (subst (Judged g l') passes (check_guard-Judged g l' h hm))
