-- ===== src/Proxy/Limits.antt =====
-- The limit guard of internal/proxy/shared/limits.go. An `int64` is its bit pattern below 2^64, and
-- an instant is nanoseconds since Go's zero time, so 0 is the time that `IsZero` accepts. A pointer
-- to an atomic is its address; what the atomics and the clock show at one moment is a `Live`.
pub mod Check
pub mod Watch
mod Tests
use dbbat.Prelude.{
  ℕ, suc, ◌+◌, ◌%◌, ◌^◌, Bool, true, false, not, ◌&&◌, ◌||◌, Option, none, some, List, [], ◌∷◌, ltb,
  leb, ◌==◌, if◌then◌else◌, is_some,
}

pub data LimitError : Type 0 where
  byte_quota_exceeded grant_expired grant_revoked : LimitError

-- The fields of a grant that the guard reads.
pub record GrantLimits : Type 0 where
  pub bytes_transferred : ℕ
  pub max_bytes_transferred : Option ℕ
  pub expires_at : ℕ

pub record LimitGuard : Type 0 where
  pub from : Option ℕ
  pub to : Option ℕ
  pub base_bytes : ℕ
  pub max_bytes : Option ℕ
  pub expires_at : ℕ
  pub revoked : Option ℕ

pub record Live : Type 0 where
  pub counter : ℕ → ℕ
  pub flag : ℕ → Bool
  pub now : ℕ

-- `a + b` and `a >= b` on `int64`
abbrev pub add64 : ℕ → ℕ → ℕ
add64 a b = (a + b) % 2 ^ 64

abbrev pub ge64 : ℕ → ℕ → Bool
ge64 a b = leb ((b + 2 ^ 63) % 2 ^ 64) ((a + 2 ^ 63) % 2 ^ 64)

base_guard : Option ℕ → Option ℕ → LimitGuard
base_guard from to = record {
  from = from;
  to = to;
  base_bytes = 0;
  max_bytes = none;
  expires_at = 0;
  revoked = none;
}

-- `NewLimitGuard`
pub new_limit_guard : Option GrantLimits → Option ℕ → Option ℕ → LimitGuard
unfolding base_guard
new_limit_guard none from to = base_guard from to
new_limit_guard (some grant) from to = record (base_guard from to) {
  base_bytes = grant.bytes_transferred;
  max_bytes = grant.max_bytes_transferred;
  expires_at = grant.expires_at;
}

-- `WithRevocation`; `none` is the nil guard.
pub with_revocation : Option ℕ → Option LimitGuard → Option LimitGuard
with_revocation revoked none = none
with_revocation revoked (some g) = some (record g { revoked = revoked })

load : Option ℕ → Live → ℕ → ℕ
load none l total = total
load (some p) l total = add64 total (l.counter p)

-- `liveBytes`
pub live_bytes : LimitGuard → Live → ℕ
unfolding load
live_bytes g l = load g.to l (load g.from l 0)

is_flagged : Option ℕ → Live → Bool
is_flagged none l = false
is_flagged (some p) l = l.flag p

over_quota : Option ℕ → ℕ → Bool
over_quota none total = false
over_quota (some max_bytes) total = ge64 total max_bytes

-- `Check` on a guard that is not nil
pub check_guard : LimitGuard → Live → Option LimitError
unfolding is_flagged over_quota live_bytes
check_guard g l =
    if is_flagged g.revoked l
    then some grant_revoked
    else if over_quota g.max_bytes (add64 g.base_bytes (live_bytes g l))
    then some byte_quota_exceeded
    else if not (g.expires_at == 0) && not (ltb l.now g.expires_at)
    then some grant_expired
    else none

-- `Check`
pub check : Option LimitGuard → Live → Option LimitError
unfolding check_guard
check none l = none
check (some g) l = check_guard g l

-- What the watcher meets: a tick, with what it finds then, or the end of the session's context.
pub data Signal : Type 0 where
  tick : Live → Signal
  done : Signal

-- The `for` of `Watch`. The value lists the calls of `onViolation`.
pub watch_loop : LimitGuard → List Signal → List LimitError
watch_loop g [] = []
watch_loop g (done ∷ signals) = []
watch_loop g (tick l ∷ signals) = elim (check_guard g l) [
  | none ↦ watch_loop g signals
  | some e ↦ e ∷ []
]

-- Nothing to enforce.
pub is_idle : LimitGuard → Bool
is_idle g = not (is_some g.max_bytes) && (g.expires_at == 0 && not (is_some g.revoked))

-- `Watch`, which first checks at once. The polling interval only spaces the ticks.
pub watch : Option LimitGuard → Live → List Signal → List LimitError
unfolding is_idle
watch none l signals = []
watch (some g) l signals =
    let calls : List LimitError = elim (check_guard g l) [
      | none ↦ watch_loop g signals
      | some e ↦ e ∷ []
    ] in
    if is_idle g then [] else calls
