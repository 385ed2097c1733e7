-- ===== src/RateLimit/Shared.antt =====
-- The limiter of internal/api/ratelimit.go while requests run beside one another: a request takes the
-- window of its key in one critical section of `check` and records itself in it in another, and
-- windows are shared objects. A window is an address in a heap. Of the configuration only the burst
-- matters here; the limit of a request is an argument.
pub mod Bound
mod Tests
use dbbat.Prelude.{
  ℕ, zero, suc, String, Bool, true, false, not, ◌&&◌, Option, none, some, List, [], ◌∷◌, ◌==◌,
  if◌then◌else◌, keep,
}
use dbbat.Prelude.Keys.{string_eq, ◌=?◌}
use dbbat.Prelude.Maps.{lookup, insert}
use dbbat.RateLimit.{RateLimitConfig, Verdict, check_window, is_stale}

-- `held` says which window a request has taken: its key and its address.
pub record Shared : Type 0 where
  pub burst : ℕ
  pub windows : List (String × ℕ)
  pub heap : ℕ → List ℕ
  pub next : ℕ
  pub held : ℕ → Option (String × ℕ)

pub new_shared : RateLimitConfig → Shared
new_shared cfg = record {
  burst = cfg.burst;
  windows = [];
  heap = λ a. [];
  next = 0;
  held = λ r. none;
}

abbrev pub write {ℓ} : {A : Type ℓ} → ℕ → A → (ℕ → A) → ℕ → A
write a x f b = if b == a then x else f b

-- `getWindow`, of the request `r`. Its second look finds what the first has missed, so the section that
-- gives the window counts.
take_with : ℕ → String → Option ℕ → Shared → Shared
take_with r key (some a) s = record s { held = write r (some (key, a)) s.held }
take_with r key none s = record s {
  windows = insert key s.next s.windows;
  heap = write s.next [] s.heap;
  next = suc s.next;
  held = write r (some (key, s.next)) s.held;
}

pub take_window : ℕ → String → Shared → Shared
unfolding take_with
take_window r key s = take_with r key (lookup key s.windows) s

-- The rest of `check`, on the window at the address.
pub check_at : ℕ → ℕ → ℕ → Shared → Verdict × Shared
check_at a limit now s =
    let (v, timestamps) = check_window s.burst limit now (s.heap a) in
    (v, record s { heap = write a timestamps s.heap })

-- A tick of `cleanup`: stale windows leave the map; who has taken one keeps it.
pub sweep : ℕ → Shared → Shared
sweep now s = record s { windows = keep (λ e. not (is_stale now (s.heap e.1))) s.windows }

-- A request comes to the first or to the second section of its `check`, or the cleanup ticks.
pub data Event : Type 0 where
  takes : ℕ → String → Event
  checks : ℕ → ℕ → ℕ → Event
  ticks : ℕ → Event

abbrev pub check_held : ℕ → ℕ → ℕ → Option (String × ℕ) → Shared → Shared
check_held r limit now none s = s
check_held r limit now (some (key, a)) s = record (check_at a limit now s).1 {
  held = write r none s.held;
}

pub step : Event → Shared → Shared
unfolding take_window check_at sweep
step (takes r key) s = take_window r key s
step (checks r limit now) s = check_held r limit now (s.held r) s
step (ticks now) s = sweep now s

-- The instants at which requests of the key `k` are allowed.
abbrev pub allowed_held : String → ℕ → ℕ → Option (String × ℕ) → Shared → List ℕ
allowed_held k limit now none s = []
allowed_held k limit now (some (key, a)) s =
    if key =? k && (check_at a limit now s).0.allowed then now ∷ [] else []

pub allowed_by : String → Event → Shared → List ℕ
allowed_by k (checks r limit now) s = allowed_held k limit now (s.held r) s
allowed_by k event s = []
