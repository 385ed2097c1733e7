-- ===== src/Proxy/Limits/Tests.antt =====
-- Runs of internal/proxy/shared/limits.go.
use dbbat.Prelude.{ℕ, false, some, [], ◌∷◌, arith, ◌==◌, if◌then◌else◌}
use dbbat.Proxy.Limits.{LimitGuard, Live, check_guard, tick, done, watch}
use dbbat.Proxy.Limits.Check.{Judged, check_guard-Judged, IsLater}
use dbbat.Proxy.Limits.Watch.{observed, Reports, watch-Reports}

abbrev a_guard : LimitGuard
a_guard = record {
  from = some 1;
  to = some 2;
  base_bytes = 100;
  max_bytes = some 200;
  expires_at = 1000;
  revoked = some 3;
}

abbrev at_time : ℕ → ℕ → Live
at_time bytes now = record {
  counter = λ p. if p == 1 then bytes else 10;
  flag = λ p. false;
  now = now;
}

check_guard-Judged_example : Judged a_guard (at_time 90 500) (check_guard a_guard (at_time 90 500))
check_guard-Judged_example = check_guard-Judged a_guard (at_time 90 500) (omega arith) (omega arith)

watch-Reports_example :
    Reports a_guard
      (at_time 10 500 ∷ observed (tick (at_time 50 600) ∷ tick (at_time 95 700) ∷ done ∷ []))
      (watch
        (some a_guard)
        (at_time 10 500)
        (tick (at_time 50 600) ∷ tick (at_time 95 700) ∷ done ∷ []))
watch-Reports_example =
    watch-Reports a_guard (at_time 10 500)
      (tick (at_time 50 600) ∷ tick (at_time 95 700) ∷ done ∷ [])

later : IsLater (at_time 90 500) (at_time 95 600)
later = record { clock = omega arith; counters = λ p. ground arith; flags = λ p h. h }
