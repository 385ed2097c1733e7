-- ===== src/Auth/Revocation/Tests.antt =====
-- Runs of internal/cache/revocation.go.
use dbbat.Prelude.{◌≡◌, true, false, some, [], ◌∷◌, arith}
use dbbat.Prelude.Keys.{nat_eq}
use dbbat.Auth.Revocation.{new_registry, register, is_revoked}
use dbbat.Auth.Revocation.Delivery.{registered, revoking, run, reached, is_revoked-reached}

is_revoked-reached_example :
    is_revoked
      (some (register 5 (run new_registry (registered 5 ∷ revoking 5 ∷ []))).0)
      (run
        (register 5 (run new_registry (registered 5 ∷ revoking 5 ∷ []))).1
        (revoking 6 ∷ revoking 5 ∷ [])).handles
    ≡ reached 5
        (register 5 (run new_registry (registered 5 ∷ revoking 5 ∷ []))).0
        true
        false
        (revoking 6 ∷ revoking 5 ∷ [])
is_revoked-reached_example =
    is_revoked-reached (registered 5 ∷ revoking 5 ∷ []) (revoking 6 ∷ revoking 5 ∷ []) 5
      (omega arith)
