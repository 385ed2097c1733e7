-- ===== src/Auth.antt =====
-- Who may connect, and for how long a verdict is kept: the password hashes of
-- internal/crypto/hash.go, the cache of verdicts of internal/cache/auth.go, the registry of
-- revoked grants of internal/cache/revocation.go, the API keys of internal/store/api_keys.go and the
-- logins of internal/api/middleware.go, and the encryption of internal/crypto/encrypt.go.
pub mod Hash
pub mod Cache
pub mod Revocation
pub mod Failures
pub mod Keys
pub mod Login
pub mod Encrypt
