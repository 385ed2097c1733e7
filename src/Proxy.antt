-- ===== src/Proxy.antt =====
-- What the proxies of internal/proxy share: the limits of a running session, and the classification
-- of what a client sends.
pub mod Limits
pub mod Query
pub mod Oracle
pub mod Wire
pub mod Postgres
