-- ===== src/Proxy/Oracle.antt =====
-- internal/proxy/oracle: the proxy for Oracle. Only the framing of its packets is modelled.
pub mod Tns
