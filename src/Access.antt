-- ===== src/Access.antt =====
-- The tables of internal/store that say who may reach which database: grants, the requests for
-- them, and the device authorizations that hand out keys.
pub mod Grants
pub mod Requests
pub mod Device
mod Tests
