-- ===== src/Hmi.antt =====
-- apps/api/app/hmi.
pub mod Status
pub mod Quality
pub mod Faults
