-- ===== src/Guest.antt =====
-- guest/: what a guest may consume.
pub mod Quota
mod Tests
