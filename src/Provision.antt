-- ===== src/Provision.antt =====
-- provision/: the address that a guest is given.
pub mod Address
mod Tests
