-- ===== src/Reference.antt =====
-- primer1/scripts/reference_checks.py and primer2/scripts/reference_checks.py: the reference models
-- that the RTL of the two targets is compared with.
pub mod Session
pub mod Packet
pub mod Ascon
