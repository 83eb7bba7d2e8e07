-- ===== src/PrimeTime.antt =====
-- c/source/prime-time: the requests of the prime server.
pub mod IsPrime
pub mod Json
pub mod Request
pub mod Builder
