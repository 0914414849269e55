-- ===== src/Cache.antt =====
-- The layered cache of market-data responses (src/china_a_share/cache.py).
pub mod Record
pub mod Memory
pub mod Layered
