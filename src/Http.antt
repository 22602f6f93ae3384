-- ===== src/Http.antt =====
-- The package http: the cache of its middleware (http/cache/lru.go).
pub mod Lru
