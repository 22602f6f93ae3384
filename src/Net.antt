-- ===== src/Net.antt =====
-- The package net: the pool of ports (net/port.go), and lists of addresses (net/iplimit.go).
pub mod Port
pub mod Iplimit
