-- ===== src/Tests.antt =====
-- The components at concrete inputs.
mod Files
mod Threads
mod Regions
mod Ciphers
mod Dex
mod Code
mod Rebuilds
mod Calls
mod Java
mod Arenas
