-- ===== src/Dsp.antt =====
-- The Dyson Sphere Program proxy (dsp-nebula-cacher).
pub mod Lz4
pub mod Nebula
pub mod Proxy
mod Tests
