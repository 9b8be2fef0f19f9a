-- ===== src/Gatherers.antt =====
-- pkg/datagatherer: the gatherers that ask once and keep no cache.
pub mod Oidc
pub mod Discovery
pub mod Tests
