-- ===== src/Mocks.antt =====
-- internal/integrations: the in-memory stand-ins behind the ports, which local development runs with.
pub mod Github
pub mod Merged
