-- ===== src/Nodes.antt =====
-- The driver nodes.
pub mod Base
pub mod Drive
pub mod Proxy
pub mod Master
