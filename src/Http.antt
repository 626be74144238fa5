-- ===== src/Http.antt =====
-- The HTTP server, src/http of the repository: its control and status routes.
pub mod Control
pub mod Status
