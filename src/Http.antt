-- ===== src/Http.antt =====
-- src/http: the reverse proxy. The routing table is in Router.
pub mod Head
pub mod Reply
pub mod Smuggling
pub mod Status
mod Tests
