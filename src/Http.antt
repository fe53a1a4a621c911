-- ===== src/Http.antt =====
-- The HTTP layer over the network layer: src/http and include/http.
pub mod Request
pub mod Context
pub mod Response
pub mod Server
pub mod Tests
