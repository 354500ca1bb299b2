-- ===== src/Server.antt =====
-- internal/httpserver, internal/mediaproxy and internal/imageproxy: what a request is answered.
pub mod Proxy
pub mod Fetch
pub mod Reply
pub mod Media
pub mod Public
pub mod Clients
