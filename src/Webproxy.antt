-- ===== src/Webproxy.antt =====
-- internal/webproxy: the WEB-proxy v1 client.
pub mod Frame
pub mod Window
pub mod Session
pub mod Stream
pub mod Mux
pub mod Writer
