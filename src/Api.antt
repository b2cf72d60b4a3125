-- ===== src/Api.antt =====
-- api: the registry of properties, the REST handlers and the WebSocket hub.
pub mod Registry
pub mod Handlers
pub mod Hub
