-- ===== src/Service.antt =====
-- service.go: the life of the service, the system events that it sends, and the options of a handler.
pub mod Life
pub mod System
mod Tests
