-- ===== src/Request.antt =====
-- request.go: the replies of a request, and `executeHandler`.
pub mod Reply
pub mod Execute
pub mod Get
mod Tests
