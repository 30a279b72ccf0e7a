-- ===== src/Mux.antt =====
-- mux.go: the tree of handlers and its operations.
pub mod Tree
pub mod Fetch
pub mod Lookup
pub mod Mount
pub mod Contains
pub mod Routing
pub mod Built
mod Tests
