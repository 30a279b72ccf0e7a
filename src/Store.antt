-- ===== src/Store.antt =====
-- store: the handler that turns the changes of a store into events, and a store.
pub mod Value
pub mod Diff
pub mod Model
pub mod Handler
pub mod Contract
pub mod Mock
pub mod Transform
pub mod QueryHandler
mod Tests
