-- ===== src/Pattern.antt =====
-- pattern.go: resource patterns with wildcards and tags.
pub mod Valid
pub mod Match
pub mod Shape
pub mod Replace
mod Tests
