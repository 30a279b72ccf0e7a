-- ===== src/Parts.antt =====
-- The parts of a dotted name: `splitPattern` and `mergePattern` of mux.go, and the part-wise view
-- that the specifications use.
mod Split
mod Join
unfoldable pub use Split.*
unfoldable pub use Join.*
