-- ===== src/Materializer.antt =====
pub mod Nodes
pub mod Provenance
pub mod Matrix
pub mod Relations
pub mod Rewire
pub mod Sessions
pub mod Detection
pub mod Organizing
pub mod Undo
pub mod Apply
