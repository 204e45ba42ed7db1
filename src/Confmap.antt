-- ===== src/Confmap.antt =====
-- Package confmap: JSON-shaped trees, their paths, deep merge, patches and labels.
mod Tests
pub mod Value
pub mod Path
pub mod Deep
pub mod Pointer
pub mod Patch
pub mod Coerce
pub mod Clone
pub mod Labels
