-- ===== src/Sigc.antt =====
-- tools/sigc.py, the signature compiler.
pub mod Slug
pub mod Builder
pub mod Rules
pub mod Load
mod Tests
