-- ===== src/Sigdb.antt =====
-- The .sigdb file: written by `Builder.serialize` of tools/sigc.py, read by the tools.
pub mod Struct
pub mod Pool
pub mod Write
pub mod Read
pub mod RoundTrip
pub mod Export
pub mod Audit
pub mod Page
pub mod Inventory
mod Tests
