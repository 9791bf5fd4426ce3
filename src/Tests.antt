-- ===== src/Tests.antt =====
-- Tests: the theorems at concrete inputs.
pub mod Data
pub mod Rects
pub mod Events
pub mod Sessions
pub mod Grabs
pub mod Gems
pub mod Cursors
pub mod Platforms
pub mod Connectors
pub mod Clients
pub mod Handles
pub mod Modesets
pub mod Consoles
