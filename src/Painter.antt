-- ===== src/Painter.antt =====
-- The painter: `struct evdi_painter` and `struct evdi_device`, and the operations of
-- module/evdi_painter.c, by their parts. Each operation is one step: the painter's mutex and the event
-- spin lock are held through those that change state.
pub mod State
pub mod Send
pub mod Dirty
pub mod Vblank
pub mod Update
pub mod Connect
pub mod Display
pub mod Pixels
pub mod Grab
pub mod Ddcci
pub mod Session
