-- ===== src/Module.antt =====
-- pip/skmap/src/skmap/module.py: the modules of a design, found over a `Regio`. Printing and the
-- version strings are not modelled.
pub mod Access
pub mod Through
pub mod Layout
pub mod Init
pub mod Factory
pub mod Export
pub mod Asserts
mod Tests
