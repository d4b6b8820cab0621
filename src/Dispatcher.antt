-- ===== src/Dispatcher.antt =====
-- pkg/dispatcher: the controllers of the dispatcher.
pub mod Phases
pub mod Bulks
pub mod Calculations
pub mod Factory
pub mod Workers
