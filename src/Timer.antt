-- ===== src/Timer.antt =====
-- crates/rskynet-timer: the hierarchical timer wheel, and the clock that drives it.
pub mod Wheel
pub mod Clock
