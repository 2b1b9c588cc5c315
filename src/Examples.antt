-- ===== src/Examples.antt =====
-- The properties applied to concrete inputs.
mod Clocks
mod Reading
mod Pulsing
mod Tracing
mod Waiving
mod Crossing
mod Loading
mod Macros
mod Ruling
mod Keeping
