-- ===== src/Examples.antt =====
-- The example programs of src/src: their coroutines, interrupt handlers and event loops.
pub mod Irq
pub mod Delayed
