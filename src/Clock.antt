-- ===== src/Clock.antt =====
-- The contest clock of the competitor portal: the printed time, the tick, and the alerts.
pub mod Types
pub mod Format
pub mod Tick
