-- ===== src/Ws.antt =====
-- ws/: the two aggregators of weather reports.
pub mod Aggregators
mod Examples
