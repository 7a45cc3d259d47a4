-- ===== src/Alarm.antt =====
-- lib/alarm: the alarm engine, and the bridge that runs it from a thread.
pub mod Engine
pub mod Bridge
