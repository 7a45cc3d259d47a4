-- ===== src/Inverter.antt =====
-- The inverter units: their register tables, the queue of write commands, the poll thread, the
-- handlers of the CMOS messages, and the bridge between both.
pub mod Map
pub mod Queue
pub mod Unit
pub mod Thread
pub mod Handlers
pub mod Bridge
pub mod Start
pub mod Alarms
pub mod AlarmManager
