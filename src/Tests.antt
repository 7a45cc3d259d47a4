-- ===== src/Tests.antt =====
-- Runs of the development at concrete inputs.
mod Wire
mod Registers
mod Units
mod Scan
mod Cmos
mod Bridge
mod Start
mod Alarms
mod AlarmLog
mod Program
