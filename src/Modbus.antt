-- ===== src/Modbus.antt =====
-- lib/modbus: the Modbus RTU client (master), from the CRC up to the register functions.
pub mod Crc
pub mod Frame
pub mod Serial
pub mod Transaction
pub mod Client
pub mod Port
