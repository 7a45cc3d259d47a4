-- ===== src/Cmos.antt =====
-- lib/cmos: the publisher and the subscriber of the messages that the bridge exchanges.
pub mod Text
pub mod Pub
pub mod Sub
pub mod Link
pub mod Stream
pub mod Util
pub mod Conns
pub mod Spin
