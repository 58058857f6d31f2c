-- ===== src/Proto.antt =====
-- irida-core/libs/protocol: the gdb remote serial protocol, without any transport.
pub mod Hex
mod Tests
pub mod Frame
pub mod Packets
