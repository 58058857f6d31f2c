-- ===== src/Proto/Packets.antt =====
-- irida-core/libs/protocol/src/packets.cpp: request payloads, and the replies that are parsed.
pub mod Numbers
pub mod Requests
pub mod StopReply
