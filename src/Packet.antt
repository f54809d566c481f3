-- ===== src/Packet.antt =====
-- include/nil/actor/network/packet.hh and src/network/packet.cc: the zero-copy packet.
pub mod Impl
pub mod Build
pub mod Trim
pub mod View
mod Tests
