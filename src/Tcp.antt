-- ===== src/Tcp.antt =====
-- include/nil/actor/network/tcp.hh and src/network/tcp.cc: sequence numbers, the header and its
-- options, a connection, and the table of connections.
pub mod Core
pub mod Seq
pub mod Option
pub mod Header
pub mod Tcb
pub mod Table
pub mod Tests
mod Samples
