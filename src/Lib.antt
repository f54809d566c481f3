-- ===== src/Lib.antt =====
-- A verification library for the actor network library: the packet structure that all of the native
-- stack passes around, the merging of IP fragments, checksums, IPv4 with ICMP, TCP from sequence
-- numbers to connections and their table, address resolution, and the URL side of the HTTP server.
--
-- The parts and their files (paths from the repository's root):
--   Packet (include/nil/actor/network/packet.hh, src/network/packet.cc). `packet::impl` is the record
--     `Packet`: length, capacity of the fragment array, headroom, offload data and the fragments. A
--     fragment is a base, which is an offset into `_data` or external, and the bytes there. Impl has
--     allocation and copies, Build the constructors, prepending and appending, Trim both trims, View
--     linearising, header access, sharing and release. `Holds bs p` says that the packet is well
--     formed and stands for the byte string `bs`; every operation is described by what it does to `bs`.
--   Merger (include/nil/actor/network/packet-util.hh). `packet_merger::merge`, its two loops as `scan`
--     and `join_from` on the list of the map's segments. It uses packets as the bytes they hold. Offsets
--     are numbers, and stand for the 32-bit ones as long as every segment ends below 2 ^ 32.
--   Checksum (include/nil/actor/network/ip_checksum.hh, src/network/ip_checksum.cc and the 64-bit swap
--     of byteorder.hh). The checksummer's sum and parity, on bytes, on integers and on packets.
--   Tcp (include/nil/actor/network/tcp.hh, src/network/tcp.cc). Seq has the sequence numbers, Header
--     the header's fields in its 20 bytes, Option the options. `align_up`, `read_be` and `write_be` come
--     from the core library, which is outside the repository: they are the parameters of Tcp/Core.
--     Tcb and its children are `tcp::tcb`, a connection. `Tcb` is its state: Send and Receive are `_snd`
--     and `_rcv`. A packet is its payload's bytes; times are milliseconds and an argument `now` is what the
--     clock says; a promise is the flag that one waits, and what is told to the outside is listed in
--     `signals`. Open has the handshake, Segment the handler of other segments by its numbered steps (Ack
--     is step 4.5, Input puts the steps together), Acks `data_segment_acked`, Rate the timeout and the
--     congestion window, Transmit sending, Reader receiving (OutOfOrder is the packet merger at sequence
--     numbers), Timers what the timers do, Api the calls of the socket. Machine has the events as a step
--     relation and the diagram of states, Stream the data to deliver. `close` is cut at its future: what
--     follows is `close_acked`.
--     Table is `tcp::received` with the table of connections and the listeners: where a segment goes, and
--     what the table is after the connection's handler. A connection
--     there has its own addresses and ports, by which it is removed. The argument `valid` is whether the
--     checksum is right.
--   Ip (include/nil/actor/network/ip.hh, src/network/ip.cc, toeplitz.hh). `Ipv4` is the state of
--     `ipv4`, on which Header (the bytes of `ip_hdr`), Send (`send`, `needs_frag`), Fragments (the table of
--     datagrams on their way, with its limit and its timeout), Receive (`handle_received_packet`) and
--     Provide (`get_packet` and the setters) work; it has the Arp and the Merger of these parts inside.
--     Hash has `toeplitz_hash` and what is hashed for a packet, Icmp the echo replies, each of
--     which gets the address of its peer or is lost, in any order. A packet is its
--     bytes. The device's features, hash key and choice of a shard, the size of `packet::impl` and
--     whether a packet filter takes a packet are the record `IpEnv`, an argument.
--   Http (src/http/httpd.cc, src/http/common.cc, src/http/matcher.cc, include/nil/actor/http/common.hh,
--     matcher.hh and matchrules.hh). Url has percent decoding and query parameters, Match the matchers
--     and the rules, Routes (src/http/routes.cc) the table of urls and rules, Common the path
--     parameters and the methods.
--   Arp (include/nil/actor/network/arp.hh). The table of addresses, the lookups that wait for an answer,
--     their timeouts, and answers to requests. Addresses are numbers.
--   Prelude has the Boolean tests, lists on the native numbers, the Option monad and slices.
--
-- A result `none` is a failed assertion, an abort or an access outside an array, except where a
-- comment says that it is a result of the code. Integers are natural numbers with the wrap-around of
-- their width written out. The loop of `tcp_option::parse` has the number of bytes as fuel, since each
-- round moves on by a byte at least; the loop over query parameters has the length of the url, since
-- there are fewer parts between `&` than characters. The loops of a connection go over its queues,
-- those over waiting datagrams over the list of their ages. The loop of `ipv4::send` has the bytes to
-- send as fuel, since a turn sends one at least where the MTU leaves room.
--
-- Not modelled: deleters and the moves of packets, `get_isn` and the choice of a port, the polling of
-- connections, the checksums of sent segments, the printing and parsing of addresses, UDP, I/O, sockets, drivers, TLS, DNS, DHCP, RPC
-- and JSON, the parsers that Ragel generates and the metrics protocol.
pub mod Prelude
pub mod Packet
pub mod Http
pub mod Ip
pub mod Merger
pub mod Checksum
pub mod Tcp
pub mod Arp
