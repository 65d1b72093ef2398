-- ===== src/Lib.antt =====
-- Verification of rabbit-digger, a proxy that routes TCP and UDP traffic through configurable nets.
--
-- The parts of the program and the files that model them (paths from the repository's root):
--
-- - CompactVecString: rd-interface/src/config/compact_vec_string.rs, a list of texts packed into one
--   buffer with an index of offsets. Texts are lists of bytes. A slice out of range is a value of
--   Base.Panic. `Represents` relates a buffer to the list of texts that it stands for.
-- - Address: rd-interface/src/address.rs, the parsing, printing and normalization of addresses. The
--   text form of an IP address is std's and a parameter (Address.Parse.IpText), ports are decimal
--   numbers below 2 ^ 16.
-- - SingleOrVec: rd-interface/src/config/single_or_vec.rs.
-- - Context: rd-interface/src/context.rs, what a connection carries along: a map of JSON values and
--   the list of nets it went through. serde_json is a parameter (Context.Json, Context.Field).
-- - ConnectionManager: src/rabbit_digger/connection_manager.rs and src/rabbit_digger/event.rs. Open
--   connections count bytes, report them as events at each heartbeat and when they are dropped, and
--   the manager applies the events to its state. Counters are 64-bit integers that wrap around, as
--   the atomic ones of the source. ConnectionManager.System is a step relation whose steps are the
--   operations of connections, which post events, and the delivery of one event to the manager.
-- - Rule: rd-std/src/rule, the rule net. Matchers come from the configuration (Rule.Matcher,
--   Rule.Merge, Rule.Items), look at a match context (Rule.MatchContext), and the first rule that matches gets
--   the connection (Rule.Net), through an LRU cache that is a parameter (Rule.Cache). CIDR blocks
--   and the country database are parameters, too (Rule.Matcher.Libraries).
-- - Net: the operations of a net, rd-interface/src/interface.rs. Nets are parameters of the model.
-- - Running: src/rabbit_digger/running.rs. RunningNet and RunningServerNet (Running.Nets) write their
--   names into the context, and the latter wraps what it gets into streams and sockets that count
--   their traffic for the connection manager (Running.Wrap). RunningServer (Running.Server) is a
--   step relation: one caller starts the server, one start at a time, other callers stop it, join it
--   and take its result at any time, and tasks end at any time. The lock on the state, which rules
--   out some of these orders, is left out, and so are starts that overlap.
-- - Peekable: rd-std/src/util/peekable_tcpstream.rs, over an inner stream that is a parameter
--   (Peekable.Source). The ring buffer of the source is a list, and where it wraps around is an
--   argument of a read.
-- - ReverseLookup: rd-std/src/sniffer/service.rs. The parser of DNS messages and the two LRU caches are
--   parameters; the walk along aliases has the source's limit of 16 steps.
-- - DnsSniffer: rd-std/src/sniffer/dns_sniffer.rs, the net over ReverseLookup that connects to names
--   in place of their addresses. Its sockets share the tables with it.
-- - ConnectTcp: rd-std/src/context/connect_tcp.rs, the copying between two streams, which are
--   parameters with laws (Base.Io.Stream). ConnectTcp is the loop of one direction,
--   ConnectTcp.Both the states of a direction and the poll of both directions.
-- - ConnectUdp: rd-std/src/context/connect_udp.rs, the copying of packets between a channel and a
--   socket. The two directions are one definition over the ends that packets come from and go to
--   (ConnectUdp.Ends), parameters with laws. The pool is a stack, its top the head of a list. The
--   inner loops have fuel of one more round than the queue may have packets.
-- - UdpConnector: rd-std/src/util/udp_connector.rs, a socket that binds when its first packet is sent.
--   The permits of its semaphore are a number, and each permit that a receive acquires takes one
--   from the budget that the runtime gives to a poll of the task. Rule.Udp is the connector that the rule net makes.
-- - Builtin: rd-std/src/builtin, the nets alias, combine, blackhole, noop, and resolve
--   (Builtin.Resolve), which looks names up in one net and tries their addresses in another.
-- - Socks5: rd-std/src/socks5/common.rs, the UDP packets of SOCKS5. The crate that reads and writes
--   addresses is a parameter (Socks5.AddressCodec), whose law is that what it writes is read back, of
--   an IPv6 address without flow information and scope.
-- - RabbitDigger: the building of nets in src/rabbit_digger.rs (RabbitDigger.Build), with the visitor of
--   rd-interface/src/registry.rs. JSON values and what the types of nets do with them are parameters.
--   The depth of the recursion of get_net is fuel; RabbitDigger.Weight is how much is left to build.
-- Base holds what the parts share: numbers and their tests, lists, association lists, texts, and
-- values of code that may panic.
--
-- Fuel: the iteration over a CompactVecString and the search for a matching domain run on fuel of
-- one more round than there are texts, after which the iterator has ended. The copy loop of ConnectTcp
-- has no bound in the source and runs on any fuel; the loop of a receive in UdpConnector runs on the
-- budget of the task.
--
-- Not modelled: the asynchronous runtime, sockets of the operating system, the parsing of
-- configuration by serde, and the libraries that the source calls, which are parameters.
pub mod Base
pub mod Builtin
pub mod CompactVecString
pub mod Address
pub mod ConnectionManager
pub mod Context
pub mod SingleOrVec
pub mod Net
pub mod Peekable
pub mod ConnectTcp
pub mod ConnectUdp
pub mod DnsSniffer
pub mod RabbitDigger
pub mod ReverseLookup
pub mod Rule
pub mod Running
pub mod Socks5
pub mod UdpConnector
