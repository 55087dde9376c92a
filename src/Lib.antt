-- ===== src/Lib.antt =====
-- scamp: a client and service library for SCAMP microservices, in Rust.
--
-- A service announces its actions; a requester looks an action up in the registry of announcements,
-- opens a connection to the service (beepish over TLS) and sends a request, which is a message: a
-- HEADER packet, DATA packets and an EOF packet. The service's side of the connection puts the packets
-- together, checks the ticket that the request has, calls the handler and sends a reply as a message;
-- the client's reader puts that together and hands it to the request that waits. Each side
-- acknowledges the DATA packets it takes, and the sender of a request stops while too much is under way.
--
-- The files:
--   Common, Strings, Json: Boolean tests, lists, maps and machine words; the parts of Rust's strings
--     and numbers that the code uses; the values of serde_json.
--   Proto/Header: scamp/src/transport/beepish/proto/header.rs. Proto/Packet: packet.rs (Write is
--     Packet::write, Parse is Packet::parse; Frame describes a packet at the front of a buffer).
--     Proto/Message: the packets of a message, as send_request and send_reply write them.
--   Stream: the loop that reader_task (client/reader.rs) and handle_connection
--     (service/server_connection.rs) share, over the function that routes a packet.
--   Server: service/handler.rs, server_connection.rs (Routing, Dispatch) and server_reply.rs (Reply).
--   Client: the state of ConnectionHandle (client/connection.rs). Client/Reader: client/reader.rs.
--     Client/Sender: send_request of connection.rs, cut at its awaits; an Event is what can happen next
--     on a connection, and `steps` runs any sequence of them.
--     Client/Pool: get_connection and connect of connection.rs.
--   Server/Announce: service/announce.rs (Actions: the actions by namespace; Rle: run-length encoding;
--     Wrap: lines of base64; Classes, FlagText, Heard and Read are about what a listener makes of it).
--     Server/Listener: service/listener.rs.
--   Auth: auth/ticket.rs, authz.rs and authorized_services.rs (Services/File is its file).
--   Discovery/Announcement: the types of discovery/service_info/mod.rs and packet.rs; Address: the
--     address in a URI. Discovery/Parse: service_info/parse.rs (Columns: run-length encoded columns;
--     Flags; V3 and V4: the two kinds of actions). Discovery/Packet: packet.rs, and process_packet of
--     observer.rs (Sections, Signature and Sent: on what the announcer builds).
--     Discovery/Cache: cache_file.rs. Discovery/Registry and Discovery/Reload:
--     service_registry.rs. Requester: requester.rs.
--   Config: config.rs. BusInfo: bus_info.rs. Crypto: crypto.rs. RpcSupport: rpc_support.rs.
--   Tests: the inputs on which the theorems are applied.
--
-- State is passed on explicitly: a function takes the record of a connection and gives the next one.
-- A task that can wait is cut where it waits. Numbers are natural numbers; u64 and usize wrap at 2^64
-- where the code adds, and an i64 is its bit pattern. `packets` has the number of bytes in the buffer
-- as fuel, and each packet takes seven bytes at least; `chunks` has the length of the body. `rle_rounds`
-- has the number of items, and a round takes one at least; `next_from` and `items_from` have one more
-- than the bytes and reads that are left, and every round takes one of these. A HashMap is an
-- association list; so is a BTreeMap, sorted by its keys in Config and in the announcer's classes, and
-- for the registry sorted where it is iterated over. The reads of the cache file are finitely many, and
-- behind them the file ends or every read fails; a file that gives bytes for ever is left out.
--
-- Parameters, for what is not in this repository: the printer and parser of JSON (Codec, JsonText),
-- `str::to_lowercase`, openssl and base64 (Crypto, Openssl, Crates), zlib, the regex crate (a pattern
-- is a test), files and their times (Files), the network (Network), f64 and the
-- signature check of announcements (Discovery.Registry.Outside), the clock, random numbers, and what
-- the writer of a service's connection accepts (Writer). An application's handler is a function from
-- requests to replies.
--
-- Not modelled: TLS, sockets and timers, the accept loop, the writer task, the loops that announce and
-- observe, the choice of the configuration file and the list of interfaces, which are input and output;
-- the macro, the programs and the mocks.
pub mod Common
pub mod Strings
pub mod Json
pub mod Proto
pub mod Stream
pub mod Server
pub mod Client
pub mod Auth
pub mod Discovery
pub mod Requester
pub mod Tests
pub mod Config
pub mod Crypto
pub mod BusInfo
pub mod RpcSupport
