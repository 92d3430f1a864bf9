-- ===== src/Lib.antt =====
-- Verification of dummy-h3, an HTTP/3 client and server library over a QUIC transport (src/).
--
-- The program. src/protocol/frame.rs encodes HTTP/3 frames and parses them from a byte stream that
-- arrives in pieces (`FrameParser`). src/protocol/stream.rs keeps the state machine of each stream
-- (`StreamState`) and src/protocol/flow_control.rs the send and receive windows of a connection and
-- its streams (`FlowController`). A frame that the parser delivers is handed to `process_frame` of
-- its stream by `StreamManager` of src/protocol/stream.rs, which owns a flow controller; sending
-- reserves window first. src/transport/connection.rs is the connection (`QuicConnection`): it owns a
-- stream manager, sends and receives packets over `UdpSocket` of src/network/socket.rs, and is
-- started with the packet protection of src/crypto. src/transport/packet.rs puts packets and
-- acknowledgments on the wire and estimates round-trip times. src/error.rs holds the error types
-- they share.
--
-- The modules.
--   Prelude   tests, lists over the native numbers, bit operations as arithmetic, a `HashMap` with a
--             numeric key as an association list (`Table`).
--   Error     src/error.rs: the error enums, `Result` and `?`. A formatted text is its template with
--             the numbers put in.
--   Varint    `read_varint`, `write_varint`, `varint_size` of src/protocol/frame.rs. Bytes are
--             numbers; a cursor is the list of the bytes after its position.
--   Frame     the frames and their accessors; Codec the payloads both ways; Settings and Wire what
--             comes back; Size the announced size; Types the numbers of the types.
--   Parser    `FrameParser`: its loop with the arms `read_header` and `read_payload`; Header and
--             Bounds lemmas, Chunks for input in pieces, RoundTrip and Many for encoded frames, Total
--             for any input, Complete for `has_complete_frame`, Typed for what is delivered.
--   Flow      `FlowController`: a method returns the controller that it leaves and its result.
--             Half computes the `f32` threshold; Windows, Receive, Resize and Ledger are its theorems.
--   Stream    `StreamState`: Calls its operations as steps; Machine and Windows are its theorems.
--   Manager   `StreamManager`: the table of streams, identifiers, acceptance; Windows its calls on the
--             flow controller, Schedule the priorities, Cleanup what is removed and counted. Calls
--             are its operations as steps; Ids, Create, Accept, Streams, Feed, Send, Removal,
--             Idle, Keyed, Order and Limit are its theorems.
--   Packet    packet headers and packets of src/transport/packet.rs; Ack its ACK frames; RoundTrip
--             and AckTrip what comes back; Tracker the packets that wait and the frames it makes;
--             Sorted and Runs what these acknowledge; Bag the numbers without their order, and
--             Arrival that it does not matter; Rtt the estimator and the loss detector.
--             `bytes::Buf` and `BufMut` are the interface `BufLib`.
--   Crypto    keys and AEAD of src/crypto/keys.rs over the interface `RingLib`; Tls src/crypto/tls.rs;
--             Protection src/crypto/protection.rs; Nonce, Lost, Header, Start, RoundTrip and Cut are
--             their theorems.
--   Socket    src/network/socket.rs: Address and Wasi what it is made of; Dns src/network/dns.rs.
--   Connection  `QuicConnection`: Create its making, Incoming its handlers, Calls its streams,
--             datagrams and maintenance.
--             Steps the calls as a step relation, and the single changes that they are made of;
--             Changes and Refine take the calls apart; Machine, Invariants, Start and WasiSocket are
--             its theorems; Sent and Network are about a client and a server over one network;
--             Endpoint src/transport/endpoint.rs.
--   Config    src/config.rs: defaults and builders.
--   Http      bodies, responses and requests of src/protocol/response.rs and request.rs, over the
--             interface `HttpLib`; Build their operations, Headers a theorem; Chunks `ResponseStream` of
--             src/client/mod.rs and reading a body to its end.
--   Client    `H3Client` of src/client/mod.rs, with the task that it spawns and the channels between
--             them (`Session`); Connect its making; Machine its calls as steps; History what they
--             keep; Answers, Returns and Close are its theorems.
--   Server    `H3Server` and the handlers of src/server/mod.rs.
--   Tests     runs at concrete inputs; Conformance the unit tests of flow_control.rs, stream.rs,
--             frame.rs and packet.rs as statements that the model meets.
--
-- How the code is read. `u64` counters wrap at 2 ^ 64 and `usize` has 64 bits. A time is a number,
-- and `Instant::now()` an argument. `http::HeaderMap` is a type of its own with the operations of
-- `Frame.HeaderLib`, whose one law says that an empty map yields no entries. The order in which a
-- `HashMap` is iterated is the order of its list, and the theorems hold for every list.
--
-- Fuel. `settings_loop` runs on the length of the payload, and each round reads a byte at least.
-- `frames_loop` runs on the number of bytes plus two, and each frame but the first takes two bytes.
-- Running out is the error `out_of_fuel`, which the source never makes; Parser.Total is about it.
-- `collect_chunks` runs on the number of chunks and one; running out is `none`.
--
-- The outside. What the operating system returns is an argument of a call, with the bytes that it
-- writes; a slice out of its range is the result `panic`. `ring` is the interface `RingLib`, whose
-- laws are the length of what HKDF fills, the length of an AES-128-GCM key, and that a sealed text is
-- opened by the same key, nonce and additional data. What `rustls` builds is a type of its own. The
-- field `outbox` of a connection is added: it keeps the packets that the socket took.
--
-- Tasks. The client's task makes one step of its loop at a time (`round`). How many it makes while a
-- call waits is an argument of the call, its `Schedule`; a call that has not got what it waits for is
-- `waiting`, as when it is given up there. A channel is the list of the messages in it.
--
-- Not modelled: src/main.rs, a demo that prints, and src/lib.rs, which declares modules; the
-- certificate verifiers of src/crypto/tls.rs, which call rustls alone; the texts of `Display` and
-- `Debug`. The server has no theorem of its own: it binds no socket and serves nothing.
pub mod Prelude
pub mod Error
pub mod Varint
pub mod Frame
pub mod Parser
pub mod Flow
pub mod Stream
pub mod Manager
pub mod Packet
pub mod Crypto
pub mod Socket
pub mod Connection
pub mod Config
pub mod Http
pub mod Client
pub mod Server
mod Tests
mod Conformance
