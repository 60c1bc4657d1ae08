-- ===== src/Lib.antt =====
-- A verification library for fastlive, an RTMP live streaming server in Go.
--
-- The program. A client connects (pkg/rtmp/server/server.go, server_conn.go), shakes hands
-- (pkg/rtmp/handshake) and then exchanges messages, which pkg/rtmp/connection cuts into chunks and
-- puts together again; pkg/rtmp/chunk holds the chunks' structs and encoders, pkg/rtmp/common the
-- bytes of integers. A publisher's audio and video messages become packets, whose headers pkg/av
-- decodes; its session (pkg/rtmp/server/session.go, broker.go) hands each packet to the players
-- (player.go), and each player sends it through its own connection. What a client wants it says in
-- commands, AMF values that server_conn.go reads and answers.
--
-- What models what:
--   Common          pkg/rtmp/common/common.go
--   Chunk           pkg/rtmp/chunk: the structs and NewStream; Chunk.Slice for byte slices with
--                   length and capacity, Chunk.Encode for the three Encode functions,
--                   Chunk.Message for message.go; Chunk.Bytes says what encoded headers look like
--   Connection      pkg/rtmp/connection/connection.go: the struct, Init, Read, Peek, Discard, Write,
--                   Flush; Connection.Send is SendIntegralMessage, Connection.Receive
--                   RecvIntegralMessage with the functions it calls, Connection.Handlers the rest
--   Av              pkg/av/packet.go, pkg/av/flv/tag.go and demuxer.go
--   Handshake       pkg/rtmp/handshake/handshake_server.go; Handshake.Serve is serverHandshke
--   Server.Amf      the values of the AMF library, and what the server uses of it
--   Server.Client   pkg/rtmp/server/utils.go
--   Server.Conn     pkg/rtmp/server/server_conn.go: the struct and the responses; Server.Conn.Commands
--                   handles commands and data, Server.Conn.Dispatch is onRecvIntegralMessage,
--                   Server.Conn.Cycle holds publishCycle and playCycle, Server.Conn.Serve the rest
--   Server.Options  pkg/rtmp/server/server.go: the defaults, and the connection of a socket
--   Server.Player   pkg/rtmp/server/player.go
--   Server.Session  pkg/rtmp/server/session.go
--   Server.Broker   pkg/rtmp/server/broker.go and checkOffline of session.go; the step relation of the
--                   registry is in Server.Broker.Steps; that of one player's queue of packets is in
--                   Server.Player.Queue, and that of its mutex in Server.Player.Mutex
--   Server.Table    sync.Map, and memory with addresses
--   Tests           the theorems at concrete states and messages
--   Base            what the others share: Boolean tests, lists, outcomes of Go code
--
-- How state is modelled. A struct is a record; a struct that embeds another has it as a field and
-- opens it. Functions on a Connection take and return it; one that can fail returns an Outcome: a
-- result, an error value, a panic, or `stuck`, which is no behaviour of Go but says that fuel ran
-- out. Numbers are natural numbers, with the wrap-around of uint32 and uint8 written out where the
-- code can reach it; a byte slice is a list of numbers. The bytes that the peer sends are one list,
-- behind which it has closed, and the socket takes a given number of bytes and then fails.
-- RecvIntegralMessage loops until a message is whole: it is run on as much fuel as the input has
-- bytes and one more, which is enough since each round consumes a byte at least; so are the loops of
-- publishCycle and recvChunkStream, whose rounds receive a message each. A connection's life ends in
-- an error, together with the broker as it then is, in a wait, or in the loops of a player.
--
-- What is not modelled, and why. Logging has no effect on the state. The pool of decode buffers
-- hands out scratch space that is overwritten before it is read. Header buffers come from one pool
-- of the whole server, whose order the code does not rely on: here each connection has a list of
-- them, whose first stands for any choice, and the Gets and Puts of other connections in between are
-- not modelled (a theorem that needs the buffers' sizes asks them of all of the list). AMF encoding
-- and decoding, HMAC-SHA256 and random bytes belong to other libraries and are arguments; floating
-- point numbers are bit patterns. The clock is an argument. Operations of the broker are single
-- steps, and nothing else changes it while one connection is served: two that overlap are not
-- modelled, nor is the goroutine that receives while a player is sent packets. Listening,
-- configuration files and the vendored libraries are input, output and other people's code; the
-- experiments under research are used by nothing.
pub mod Base
pub mod Common
pub mod Chunk
pub mod Connection
pub mod Av
pub mod Handshake
pub mod Server
pub mod Tests
