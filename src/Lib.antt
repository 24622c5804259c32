-- ===== src/Lib.antt =====
-- poly-xrr, the Go implementation (go/). xrr records the calls that a program makes to the outside
-- world and replays them: a session wraps an adapter; in record mode it saves each request and its
-- response in a cassette, in replay mode it answers from the cassette. A streamed interaction is a
-- log of sends, receives, a half-close and an end, with one position for each.
--
-- Which file models which part:
--   Stream      go/stream.go and go/stream_scrub.go: the types of a streamed pair (Model),
--               ValidateStreamPair (Validate), the frame scrub hook (Scrub), and the interface
--               StreamCassette of go/stream_cassette.go with the law that clients rely on (Cassette).
--   Recording   StreamRecording of go/stream_session.go: RecordSend, RecordRecv, RecordHalfClose and
--               Finish are record_send, record_recv, record_half_close and finish. A list of calls is
--               a Call list, run by record_calls.
--   Replay      StreamReplay of go/stream_session.go: Send, HalfClose and Recv are send, half_close
--               and recv. A client is a list of Act, run by play.
--   Session     FileSession: go/session.go and the opens of go/stream_session.go (Streams), the unary
--               path (Unary), go/cassette.go (Files), go/env.go (Env), and LoadStream and SaveStream of
--               go/stream_cassette.go (WireFormat for the stream half of a file, StreamFiles).
--   Base64      decodeStrictB64 of go/stream.go, on Go's encoding/base64.
--   Canonical   go/canonical.go.
--   Redact      go/redact.go.
--   Transport   go/adapters/grpctransport: header blocks of headers.go (Headers), the status text of
--               headers.go and replay.go (Status), message reassembly of demux.go with the message
--               writer of replay.go (Reassembly), the connection decoder of demux.go (Demux), the
--               stream tracker of record.go (Tracker), the replaying server of replay.go (Answers,
--               Server), and what these two share (Shape).
--   Grpc        go/adapters/grpc/stream.go: StreamClientInterceptor (Interceptor), and its
--               recordStream (Record) and replayStream (Replay), whose methods SendMsg, RecvMsg and
--               CloseSend are send_msg, recv_msg and close_send. A client's conversation is a list of
--               Exchange (Exchange, RoundTrip).
--   Cli         go/cmd/xrr: the layers of config_file.go (Config) and the command names of platform.go
--               (Commands).
--   Errors      the errors of all of these, and results. Common has the shared types and lemmas.
--
-- A byte string that the source tests with utf8.Valid, or that yaml.v3 prints, is tested by utf8_valid
-- (Common/Utf8); yaml.v3 prints a string that is no UTF-8 as a !!binary scalar.
--
-- State is passed explicitly: an operation takes the state before it and returns the state after it.
-- The mutexes of the source make each method one step, so an interleaving is a list of calls.
--
-- What is outside the repository is a parameter: a Digest stands for encoding/json and crypto/sha256,
-- an Outside for the file system, the YAML library, the environment and the regular expressions for
-- secret values, a Disk and a Yaml for the file system and the YAML library under streamed cassettes,
-- a Host for what the replaying server calls, a Grpc for protobuf and the statuses of grpc-go, a
-- System for the environment and the directories of go/env.go, a Machine for what the configuration
-- of the command line tool reads, and a list of frames for the HTTP/2 framer. A theorem names what
-- it needs of them among its hypotheses.
--
-- Numbers: a sequence number that is read from a cassette is an integer, which can be negative. The
-- counters of a session and of a recording are natural numbers without bound, where a Go int would
-- wrap after 2^63 events. A status code keeps its 32 bits. The loop of feed and the loop of
-- writeMessage run on fuel: each round shortens the buffer, so its length is enough. The loop of
-- deliver has one round for each recorded message and one for the end.
--
-- Not modelled: the texts of errors; text above ASCII in case folding and white space; the nil pair
-- that SaveStream refuses; the pipes and goroutines around the tracker, the preface and the HTTP/2
-- framing of the replaying server, and failures to write to its pipe; status codes of other Go types
-- than int; the unary part of the gRPC adapter; the adapters for exec, fs, http, redis and sql; the
-- rest of go/cmd/xrr, where toOpts and the processes are; the ports to other languages.
pub mod Base64
pub mod Canonical
pub mod Cli
pub mod Common
pub mod Errors
pub mod Grpc
pub mod Recording
pub mod Redact
pub mod Replay
pub mod Session
pub mod Stream
pub mod Transport
