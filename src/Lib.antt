-- ===== src/Lib.antt =====
-- p4runtime-go-controller is a Go library for P4Runtime controllers: programs that fill the tables
-- of a switch over gRPC. This development models its core.
--
-- Parts, with the source each one models:
-- Common: the helpers that the parts share. Lists with native lengths, Boolean tests, integers,
--   powers of two, bitwise operations, texts as lists of bytes. Common/Errors has the sentinel
--   errors of errors/errors.go; an error keeps the sentinel that it wraps and a short text.
-- Codec (internal/codec/codec.go): the canonical byte strings of integers, LPM and ternary masks,
--   ranges, MAC addresses and hexadecimal texts. Codec/Value says what integer a byte string stands
--   for; the theorems compare every function with arithmetic on it.
-- Election (client/electionid.go): 128-bit election IDs as two uint64 halves.
-- Pipeline (pipeline/pipeline.go): the maps by name, alias and ID that `index` makes of a P4Info,
--   and the lookups in them. Pipeline/Resource has the definitions other than tables and actions.
-- Match (tableentry/matchvalue.go and `encodeField` of tableentry/builder.go): match values and
--   their encoding. Match/Admits says which keys of a packet a value asks for and which ones an
--   encoded field admits.
-- TableEntry (tableentry/builder.go): `BuildKey` and `Build`, over Pipeline, Match and Codec.
-- Write (errors/write.go, client/write.go): the Write RPC, its results per update, and the
--   sentinels that a failed write matches (Write/Matching), by its codes and the texts in its
--   message (Write/Mentions). The RPC is an argument.
-- PipelineConfig (client/pipeline.go, client/pipeline_error.go): SetPipeline with its fallback from
--   VERIFY_AND_COMMIT to RECONCILE_AND_COMMIT. PipelineConfig/Attempts is about its loop over the
--   actions, and PipelineConfig/Fallback about the whole. PipelineConfig/Message has the status
--   messages that say an action is unsupported or the pipeline is missing, and PipelineConfig/Texts
--   what the former ones say.
-- Read (client/write.go): the Read RPC, whose stream of answers is an argument. Read/Collect is
--   about when it returns.
-- Client (client/client.go, client/options.go, client/stream.go): a client is its options
--   (Client/Settings) and its supervisor (Stream). `Dial` and `BecomePrimary` wait in loops, whose
--   rounds are arguments (Client/Waiting); before a round of `Dial` the supervisor takes the steps
--   of Stream/Loop. Client/Dispatch has the handlers of stream messages, and
--   Client/Registered the registrations that a history leaves. Client/Security is about TLS.
-- Replication (pre/pre.go): multicast groups and clone sessions, over Client, Write and Read.
--   Replication/Carried says what an update tells of them, Replication/Valid which ones are sent.
-- Arrays (internal/resourceindex/index.go, counter/counter.go, meter/meter.go): indexes, and the
--   counters and meters that are read and written at them, over Client and Pipeline.
-- Register (register/numeric.go, register/headers.go, part of register/data.go): the bytes of bit<W>
--   and int<W> values, over Codec, and the headers, unions and stacks made of them.
-- PacketIo (packetio/packetio.go) and Digest (digest/digest.go): packet metadata by name and digests
--   by name, over Pipeline and Client.
-- Stream (internal/stream/supervisor.go): the supervisor of the StreamChannel. Stream has the
--   state and the operations under the lock or on the channels (`setState`, `Send`, `enqueue`,
--   `CloseGracefully`, `Close`, `failPending`). Stream/Loop has the goroutine (`run`, `arbitrate`,
--   `serve`, `finishStream`, `sleep`) as a machine: an action is what came out of one wait, or one
--   call by another goroutine up to its next wait, and the actions come in any order. `run` ends
--   in two steps: its deferred calls up to the drain of the channel, and the closing of `stopped`.
--   Stream/Backoff has `nextBackoff`. Stream/Invariant, Stream/Accounts, Stream/Kept, Stream/Stopped
--   and Stream/Pauses are about its histories.
--
-- Conventions. A byte is a number below 256 and a slice is a list; a Go `int`, `int32` or `int64` is
-- an integer; uint64 values are numbers below 2^64, and where a result can wrap, the wrap is written
-- out. Bit widths are below 2^63 - 8, where the sum in `byteLen` does not wrap; P4Info widths are
-- int32. All loops are structural recursions over lists, of inputs or of the
-- rounds that a wait goes through, so no fuel is needed. A Go map is a list of
-- bindings; where the order in which it is ranged over matters, the order is an argument. Go's
-- standard library is written out where the program uses it; gRPC, protobuf messages and the target
-- are parameters or data.
--
-- Not modelled: IPv4 and IPv6 (net/netip), the Must variants, logs, the jitter of the pauses
-- (floating point), the cause that errors.Is unwraps a WriteError to, message validation by
-- reflection (pipeline/message.go), the parsing of P4Info, register values of structured types (the rest of register/data.go) and the registers' RPCs, `Close`
-- of a client, the public names of the codec package, and the command line tool under cmd.
pub mod Common
pub mod Codec
pub mod Election
pub mod Pipeline
pub mod Match
pub mod TableEntry
pub mod Write
pub mod PipelineConfig
pub mod Stream
pub mod Read
pub mod Client
pub mod Replication
pub mod Arrays
pub mod Register
pub mod PacketIo
pub mod Digest
