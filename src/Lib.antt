-- ===== src/Lib.antt =====
-- The FIUDP sender: one burst of UDP packets per frame, with Reed-Solomon parity and authenticated
-- encryption, for e-ink displays. The development models the Rust crate, from the validated
-- configuration to the datagrams on the wire.
--
-- Parts and files (the paths are those of the repository):
-- - src/types.rs: Types. A module per newtype (SessionId, ShardIndex, DataShardCount,
--   ParityShardCount, RendezvousSecs) with `new`, `as_u16` or `as_u32`, `to_be_bytes`, `display`,
--   and `From` in both directions.
-- - src/protocol.rs: Protocol. Constants and offsets (Layout), `PacketBuilder` (Packet), a parser
--   by the table of SPEC.md §3.4 (Packet/Wire), the laws of `build_aad` and `write_packet`
--   (Packet/Write, Packet/RoundTrip), and `pad_to_shard_size` (Padding, Padding/Laws).
-- - src/error.rs: Error. The enum, its messages, and results that may be a panic.
-- - src/session.rs: Session. `SessionIdStore::next` in two halves, `propose` up to the write and
--   `persist`; single calls (Next), whole lives of a session file (History, Nonces), and processes
--   that share one (Rollback; Interleaved, with its steps in Steps, `persist` as a sequence of them
--   in Calls, and the range of the identifiers in Bounds).
-- - src/crypto.rs: Crypto. The encryptor over the cipher's crate (Cipher), `derive_nonce` (Nonce),
--   loading the key (Key).
-- - src/fec.rs: Fec. The engine over the erasure code's crate (Engine).
-- - src/sender.rs: Sender. `FiudpSender::send` in the parts of its body: splitting and parity
--   (Shards, Shards/Split), the packet loop (Seal, Seal/Receive), both together (Packets), the
--   chaos options (Chaos, Chaos/Losses), the sending loop (Transmit), the production transport
--   (Transport), the whole call when it succeeds (Burst), its checks and success (Outcome,
--   Success), what the erasure code refuses and takes (Limits, Capacity), panics (NoPanic), what an
--   observer reads off the wire (Heads), and what a receiver makes of a part of a burst (Entries,
--   Recovery).
-- - src/config.rs: Config. Arguments, the configuration and the input source (Types), validation
--   (FromArgs), the options with their defaults (CommandLine), the builder (Builder) and the
--   percentage (ParityRatio). FilePath has the paths.
-- - src/lib.rs, `run`: Run, with what a run does to files (Effects) and to the wire (Delivery,
--   Heads), a run on empty input (EmptyInput), the receiver's side of a run (Recovery), its panics
--   (NoPanic) and its success (Success), many runs under one session file (Nonces), the receiver's
--   side of those (Replay), and of a run that loses packets on purpose (Survival).
-- - src/main.rs: Main, the exit status and the message (Outcome, Status), the receiver's side of a
--   process that succeeds (Recovery), and a process that the system serves well (Delivery).
-- - examples/send_frame.rs: SendFrame, beside the command with the same settings.
-- - The unit tests of src/config.rs and src/protocol.rs: UnitTests, as Boolean functions.
-- - tests/network_footprint.rs: Footprint, one round of the test over any size and percentage.
-- - Os is the operating system: files, standard input, a socket, pauses, the generator's state.
--   What the system will answer to each call is part of the state, so a theorem over every state is
--   one over every failure. Io is the chain of calls that change a state and may fail.
-- - Slice has the slice operations with their panics; Base has lists over the native numbers,
--   machine words, Boolean tests and texts. Receiver is the receiver of SPEC.md §3.5 for a single
--   packet, Receiver/Reassembly for a burst, and Receiver/Replay for packets of several sessions;
--   the repository has no receiver.
--
-- How they interact: `run` loads the key, calls `next` on the session file, makes the socket and
-- calls `send`, which reads the frame, splits and pads it, has the engine fill the parity, seals
-- each shard with the nonce of its session and index and the header as additional data, applies the
-- chaos options and sends. State is passed on explicitly; each fallible call returns its result
-- beside the state.
--
-- Bounds: bytes, `u16` and `u32` are natural numbers with the range as a predicate, and casts are
-- written out (`% 2 ^ 16`). `usize` has 64 bits; sums and the saturating operations on it are
-- written out, and a vector is at most `isize::MAX` long, with room for one shard of padding. The
-- recursions are on a list or on a number of pieces; only `decimal` (Base/Text) has fuel, 20
-- digits, which is enough for any `usize`, and more changes nothing (`decimal_onto-enough`).
--
-- Parameters: the crates chacha20poly1305, reed-solomon-erasure and rand, each with its documented
-- behaviour as a named record of laws (IsChaCha, SealsShards, IsReedSolomon, IsGaloisEight,
-- IsRandom), and the receiver's decoder of the erasure code (IsDecoder). What clap makes of the
-- texts of a command line is the record Flags. A clone of the paths and the drop of a value have no
-- effect and are not written out; nor is the `debug_assert_eq!` on a shard's length, which a
-- release build leaves out.
--
-- Processes: Session/Interleaved/Steps has the calls of `next` by several processes, in any order
-- of their steps. After its read a process opens the file, which empties it, then puts its two
-- bytes at the start of whatever the file holds by then, at once or one by one, and returns; it may
-- die or fail before any of these. One flag says whether bytes may go in one by one: if they may,
-- the bytes of two processes can mix (Tests/Processes). In a single `next`, where the file has no
-- other writer, the same writes are the outcomes of Os: none, all, or a part of the bytes.
--
-- Not modelled: how clap takes the texts of the command line apart, which is not in the repository;
-- the benchmarks, which measure time; the table that the footprint test prints; the plotting script
-- and continuous integration.
pub mod Base
pub mod Error
pub mod Io
pub mod Slice
pub mod FilePath
pub mod Os
pub mod Session
pub mod Crypto
pub mod Fec
pub mod Receiver
pub mod Sender
pub mod Types
pub mod Protocol
pub mod Config
pub mod Run
pub mod Main
pub mod SendFrame
pub mod Footprint
pub mod UnitTests
pub mod Tests
