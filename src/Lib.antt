-- ===== src/Lib.antt =====
-- A model of msgsrvd, a message server that keeps its clients' records in a write-ahead log.
--
-- The program. A client's bytes reach a connection buffer, whose parser (src/proto) cuts them into
-- frames and answers what it cannot trust. The records of the frames go to the log (src/wal): it
-- seals each with a checksum, appends it to the active segment, rolls over to a new segment when one
-- is full, flushes in batches, and reads every segment back when it opens. The server rebuilds
-- its table of client sessions (src/server) from the records of that scan. The event loop
-- (src/server/loop.c) carries each frame to its handler: a write is appended, acknowledged as its
-- flags ask, sent on to the subscribers and to the replicas; a replica takes the leader's records
-- into its own log and reports what it holds. The log and the loop call the kernel through src/sys,
-- and all parts share src/core: bytes, checksum and error frames.
--
-- The files, each after the source it models.
--   Core.Crc32c     src/core/crc32c.c: crc32c, with the machine's crc32 instruction as a parameter
--   Core.Mem        src/core/mem.h: the byte loops; mem_move is mem_copy within one buffer
--   Core.Err        src/core/err.h: the stack of error frames, result_t
--   Core.Fmt        src/core/fmt.h: text out of numbers
--   Proto.Msg       src/proto/msg.h: header and constants (Proto.Op, Proto.Refusal, Proto.Flag)
--   Proto.Msg.Payload  src/proto/msg.h: the payload of each operation, its codec and its checks
--   Proto.Conn      src/proto/conn.h, conn.c: conn_t and its operations
--   Sys.Os          src/sys/os.h: the file calls, with the kernel as a parameter
--   Sys.Net         src/sys/os.h: sockets, readiness, time and randomness, with these calls as a
--                   parameter beside the kernel
--   Wal.Record      src/wal/record.h, record.c: wal_rec_t, encoder, decoder, verifier
--   Wal.Index       src/wal/index.h, index.c: where each key lives in the log
--   Wal.Segment     src/wal/segment.h, segment.c: one file of records and its recovery
--   Wal.Log         src/wal/wal.h, wal.c: table of segments, append, rollover, retention
--   Server.Session  src/server/session.h, session.c: what is remembered of each client session
--   Wal.Cursor      src/wal/wal.h, wal.c: readings of the log: seeking, closing, and in Wal.Cursor.Read
--                   reading on, segment after segment
--   Server.Loop     src/server/loop.h: the state of the event loop, loop_t and what it holds
--   Server.Loop.*   src/server/loop.c, by what the functions serve: Reply (staged answers), Acks (owed
--                   acknowledgements), Retain (retention), Slots (slots taken and given up, the clock),
--                   Clients (HELLO and WRITE), Subs (READ, SUBSCRIBE and the pushing of records),
--                   Replicas (REPL_START, REPL_ACK and the streams to replicas), Follower (the stream from the
--                   leader), Frames (which frame goes to which handler),
--                   Events (what a ready connection, timer or signal lets the loop do, and the arm
--                   phase), Dial (the same for the stream from the leader), Setup (start and shutdown)
--   Server.Main     src/server/main.c: the reading of numbers and addresses
-- Below each stand the modules for what is proved of it, and Examples with concrete inputs. An
-- operation has the name of its C function without the prefix wal_ where the module says it.
--
-- How the loop's state corresponds. loop_t is Loop: the array of slots beside a Node, which holds the
-- rest, so that a handler takes one slot, the node or both. The fields that C prefixes repl_, retain_
-- and the counters are grouped as Stream, Retention and Counters. What a slot has staged is the first
-- send_len bytes of its buffer. The state of the kernel is the node's world. A handler with an err_t
-- of its own calls through `fresh`, and what is scratch memory in C is written before it is read,
-- and so is handed to each handler anew.
--
-- How state is modelled. A struct is a record, and an operation takes it and returns the new one with
-- its result. A buffer is the list of its bytes. uint64_t arithmetic wraps (% 2 ^ 64); offsets and
-- capacities are naturals. The kernel is a record of calls on a world of files, of which a proof
-- knows only what it has as a hypothesis: IsReader says of pread(2) what its manual says.
--
-- Fuel. The parser has as many turns as the caller's array has places, as in C. A full read or write
-- has a round for each byte, since a round that moves none ends it. A block walk has a turn for each
-- byte of the block and a scan a round for each byte of the segment, since each takes a record.
-- A push to a subscriber and a walk of what a cursor read have a round for each byte read.
-- The formatter has the 20 rounds for which C has room, as a 64-bit number has no more digits.
--
-- Not modelled. The tick, which puts the loop's phases in order, scrapes and metrics, the
-- opening of the log over all its segments, the arena, the options and the start-up of
-- the process, and the self checks, which are tests.
pub mod Prelude
pub mod Core
pub mod Proto
pub mod Sys
pub mod Wal
pub mod Server
