-- ===== src/Proto/Conn/Examples.antt =====
-- A client connection that receives its HELLO in two pieces.
use msgsrvd.Prelude.{ℕ, ◌<◌, ◌≡◌, refl, false, List, [], ◌∷◌, ◌++◌, arith, take, replicate}
use msgsrvd.Core.Mem.{mem_copy, mem_move}
use msgsrvd.Proto.Op
use msgsrvd.Proto.Msg.{Header, read_header, msg_magic}
use msgsrvd.Proto.Conn.{
  Conn, client, conn_init, conn_compact, conn_recv_append, conn_recv_space, conn_recv_commit,
  conn_feed, feed_loop, refusal,
}
use msgsrvd.Proto.Conn.Events.{Event, events}
use msgsrvd.Proto.Conn.Buffer.{
  IsConn, IsReceived, IsAppended, filled, conn_init-IsConn, conn_recv_append-IsReceived,
  conn_recv_commit-IsReceived,
}
use msgsrvd.Proto.Conn.Stream.{Run, start, append, feed, IsStream, Run-IsStream}
use msgsrvd.Proto.Conn.Progress.{Incomplete, conn_feed-Incomplete, conn_feed_progress}

abbrev hello : Header
hello = record {
  magic = msg_magic;
  version = 2;
  flags = 0;
  op = Op.hello;
  record_type = 0;
  payload_len = 16;
  partition_key = 0;
  sequence = 0;
}

-- Its 48 bytes, cut after 20.
abbrev first : List ℕ
first =
    0x56 ∷ 0x47 ∷ 0x53 ∷ 0x4d ∷ 2 ∷ 0 ∷ 0 ∷ 0 ∷ 10 ∷ 0 ∷ 0 ∷ 0 ∷ 16 ∷ 0 ∷ 0 ∷ 0 ∷ 0 ∷ 0 ∷ 0 ∷ 0 ∷ []

abbrev second : List ℕ
second = replicate 28 0

abbrev blank : List ℕ
blank = replicate 64 0

abbrev c0 : Conn
c0 = conn_init blank 64 client

abbrev c1 : Conn
c1 = (conn_recv_append c0 first 20).conn

abbrev c2 : Conn
c2 = (conn_feed c1 4).conn

abbrev c3 : Conn
c3 = (conn_recv_append c2 second 28).conn

abbrev bytes1 : List ℕ
bytes1 = take (conn_recv_append c0 first 20).taken first

abbrev bytes3 : List ℕ
bytes3 = bytes1 ++ take (conn_recv_append c2 second 28).taken second

abbrev events2 : List Event
events2 = events c1.buf (conn_feed c1 4).actions

abbrev events4 : List Event
events4 = events2 ++ events c3.buf (conn_feed c3 4).actions

history : Run blank 64 client (conn_feed c3 4).conn bytes3 events4
history = feed 4 (
    append second 28 (omega arith) (omega arith)
      (feed 4 (append first 20 (omega arith) (omega arith) start)))

Run-IsStream_example : IsStream 64 client (conn_feed c3 4).conn bytes3 events4
Run-IsStream_example = Run-IsStream (omega arith) (omega arith) refl history

-- The one frame is delivered with its payload, and nothing before all of it is there.
delivered : (events2 ≡ []) × (events4 ≡ (hello, replicate 16 0) ∷ [])
unfolding conn_init conn_recv_append conn_feed conn_compact feed_loop refusal read_header mem_copy
    mem_move
delivered = (refl, refl)

c0-IsConn : IsConn c0
c0-IsConn = conn_init-IsConn blank 64 client refl

-- Twenty bytes received, the first four of them parsed.
abbrev part_read : Conn
part_read = record {
  buf = first ++ replicate 44 0;
  buf_cap = 64;
  buf_len = 20;
  buf_off = 4;
  closed = false;
  mode = client;
  opened = false;
}

part_read-IsConn : IsConn part_read
part_read-IsConn = record { off_le = omega arith; len_le = omega arith; size = refl }

conn_recv_append-IsReceived_example :
    IsReceived part_read
      (conn_recv_append part_read second 28).conn
      (take (conn_recv_append part_read second 28).taken second)
    × IsAppended part_read 28 (conn_recv_append part_read second 28)
conn_recv_append-IsReceived_example =
    conn_recv_append-IsReceived part_read second 28 part_read-IsConn (omega arith)

conn_recv_commit-IsReceived_example :
    IsReceived c0
      (conn_recv_commit (filled c0 first) 20).conn
      (take (conn_recv_commit (filled c0 first) 20).taken first)
    × ((conn_recv_commit (filled c0 first) 20).taken ≡ 20)
unfolding conn_init
conn_recv_commit-IsReceived_example = conn_recv_commit-IsReceived c0 first c0-IsConn (omega arith)

-- A full buffer: 24 bytes that are parsed, and the first 40 of the HELLO's 48.
abbrev full_buffer : Conn
full_buffer = record {
  buf = replicate 24 0 ++ (first ++ replicate 20 0);
  buf_cap = 64;
  buf_len = 64;
  buf_off = 24;
  closed = false;
  mode = client;
  opened = false;
}

full_buffer-IsConn : IsConn full_buffer
full_buffer-IsConn = record { off_le = omega arith; len_le = omega arith; size = refl }

conn_feed-Incomplete_example :
    Incomplete (conn_feed full_buffer 4).conn (conn_feed full_buffer 4).conn.buf_off
unfolding conn_feed feed_loop refusal read_header
conn_feed-Incomplete_example = conn_feed-Incomplete full_buffer 4 refl (omega arith) refl

conn_feed_progress_example : 0 < conn_recv_space (conn_compact (conn_feed full_buffer 4).conn)
unfolding conn_feed feed_loop refusal read_header
conn_feed_progress_example =
    conn_feed_progress full_buffer 4 full_buffer-IsConn (omega arith) (omega arith) refl
      (omega arith) refl
