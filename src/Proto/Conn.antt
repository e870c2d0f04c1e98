-- ===== src/Proto/Conn.antt =====
-- src/proto/conn.h and conn.c: a connection's receive buffer and its framing.
-- The buffer is all of its memory, `buf_cap` bytes; a payload pointer into it is an offset.
-- A count that the source takes as int32_t and returns at once for when it is not positive is a
-- natural number here, with 0 for all of those.
pub mod Events
pub mod Buffer
pub mod Feed
pub mod Stream
pub mod Progress
pub mod Examples
use msgsrvd.Prelude.{
  ℕ, zero, suc, ◌+◌, ◌-◌, ◌^◌, Bool, true, false, not, ◌&&◌, ◌||◌, Option, none, some, List, [],
  ◌∷◌, ltb, ◌==◌, if◌then◌else◌, min, drop, u32,
}
use msgsrvd.Core.Mem.{mem_copy, mem_move}
use msgsrvd.Proto.Op
use msgsrvd.Proto.Refusal
use msgsrvd.Proto.Msg.{
  Header, read_header, msg_magic, msg_version, msg_version_min, msg_header_size, msg_max_payload,
}

-- CONN_MODE_CLIENT and CONN_MODE_INTERNAL.
pub data Mode : Type 0 where
  client internal : Mode

pub record Conn : Type 0 where
  pub buf : List ℕ
  pub buf_cap : ℕ
  pub buf_len : ℕ
  pub buf_off : ℕ
  pub closed : Bool
  pub mode : Mode
  pub opened : Bool

-- A frame's payload is an offset into the buffer, or null where it is empty.
pub data Action : Type 0 where
  frame : Header → Option ℕ → ℕ → Action
  reply_err : ℕ → ℕ → Action
  close : Action

pub conn_init : List ℕ → ℕ → Mode → Conn
conn_init buf buf_cap mode = record {
  buf = buf;
  buf_cap = buf_cap;
  buf_len = 0;
  buf_off = 0;
  closed = false;
  mode = mode;
  opened = false;
}

pub conn_compact : Conn → Conn
conn_compact c =
    if c.buf_off == 0
    then c
    else (let tail = c.buf_len - c.buf_off in
        record c {
          buf = if ltb 0 tail then mem_move c.buf 0 c.buf_off tail else c.buf;
          buf_len = tail;
          buf_off = 0;
        })

-- The connection after a call, and how many bytes it took.
pub record Taken : Type 0 where
  pub conn : Conn
  pub taken : ℕ

append_to : Conn → List ℕ → ℕ → Taken
append_to c src n =
    let take = min n (c.buf_cap - c.buf_len) in
    if take == 0 then record { conn = c; taken = 0 } else record {
      conn = record c { buf = mem_copy c.buf c.buf_len src take; buf_len = c.buf_len + take };
      taken = take;
    }

pub conn_recv_append : Conn → List ℕ → ℕ → Taken
unfolding append_to
conn_recv_append c src n =
    if c.closed || n == 0 then record { conn = c; taken = 0 } else append_to (conn_compact c) src n

pub conn_recv_space : Conn → ℕ
conn_recv_space c = c.buf_cap - c.buf_len

-- The offset of the free space in the buffer.
pub conn_recv_ptr : Conn → ℕ
conn_recv_ptr c = c.buf_len

pub conn_recv_commit : Conn → ℕ → Taken
conn_recv_commit c n =
    if c.closed || n == 0
    then record { conn = c; taken = 0 }
    else (let k = min n (c.buf_cap - c.buf_len) in
        record { conn = record c { buf_len = c.buf_len + k }; taken = k })

-- The actions of a fatal error, as far as there is room for them: an ERR and a close.
pub fatal_actions : ℕ → ℕ → ℕ → List Action
fatal_actions zero code echo_seq = []
fatal_actions (suc zero) code echo_seq = reply_err code echo_seq ∷ []
fatal_actions (suc (suc room)) code echo_seq = reply_err code echo_seq ∷ close ∷ []

-- HELLO and REPL_START open a connection.
abbrev pub opens : Header → Bool
opens h = h.op == Op.hello || h.op == Op.repl_start

-- On a client connection: an opening frame that is not the first, or another before it.
abbrev pub out_of_order : Mode → Bool → Header → Bool
out_of_order internal opened h = false
out_of_order client opened h = (opens h && opened) || (not (opens h) && not opened)

-- The checks of a header in their order: the code and the sequence to echo, or none.
pub refusal : Conn → Header → Option (ℕ × ℕ)
refusal c h =
    if not (h.magic == msg_magic)
    then some (Refusal.bad_magic, 0)
    else if ltb h.version msg_version_min || ltb msg_version h.version
    then some (Refusal.bad_version, h.sequence)
    else if ltb h.op Op.lowest || ltb Op.highest h.op
    then some (Refusal.bad_op, h.sequence)
    else if ltb msg_max_payload h.payload_len
        || ltb (u32 (c.buf_cap + 2 ^ 32 - msg_header_size)) h.payload_len
    then some (Refusal.payload_too_big, h.sequence)
    else if out_of_order c.mode c.opened h
    then some (Refusal.no_session, h.sequence)
    else none

-- The result of the parse loop: the connection, the actions and the cursor.
pub record Fed : Type 0 where
  pub conn : Conn
  pub actions : List Action
  pub cursor : ℕ

abbrev stop : Conn → ℕ → Fed
stop c cursor = record { conn = c; actions = []; cursor = cursor }

-- A frame of the buffer at the cursor.
abbrev pub frame_at : Header → ℕ → Action
frame_at h cursor =
    frame h (if ltb 0 h.payload_len then some (cursor + msg_header_size) else none) h.payload_len

abbrev open_by : Header → Conn → Conn
open_by h c = record c { opened = if opens h then true else c.opened }

abbrev add_action : Action → Fed → Fed
add_action a f = record f { actions = a ∷ f.actions }

-- The parse loop, with `room` actions still free in the caller's array.
pub feed_loop : ℕ → Conn → ℕ → Fed
feed_loop zero c cursor = stop c cursor
feed_loop (suc room) c cursor =
    let h = read_header (drop cursor c.buf) in
    let total = msg_header_size + h.payload_len in
    elim (ltb (c.buf_len - cursor) msg_header_size) [
      | true ↦ stop c cursor
      | false ↦ elim (refusal c h) [
        | some (code, echo_seq) ↦ record {
          conn = record c { closed = true };
          actions = fatal_actions (suc room) code echo_seq;
          cursor = c.buf_len;
        }
        | none ↦ elim (ltb (c.buf_len - cursor) total) [
          | true ↦ stop c cursor
          | false ↦ add_action (frame_at h cursor) (feed_loop room (open_by h c) (cursor + total))
        ]
      ]
    ]

-- The connection after a call, and the actions it wrote.
pub record Drained : Type 0 where
  pub conn : Conn
  pub actions : List Action

pub conn_feed : Conn → ℕ → Drained
conn_feed c out_cap =
    if c.closed || out_cap == 0
    then record { conn = c; actions = [] }
    else (let f = feed_loop out_cap c c.buf_off in
        record { conn = record f.conn { buf_off = f.cursor }; actions = f.actions })
