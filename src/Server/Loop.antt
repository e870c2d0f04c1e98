-- ===== src/Server/Loop.antt =====
-- src/server/loop.h: the state of the event loop.
-- A buffer with a length of its bytes in use is the list of those bytes. The connection slots stand
-- beside the rest of the loop's state, so that a handler takes the two apart; the world of the
-- system calls is part of the state.
pub mod Reply
pub mod Acks
pub mod Retain
pub mod Slots
pub mod Clients
pub mod Subs
pub mod Replicas
pub mod Follower
pub mod Frames
pub mod Events
pub mod Dial
pub mod Setup
pub mod Examples
use msgsrvd.Prelude.{ℕ, ◌*◌, Bool, true, false, Option, none, List, [], ℤ, pos, negsuc}
use msgsrvd.Core.Crc32c.{CrcUnit}
use msgsrvd.Core.Err.{err_init}
use msgsrvd.Sys.Os.{Kernel, Os}
use msgsrvd.Sys.Net.{Net, SockAddr}
use msgsrvd.Proto.Conn.{Conn, client, conn_init}
use msgsrvd.Wal.Log.{Wal}
use msgsrvd.Wal.Cursor.{Cursor, cursor_init}
use msgsrvd.Server.Session.{Table}

abbrev pub loop_max_conns : ℕ
loop_max_conns = 64

abbrev pub loop_recv_cap : ℕ
loop_recv_cap = 8192

abbrev pub loop_send_cap : ℕ
loop_send_cap = 8192

abbrev pub loop_max_replicas : ℕ
loop_max_replicas = 2

abbrev pub loop_repl_cap : ℕ
loop_repl_cap = 16384

abbrev pub loop_tick_ns : ℕ
loop_tick_ns = 100 * 1000 * 1000

abbrev pub loop_repl_deadline_ticks : ℕ
loop_repl_deadline_ticks = 10

abbrev pub loop_redial_ticks : ℕ
loop_redial_ticks = 5

abbrev pub loop_sub_deadline_ticks : ℕ
loop_sub_deadline_ticks = 5

abbrev pub loop_max_scrapes : ℕ
loop_max_scrapes = 4

abbrev pub loop_scrape_cap : ℕ
loop_scrape_cap = 4096

abbrev pub loop_metrics_cap : ℕ
loop_metrics_cap = 16384

abbrev pub loop_fsync_buckets : ℕ
loop_fsync_buckets = 7

-- The positions of the refusal counters.
abbrev pub refused_not_leader : ℕ
refused_not_leader = 0

abbrev pub refused_no_replicas : ℕ
refused_no_replicas = 1

abbrev pub refused_behind : ℕ
refused_behind = 2

abbrev pub refused_no_history : ℕ
refused_no_history = 3

abbrev pub refused_storage : ℕ
refused_storage = 4

abbrev pub refused_other : ℕ
refused_other = 5

abbrev pub refused_kinds : ℕ
refused_kinds = 6

-- An acknowledgement owed to a client.
pub record Ack : Type 0 where
  pub client_seq : ℕ
  pub wal_seq : ℕ
  pub deadline : ℕ
  pub flags : ℕ
  pub due : Bool
  pub degradable : Bool

-- What a connection follows; `active`, `waiting` and `once` tell which kind.
pub record Sub : Type 0 where
  pub cursor : Cursor
  pub key : ℕ
  pub min_seq : ℕ
  pub deadline : ℕ
  pub until : ℕ
  pub active : Bool
  pub waiting : Bool
  pub all_keys : Bool
  pub once : Bool

-- A connection slot; `staged` is what the send buffer holds, and `replica` is -1 for a client.
pub record ConnSlot : Type 0 where
  pub conn : Conn
  pub fd : ℤ
  pub staged : List ℕ
  pub send_cap : ℕ
  pub replica : ℤ
  pub session : ℕ
  pub ack_local : Ack
  pub ack_repl : Ack
  pub sub : Sub
  pub in_use : Bool
  pub want_out : Bool
  pub closing : Bool

-- A scrape: the request's bytes, the response, and how many bytes of it are gone.
pub record Scrape : Type 0 where
  pub fd : ℤ
  pub request : List ℕ
  pub response : List ℕ
  pub sent : ℕ
  pub answering : Bool
  pub opened_ns : ℕ

-- What the leader keeps of one replica.
pub record Peer : Type 0 where
  pub live : Bool
  pub durable : ℕ
  pub cursor : Cursor
  pub ack_ns : ℕ

-- The machine under the loop.
pub record Machine : Type 1 where
  pub kernel : Kernel
  pub crc : CrcUnit
  pub net : Net kernel

-- The follower's one stream from the leader; `acked` is the sequence last reported on it.
pub record Stream : Type 0 where
  pub connecting : Bool
  pub want_out : Bool
  pub closing : Bool
  pub fd : ℤ
  pub staged : List ℕ
  pub next_dial : ℕ
  pub conn : Conn
  pub acked : ℕ
  pub last_err : ℕ

pub record Retention : Type 0 where
  pub segments : ℕ
  pub replicas_want : ℕ
  pub floor : ℕ
  pub seen_segs : ℕ
  pub failed : Bool

pub record Counters : Type 0 where
  pub accepted : ℕ
  pub closed : ℕ
  pub writes : ℕ
  pub dedup_hits : ℕ
  pub flushes : ℕ
  pub repl_records : ℕ
  pub repl_degraded : ℕ
  pub notified : ℕ
  pub retain_removed : ℕ
  pub retain_errors : ℕ
  pub scrapes_served : ℕ
  pub scrapes_refused : ℕ
  pub acks_append : ℕ
  pub acks_sync : ℕ
  pub acks_repl : ℕ
  pub refused : List ℕ
  pub fsync_ns_total : ℕ
  pub fsync_bucket : List ℕ

-- The loop without its slots. The fields of the stream, of retention and of the counters are grouped.
pub record Node (m : Machine) : Type 0 where
  pub world : m.kernel.World
  pub wal : Wal
  pub sessions : Table
  pub epoll_fd : ℤ
  pub listen_fd : ℤ
  pub signal_fd : ℤ
  pub timer_fd : ℤ
  pub metrics_fd : ℤ
  pub port : ℕ
  pub metrics_port : ℕ
  pub stop : Bool
  pub wal_dirty : Bool
  pub progress : Bool
  pub is_follower : Bool
  pub tick : ℕ
  pub leader_text : Option (List ℕ)
  pub leader_addr : SockAddr
  pub stream : Stream
  pub peers : List Peer
  pub retain : Retention
  pub scrapes : List Scrape
  pub counters : Counters

pub record Loop (m : Machine) : Type 0 where
  pub node : Node m
  pub conns : List ConnSlot

-- The counters changed.
abbrev pub counting : {m : Machine} → Node m → (Counters → Counters) → Node m
counting nd f = record nd { counters = f nd.counters }

-- A call with an error stack of its own, which the caller drops.
abbrev pub fresh : {m : Machine} → Node m → Os m.kernel
fresh nd = record { world = nd.world; errors = err_init }

abbrev pub no_ack : Ack
no_ack = record {
  client_seq = 0;
  wal_seq = 0;
  deadline = 0;
  flags = 0;
  due = false;
  degradable = false;
}

abbrev pub no_sub : Sub
no_sub = record {
  cursor = cursor_init;
  key = 0;
  min_seq = 0;
  deadline = 0;
  until = 0;
  active = false;
  waiting = false;
  all_keys = false;
  once = false;
}

-- What `slot_reset` leaves in a slot.
abbrev pub free_slot : ConnSlot
free_slot = record {
  conn = conn_init [] 0 client;
  fd = negsuc 0;
  staged = [];
  send_cap = loop_send_cap;
  replica = negsuc 0;
  session = 0;
  ack_local = no_ack;
  ack_repl = no_ack;
  sub = no_sub;
  in_use = false;
  want_out = false;
  closing = false;
}

abbrev pub free_scrape : Scrape
free_scrape = record {
  fd = negsuc 0;
  request = [];
  response = [];
  sent = 0;
  answering = false;
  opened_ns = 0;
}
