-- ===== src/Server/Loop/Examples.antt =====
-- The loop on a concrete machine: one log segment with one record, two peers of which one is live,
-- and a client with a write that waits for a second copy.
use msgsrvd.Prelude.{
  ℕ, pos, negsuc, ◌≤◌, ◌≡◌, ◌⊎◌, refl, true, false, none, some, List, [], ◌∷◌, arith, length,
  replicate, All,
}
use msgsrvd.Core.Crc32c.Bitwise.{bitwise_unit}
use msgsrvd.Sys.Os.{done, os_pread, os_pread_full, pread_loop}
use msgsrvd.Sys.Os.Examples.{slow_disk}
use msgsrvd.Sys.Net.{Net}
use msgsrvd.Proto.Op
use msgsrvd.Proto.Conn.{client, conn_init}
use msgsrvd.Proto.Msg.{Header, header_bytes}
use msgsrvd.Proto.Msg.Payload.{msg_header_new}
use msgsrvd.Wal.Record.{rec_encode, rec_decode, rec_size, rec_is_end}
use msgsrvd.Wal.Record.Examples.{three_bytes, payload}
use msgsrvd.Wal.Log.Examples.{three_segments}
use msgsrvd.Wal.Cursor.{wal_first_seq}
use msgsrvd.Wal.Cursor.Read.{wal_cursor_read, read_open, read_attempts, read_walk}
use msgsrvd.Wal.Cursor.Examples.{one_record}
use msgsrvd.Server.Session.{Table}
use msgsrvd.Server.Loop.{ConnSlot, Peer, Machine, Node, Stream, Counters, free_slot, no_ack, no_sub}
use msgsrvd.Server.Loop.Slots.{free_peer}
use msgsrvd.Server.Loop.Retain.{retain_pass, retain_floor_update}
use msgsrvd.Server.Loop.Retain.Floor.{
  IsTrimmed, HasConfirmed, count_live, retain_pass_trims, retain_floor_update_lem,
}
use msgsrvd.Server.Loop.Subs.{push_stream, push_records}
use msgsrvd.Server.Loop.Reply.{reply_record}
use msgsrvd.Server.Loop.Events.{arm_conns}
use msgsrvd.Server.Loop.Events.Armed.{AreArmed, arm_conns-AreArmed}

-- Every call is done; sockets take what they are given and have nothing to read.
abbrev pub quiet_net : Net slow_disk
quiet_net = record {
  socket = λ w _ _ _. (w, done (pos 9));
  bind = λ w _ _. (w, done tt);
  connect = λ w _ _. (w, done tt);
  getsockname = λ w _. (w, done (record { sin_port = 7000; sin_addr = 0 }));
  listen = λ w _ _. (w, done tt);
  setsockopt = λ w _ _ _ _. (w, done tt);
  getsockopt = λ w _ _ _. (w, done (pos 0));
  accept4 = λ w _ _. (w, done (pos 8));
  recvfrom = λ w _ _ _. (w, done []);
  sendto = λ w _ bytes _. (w, done (length bytes));
  epoll_create1 = λ w _. (w, done (pos 7));
  epoll_ctl = λ w _ _ _ _. (w, done tt);
  epoll_wait = λ w _ _ _. (w, done []);
  read = λ w _ _. (w, done []);
  write = λ w _ bytes. (w, done (length bytes));
  getrandom = λ w n. (w, done (replicate n 1));
  clock_gettime = λ w. (w, done (1, 0));
  timerfd_create = λ w _. (w, done (pos 6));
  timerfd_settime = λ w _ _. (w, done tt);
}

abbrev pub machine : Machine
machine = record { kernel = slow_disk; crc = bitwise_unit; net = quiet_net }

abbrev pub logged : List ℕ
logged = (rec_encode bitwise_unit (replicate 72 0) three_bytes (some payload)).buf

-- The replica that is live has confirmed the sequence 5.
abbrev pub live_peer : Peer
live_peer = record free_peer { live = true; durable = 5 }

abbrev pub no_counts : Counters
no_counts = record {
  accepted = 0;
  closed = 0;
  writes = 0;
  dedup_hits = 0;
  flushes = 0;
  repl_records = 0;
  repl_degraded = 0;
  notified = 0;
  retain_removed = 0;
  retain_errors = 0;
  scrapes_served = 0;
  scrapes_refused = 0;
  acks_append = 0;
  acks_sync = 0;
  acks_repl = 0;
  refused = replicate 6 0;
  fsync_ns_total = 0;
  fsync_bucket = replicate 8 0;
}

abbrev pub no_stream : Stream
no_stream = record {
  connecting = false;
  want_out = false;
  closing = false;
  fd = negsuc 0;
  staged = [];
  next_dial = 0;
  conn = conn_init [] 0 client;
  acked = 0;
  last_err = 0;
}

abbrev pub one_session : Table
one_session = record {
  entries = record { id = 77; last_client_seq = 1; seen = 1 } ∷ [];
  next_seen = 2;
  evicted = 0;
}

abbrev pub leader : Node machine
leader = record {
  world = logged;
  wal = three_segments;
  sessions = one_session;
  epoll_fd = pos 7;
  listen_fd = pos 8;
  signal_fd = negsuc 0;
  timer_fd = negsuc 0;
  metrics_fd = negsuc 0;
  port = 7000;
  metrics_port = 0;
  stop = false;
  wal_dirty = false;
  progress = false;
  is_follower = false;
  tick = 4;
  leader_text = none;
  leader_addr = record { sin_port = 0; sin_addr = 0 };
  stream = no_stream;
  peers = live_peer ∷ free_peer ∷ [];
  retain = record { segments = 2; replicas_want = 1; floor = 2; seen_segs = 0; failed = false };
  scrapes = [];
  counters = no_counts;
}

abbrev pub waiting_client : ConnSlot
waiting_client = record free_slot {
  in_use = true;
  fd = pos 11;
  session = 77;
  ack_repl = record no_ack { due = true; client_seq = 2; wal_seq = 5; deadline = 9; flags = 5 };
  sub = record no_sub {
    active = true;
    all_keys = true;
    cursor = record { fd = pos 4; seg_base = 5; off = 0; next_seq = 5 };
  };
}

abbrev pub replicated_write : Header
replicated_write = msg_header_new Op.write 0 5 3 17 2

-- A client with an answer staged, one that is to be closed, and a free slot.
abbrev answered_clients : List ConnSlot
answered_clients =
    record waiting_client { staged = 1 ∷ 2 ∷ []; conn = conn_init (replicate 8 0) 8 client }
    ∷ record waiting_client { closing = true }
    ∷ free_slot
    ∷ []

arm_conns-AreArmed_example :
    AreArmed leader 0 answered_clients (arm_conns machine leader answered_clients).1
arm_conns-AreArmed_example = arm_conns-AreArmed leader answered_clients

retain_floor_update_lem_example :
    let nd' = retain_floor_update leader in
    (2 ≤ nd'.retain.floor)
    × (nd' ≡ record leader { retain = record leader.retain { floor = nd'.retain.floor } })
    × ((nd'.retain.floor ≡ 2)
        ⊎ ((1 ≤ count_live (live_peer ∷ free_peer ∷ []))
            × All (HasConfirmed nd'.retain.floor) (live_peer ∷ free_peer ∷ [])))
retain_floor_update_lem_example = retain_floor_update_lem leader

retain_pass_trims_example :
    IsTrimmed three_segments leader.retain (retain_pass machine leader (10 ∷ [])).wal
retain_pass_trims_example = retain_pass_trims machine leader (10 ∷ []) (omega arith) (omega arith)

-- The leader with a log on disk that holds the record 5, and what it pushes to the client.
abbrev one_logged : Node machine
one_logged = record leader { world = one_record }

abbrev pushed : Node machine × ConnSlot
pushed = push_stream machine 5 1024 one_logged waiting_client

-- One NOTIFY of a header and three bytes is staged, and the cursor stands behind the record.
push_stages :
    (length pushed.1.staged ≡ 35)
    × (pushed.1.sub.cursor ≡ record { fd = pos 4; seg_base = 5; off = 64; next_seq = 6 })
unfolding push_stream wal_cursor_read read_open read_attempts read_walk os_pread_full os_pread
    pread_loop push_records reply_record rec_decode rec_size rec_is_end header_bytes wal_first_seq
push_stages = (refl, refl)
