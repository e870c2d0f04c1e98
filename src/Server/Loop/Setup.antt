-- ===== src/Server/Loop/Setup.antt =====
-- src/server/loop.c: the loop set up, told what it serves, and shut down.
-- The caller's error stack goes in and comes out with the result.
use msgsrvd.Prelude.{
  ℕ, suc, ◌+◌, ◌-◌, true, false, ◌&&◌, Option, none, some, List, [], ◌∷◌, replicate, get_or, set,
  ltb, leb, if◌then◌else◌, u64, ℤ, negsuc,
}
use msgsrvd.Core.Err.{Err, invalid, syscall, no_detail, ok, err, push}
use msgsrvd.Sys.Os.{Os, Ran, os_close}
use msgsrvd.Sys.Net.{
  SockAddr, os_epoll_create, os_epoll_ctl, os_socket, os_setsockopt, os_bind, os_listen,
  os_getsockname, os_now_ns, epoll_ctl_add, epollin, sock_stream, af_inet,
}
use msgsrvd.Proto.Conn.{internal, conn_init}
use msgsrvd.Wal.Log.{Wal}
use msgsrvd.Wal.Cursor.{cursor_close}
use msgsrvd.Server.Session.{Table}
use msgsrvd.Server.Loop.{
  ConnSlot, Scrape, Peer, Machine, Stream, Counters, Node, Loop, counting, fresh, free_slot,
  free_scrape, loop_max_conns, loop_max_replicas, loop_max_scrapes, loop_fsync_buckets,
  refused_kinds,
}
use msgsrvd.Server.Loop.Slots.{
  after, free_peer, ud_make, op_listen, op_metrics, op_signal, arm_timer_now,
}
use msgsrvd.Server.Loop.Events.{sol_socket, is_open}

abbrev pub epoll_cloexec : ℕ
epoll_cloexec = 0x80000

abbrev pub so_reuseaddr : ℕ
so_reuseaddr = 2

-- Upper bounds of the buckets, in nanoseconds.
abbrev pub fsync_bound_ns : List ℕ
fsync_bound_ns = 500000 ∷ 1000000 ∷ 2000000 ∷ 5000000 ∷ 10000000 ∷ 20000000 ∷ 50000000 ∷ []

-- The first bucket whose bound holds the time, or the one behind them all.
pub bucket_of : List ℕ → ℕ → ℕ
bucket_of [] ns = 0
bucket_of (bound ∷ bounds) ns =
    let rest = bucket_of bounds ns in if leb ns bound then 0 else suc rest

abbrev pub observed : Counters → ℕ → Counters
observed k ns =
    let i = bucket_of fsync_bound_ns ns in
    record k {
      fsync_ns_total = u64 (k.fsync_ns_total + ns);
      fsync_bucket = set k.fsync_bucket i (u64 (get_or k.fsync_bucket i 0 + 1));
    }

abbrev pub no_stream : Stream
no_stream = record {
  connecting = false;
  want_out = false;
  closing = false;
  fd = negsuc 0;
  staged = [];
  next_dial = 0;
  conn = conn_init [] 0 internal;
  acked = 0;
  last_err = 0;
}

abbrev pub no_counters : Counters
no_counters = record {
  accepted = 0;
  closed = 0;
  writes = 0;
  dedup_hits = 0;
  flushes = 0;
  repl_records = 0;
  repl_degraded = 0;
  notified = 0;
  retain_removed = 0;
  retain_errors = 0;
  scrapes_served = 0;
  scrapes_refused = 0;
  acks_append = 0;
  acks_sync = 0;
  acks_repl = 0;
  refused = replicate refused_kinds 0;
  fsync_ns_total = 0;
  fsync_bucket = replicate (loop_fsync_buckets + 1) 0;
}

unfoldable pub loop_live_conns : List ConnSlot → ℕ
loop_live_conns [] = 0
loop_live_conns (c ∷ cs) = let rest = loop_live_conns cs in if c.in_use then suc rest else rest

module _ (m : Machine) where
  -- What `loop_init` has before its first call.
  abbrev pub zeroed : m.kernel.World → Wal → Table → Node m
  zeroed w wal sessions = record {
    world = w;
    wal = wal;
    sessions = sessions;
    epoll_fd = negsuc 0;
    listen_fd = negsuc 0;
    signal_fd = negsuc 0;
    timer_fd = negsuc 0;
    metrics_fd = negsuc 0;
    port = 0;
    metrics_port = 0;
    stop = false;
    wal_dirty = false;
    progress = false;
    is_follower = false;
    tick = 0;
    leader_text = none;
    leader_addr = record { sin_port = 0; sin_addr = 0 };
    stream = no_stream;
    peers = replicate loop_max_replicas free_peer;
    retain = record { segments = 0; replicas_want = 0; floor = 0; seen_segs = 0; failed = false };
    scrapes = replicate loop_max_scrapes free_scrape;
    counters = no_counters;
  }

  unfoldable pub fsync_observe : Node m → ℕ → Node m
  unfolding bucket_of
  fsync_observe nd began_ns =
      if ltb 0 began_ns
      then (let (w, now) = os_now_ns m.kernel m.net nd.world in
          counting (record nd { world = w })
            (λ k. observed k (if ltb began_ns now then now - began_ns else 0)))
      else counting nd (λ k. observed k 0)

  -- The port that a listener was given, which stays `old` until its name is known, and the rest.
  abbrev pub Listening : Type 0
  Listening = ℕ × Ran m.kernel (Unit {0})

  abbrev pub listen_named : ℤ → ℤ → ℕ → ℕ → Ran m.kernel SockAddr → Listening
  listen_named epfd fd ud old (o, err code detail) = (old, (o, err code detail))
  listen_named epfd fd ud old (o, ok addr) =
      (addr.sin_port, os_epoll_ctl m.kernel m.net o epfd epoll_ctl_add fd epollin ud)

  abbrev pub listen_open : ℤ → ℤ → ℕ → ℕ → Ran m.kernel (Unit {0}) → Listening
  listen_open epfd fd ud old (o, err code detail) = (old, (o, err code detail))
  listen_open epfd fd ud old (o, ok _) =
      listen_named epfd fd ud old (os_getsockname m.kernel m.net o fd)

  abbrev pub listen_bound : ℤ → ℤ → ℕ → ℕ → ℕ → Ran m.kernel (Unit {0}) → Listening
  listen_bound epfd fd ud old backlog (o, err code detail) = (old, (o, err code detail))
  listen_bound epfd fd ud old backlog (o, ok _) =
      listen_open epfd fd ud old (os_listen m.kernel m.net o fd backlog)

  -- From the socket to the epoll set.
  abbrev pub listen_on : Os m.kernel → ℤ → ℤ → ℕ → ℕ → ℕ → SockAddr → Listening
  listen_on o epfd fd ud old backlog addr =
      let (o1, reuse) = os_setsockopt m.kernel m.net o fd sol_socket so_reuseaddr 1 in
      listen_bound epfd fd ud old backlog (os_bind m.kernel m.net o1 fd addr)

  -- A node after a call, and what the call returned.
  abbrev pub SetUp : Type 0
  SetUp = Node m × Ran m.kernel (Unit {0})

  abbrev pub init_done : Node m → Listening → SetUp
  init_done nd (port, (o, ok _)) = (record nd { world = o.world; port = port }, (o, ok tt))
  init_done nd (port, (o, err code detail)) =
      let (o1, first) = os_close m.kernel o nd.listen_fd in
      let (o2, second) = os_close m.kernel o1 nd.epoll_fd in
      (
        record nd { world = o2.world; port = port; listen_fd = negsuc 0; epoll_fd = negsuc 0 },
        (o2, err code detail),
      )

  abbrev pub init_socket : Node m → SockAddr → Ran m.kernel ℤ → SetUp
  init_socket nd addr (o, err code detail) =
      let (o1, closed) = os_close m.kernel o nd.epoll_fd in
      (record nd { world = o1.world; epoll_fd = negsuc 0 }, (o1, err code detail))
  init_socket nd addr (o, ok fd) =
      init_done (record nd { listen_fd = fd })
        (listen_on o nd.epoll_fd fd (ud_make op_listen 0) nd.port 128 addr)

  abbrev pub init_epoll : Node m → SockAddr → Ran m.kernel ℤ → SetUp
  init_epoll nd addr (o, err code detail) = (record nd { world = o.world }, (o, err code detail))
  init_epoll nd addr (o, ok fd) =
      init_socket (record nd { epoll_fd = fd }) addr
        (os_socket m.kernel m.net o af_inet sock_stream 0)

  unfoldable pub loop_init : Os m.kernel → Wal → Table → SockAddr → Loop m × Ran m.kernel (Unit {0})
  loop_init o wal sessions addr =
      let (nd, r) =
        init_epoll (zeroed o.world wal sessions) addr
          (os_epoll_create m.kernel m.net o epoll_cloexec) in
      (record { node = nd; conns = replicate loop_max_conns free_slot }, r)

  abbrev pub metrics_done : Node m → Listening → SetUp
  metrics_done nd (port, (o, ok _)) =
      (record nd { world = o.world; metrics_port = port }, (o, ok tt))
  metrics_done nd (port, (o, err code detail)) =
      let (o1, closed) = os_close m.kernel o nd.metrics_fd in
      (
        record nd { world = o1.world; metrics_port = port; metrics_fd = negsuc 0 },
        (o1, err code detail),
      )

  abbrev pub metrics_socket : Node m → SockAddr → Ran m.kernel ℤ → SetUp
  metrics_socket nd addr (o, err code detail) =
      (record nd { world = o.world }, (o, err code detail))
  metrics_socket nd addr (o, ok fd) =
      metrics_done (record nd { metrics_fd = fd })
        (listen_on o nd.epoll_fd fd (ud_make op_metrics 0) nd.metrics_port 8 addr)

  unfoldable pub loop_set_metrics_port : Node m → Err → SockAddr → SetUp
  loop_set_metrics_port nd e addr =
      metrics_socket nd addr
        (os_socket m.kernel m.net (record { world = nd.world; errors = e }) af_inet sock_stream 0)

  -- A follower without a clock is refused.
  unfoldable pub loop_set_leader : Node m → Err → Option SockAddr → Option (List ℕ) → SetUp
  loop_set_leader nd e none text =
      (nd, (record { world = nd.world; errors = push e invalid no_detail }, err invalid 0))
  loop_set_leader nd e (some addr) text =
      let nd1 = arm_timer_now m (record nd {
        is_follower = true;
        leader_addr = addr;
        leader_text = text;
        stream = record nd.stream { next_dial = 0 };
      }) in
      if is_open nd1.timer_fd
      then (nd1, (record { world = nd1.world; errors = e }, ok tt))
      else (nd1, (record { world = nd1.world; errors = push e syscall no_detail }, err syscall 0))

  unfoldable pub loop_set_signal_fd : Node m → ℤ → Node m
  loop_set_signal_fd nd fd =
      let nd1 = record nd { signal_fd = fd } in
      if is_open fd
      then after m nd1 (
          os_epoll_ctl m.kernel m.net (fresh nd1) nd1.epoll_fd epoll_ctl_add fd epollin
            (ud_make op_signal 0))
      else nd1

  -- A descriptor closed, where there is one.
  abbrev pub shut : Node m → ℤ → Node m
  shut nd fd = if is_open fd then after m nd (os_close m.kernel (fresh nd) fd) else nd

  pub shut_scrapes : Node m → List Scrape → Node m × List Scrape
  shut_scrapes nd [] = (nd, [])
  shut_scrapes nd (sc ∷ scs) =
      let (nd1, rest) = shut_scrapes (shut nd sc.fd) scs in
      (nd1, record sc { fd = if is_open sc.fd then negsuc 0 else sc.fd } ∷ rest)

  pub shut_conns : Node m → List ConnSlot → Node m × List ConnSlot
  shut_conns nd [] = (nd, [])
  shut_conns nd (c ∷ cs) =
      let open_slot = c.in_use && is_open c.fd in
      let (nd1, rest) = shut_conns (if open_slot then shut nd c.fd else nd) cs in
      (nd1, (if open_slot then free_slot else c) ∷ rest)

  pub shut_peers : Node m → List Peer → Node m × List Peer
  shut_peers nd [] = (nd, [])
  shut_peers nd (p ∷ ps) =
      let (o, cursor, status) = cursor_close m.kernel m.crc (fresh nd) p.cursor in
      let (nd1, rest) = shut_peers (record nd { world = o.world }) ps in
      (nd1, record p { cursor = cursor; live = false } ∷ rest)

  abbrev pub gone : ℤ → ℤ
  gone fd = if is_open fd then negsuc 0 else fd

  -- The single descriptors, in the order of the code.
  abbrev pub shut_singles : Node m → Node m
  shut_singles nd =
      let nd1 = shut (shut nd nd.stream.fd) nd.timer_fd in
      let nd2 = shut (shut (shut nd1 nd.listen_fd) nd.signal_fd) nd.epoll_fd in
      record nd2 {
        stream = record nd.stream { fd = gone nd.stream.fd };
        timer_fd = gone nd.timer_fd;
        listen_fd = gone nd.listen_fd;
        signal_fd = gone nd.signal_fd;
        epoll_fd = gone nd.epoll_fd;
      }

  unfoldable pub loop_shutdown : Loop m → Loop m
  unfolding shut_scrapes shut_conns shut_peers
  loop_shutdown l =
      let (nd1, scrapes) = shut_scrapes (record l.node { stop = true }) l.node.scrapes in
      let nd2 = record (shut nd1 nd1.metrics_fd) {
        scrapes = scrapes;
        metrics_fd = gone nd1.metrics_fd;
      } in
      let (nd3, conns) = shut_conns nd2 l.conns in
      let (nd4, peers) = shut_peers nd3 nd3.peers in
      record { node = shut_singles (record nd4 { peers = peers }); conns = conns }
