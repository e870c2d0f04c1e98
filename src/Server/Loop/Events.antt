-- ===== src/Server/Loop/Events.antt =====
-- src/server/loop.c: what a ready descriptor lets the loop do, and the arm phase of a pass.
-- The receive buffer of a slot is an argument where the slot is taken, as its bytes are those of
-- the connection before.
pub mod Sent
pub mod Armed
use msgsrvd.Prelude.{
  ℕ, zero, suc, ◌+◌, Bool, true, false, not, ◌&&◌, ◌||◌, Option, none, some, List, [], ◌∷◌, length,
  get_or, set, ltb, leb, ◌==◌, if◌then◌else◌, u64, u32, of_le, ℤ, pos, negsuc,
}
use msgsrvd.Core.Err.{ok, err}
use msgsrvd.Core.Mem.{mem_copy}
use msgsrvd.Sys.Os.{Answer, done, failed, Ran, os_close}
use msgsrvd.Sys.Net.{
  os_epoll_ctl, os_accept4, os_recv, os_send, os_read_raw, os_getsockopt_int, os_socket, os_connect,
  epoll_ctl_add, epoll_ctl_mod, epollin, epollout, eagain, einprogress, msg_dontwait, msg_nosignal,
  sock_accepted, sock_stream, af_inet,
}
use msgsrvd.Proto.Conn.{
  Conn, Action, frame, client, conn_init, conn_compact, conn_feed, conn_recv_space, conn_recv_ptr,
  conn_recv_commit,
}
use msgsrvd.Server.Loop.{
  ConnSlot, Machine, Node, counting, fresh, free_slot, loop_recv_cap, loop_redial_ticks,
}
use msgsrvd.Server.Loop.Slots.{after, slot_alloc, slot_release, ud_make, op_conn, op_stream}
use msgsrvd.Server.Loop.Frames.{payload_in, on_recv, loop_send_done}
use msgsrvd.Server.Loop.Follower.{
  streaming, give_up, stream_release, on_stream_frame, on_repl_dial, on_repl_send,
}

abbrev pub sol_socket : ℕ
sol_socket = 1

abbrev pub so_error : ℕ
so_error = 4

abbrev pub timerfd_read_size : ℕ
timerfd_read_size = 8

-- The bytes of a signalfd's report.
abbrev pub signal_read_size : ℕ
signal_read_size = 128

abbrev pub is_open : ℤ → Bool
is_open (pos n) = true
is_open (negsuc n) = false

-- The number that a failed system call returns.
abbrev pub minus_errno : ℕ → ℤ
minus_errno zero = pos 0
minus_errno (suc n) = negsuc n

-- `if a then b == true else b == false`, for the test of an interest against what is carried.
abbrev pub same_interest : Bool → Bool → Bool
same_interest true want = want
same_interest false want = not want

-- EPOLLIN, with EPOLLOUT where it is wanted.
abbrev pub interest : Bool → ℕ
interest want = if want then epollin + epollout else epollin

-- Bytes that the kernel placed where a connection has its free space.
abbrev pub placed : Conn → List ℕ → Conn
placed c bytes = record c { buf = mem_copy c.buf (conn_recv_ptr c) bytes (length bytes) }

module _ (m : Machine) where
  -- A slot takes the descriptor, where epoll does.
  abbrev pub slot_taken :
      Node m → List ConnSlot → List ℕ → ℕ → ℤ → Ran m.kernel (Unit {0}) → Node m × List ConnSlot
  slot_taken nd conns buf slot fd (o, err code detail) =
      (after m nd (os_close m.kernel o fd), conns)
  slot_taken nd conns buf slot fd (o, ok _) = (
    counting (record nd { world = o.world }) (λ k. record k { accepted = u64 (k.accepted + 1) }),
    set conns slot
        (record free_slot { in_use = true; fd = fd; conn = conn_init buf loop_recv_cap client }),
  )

  unfoldable pub on_accept : Node m → List ConnSlot → List ℕ → ℤ → Node m × List ConnSlot
  on_accept nd conns buf (negsuc n) = (nd, conns)
  on_accept nd conns buf (pos n) = elim (slot_alloc conns) [
    | none ↦ (after m nd (os_close m.kernel (fresh nd) (pos n)), conns)
    | some slot ↦ slot_taken nd conns buf slot (pos n) (
        os_epoll_ctl m.kernel m.net (fresh nd) nd.epoll_fd epoll_ctl_add (pos n) epollin
          (ud_make op_conn slot))
  ]

  abbrev pub accept_answered :
      Node m → List ConnSlot → List ℕ → Ran m.kernel ℤ → Node m × List ConnSlot
  accept_answered nd conns buf (o, err code detail) = (record nd { world = o.world }, conns)
  accept_answered nd conns buf (o, ok fd) = on_accept (record nd { world = o.world }) conns buf fd

  unfoldable pub do_accept : Node m → List ConnSlot → List ℕ → Node m × List ConnSlot
  unfolding on_accept
  do_accept nd conns buf =
      if nd.stop
      then (nd, conns)
      else accept_answered nd conns buf
          (os_accept4 m.kernel m.net (fresh nd) nd.listen_fd sock_accepted)

  -- EPOLLOUT carried for a slot or no longer, by what epoll answered.
  abbrev pub conn_wanting : Node m → ConnSlot → Bool → Ran m.kernel (Unit {0}) → Node m × ConnSlot
  conn_wanting nd c want (o, err code detail) =
      (record nd { world = o.world }, record c { closing = true })
  conn_wanting nd c want (o, ok _) = (record nd { world = o.world }, record c { want_out = want })

  unfoldable pub conn_want_out : Node m → ℕ → ConnSlot → Bool → Node m × ConnSlot
  conn_want_out nd i c want =
      if not (is_open c.fd) || same_interest c.want_out want
      then (nd, c)
      else conn_wanting nd c want (
          os_epoll_ctl m.kernel m.net (fresh nd) nd.epoll_fd epoll_ctl_mod c.fd (interest want)
            (ud_make op_conn i))

  -- What a send of the staged bytes answered.
  abbrev pub conn_sent : Node m → ℕ → ConnSlot → m.kernel.World × Answer ℕ → Node m × ConnSlot
  conn_sent nd i c (w, failed n) =
      if n == eagain
      then conn_want_out (record nd { world = w }) i c true
      else (let c1 = loop_send_done c (minus_errno n) in
          conn_want_out (record nd { world = w }) i c1 (ltb 0 (length c1.staged)))
  conn_sent nd i c (w, done sent) =
      let c1 = loop_send_done c (pos sent) in
      conn_want_out (record nd { world = w }) i c1 (ltb 0 (length c1.staged))

  unfoldable pub conn_send : Node m → ℕ → ConnSlot → Node m × ConnSlot
  conn_send nd i c =
      conn_sent nd i c (os_send m.kernel m.net nd.world c.fd c.staged (msg_nosignal + msg_dontwait))

  unfoldable pub do_send : Node m → ℕ → ConnSlot → Node m × ConnSlot
  unfolding conn_want_out conn_send
  do_send nd i c =
      if not c.in_use || not (is_open c.fd)
      then (nd, c)
      else if leb (length c.staged) 0
      then conn_want_out nd i c false
      else conn_send nd i c

  -- What a receive answered; the bytes stand in the buffer.
  abbrev pub conn_received :
      Node m → ConnSlot → List ℕ → m.kernel.World × Answer (List ℕ) → Node m × ConnSlot
  conn_received nd c scratch (w, failed n) =
      if n == eagain
      then (record nd { world = w }, c)
      else on_recv m (record nd { world = w }) c scratch (minus_errno n)
  conn_received nd c scratch (w, done bytes) =
      on_recv m (record nd { world = w }) (record c { conn = placed c.conn bytes }) scratch
        (pos (length bytes))

  unfoldable pub do_recv : Node m → ConnSlot → List ℕ → Node m × ConnSlot
  do_recv nd c scratch =
      if not c.in_use || not (is_open c.fd)
      then (nd, c)
      else if leb (conn_recv_space c.conn) 0
      then (nd, c)
      else conn_received nd c scratch
          (os_recv m.kernel m.net nd.world c.fd (conn_recv_space c.conn) msg_dontwait)

  abbrev pub signalled : Node m → m.kernel.World × Answer (List ℕ) → Node m
  signalled nd (w, failed n) = record nd { world = w }
  signalled nd (w, done bytes) = record nd {
    world = w;
    stop = if ltb 0 (length bytes) then true else nd.stop;
  }

  unfoldable pub do_signal : Node m → Node m
  do_signal nd =
      if is_open nd.signal_fd
      then signalled nd (os_read_raw m.kernel m.net nd.world nd.signal_fd signal_read_size)
      else nd

  -- As many ticks as the timer says have passed.
  abbrev pub fired : Node m → m.kernel.World × Answer (List ℕ) → Node m
  fired nd (w, failed n) = record nd { world = w }
  fired nd (w, done bytes) = record nd {
    world = w;
    tick = if length bytes == timerfd_read_size then u32 (nd.tick + u32 (of_le bytes)) else nd.tick;
  }

  unfoldable pub do_timer : Node m → Node m
  do_timer nd =
      if is_open nd.timer_fd
      then fired nd (os_read_raw m.kernel m.net nd.world nd.timer_fd timerfd_read_size)
      else nd

  -- A slot in the arm phase, once what it has staged has gone as far as it could.
  abbrev pub arm_rest : Node m × ConnSlot → Node m × ConnSlot
  arm_rest (nd, c) =
      let c1 = record c { conn = conn_compact c.conn } in
      if c.closing
      then slot_release m nd c
      else if leb (conn_recv_space c1.conn) 0
      then slot_release m nd (record c1 { closing = true })
      else (nd, c1)

  unfoldable pub arm_slot : Node m → ℕ → ConnSlot → Node m × ConnSlot
  unfolding conn_send
  arm_slot nd i c =
      if not c.in_use
      then (nd, c)
      else arm_rest (
          if ltb 0 (length c.staged) && not c.want_out && is_open c.fd
          then conn_send nd i c
          else (nd, c))

  pub arm_all : Node m → ℕ → List ConnSlot → Node m × List ConnSlot
  unfolding arm_slot
  arm_all nd i [] = (nd, [])
  arm_all nd i (c ∷ cs) =
      let (nd1, c1) = arm_slot nd i c in
      let (nd2, rest) = arm_all nd1 (suc i) cs in (nd2, c1 ∷ rest)

  unfoldable pub arm_conns : Node m → List ConnSlot → Node m × List ConnSlot
  unfolding arm_all
  arm_conns nd conns = arm_all nd 0 conns
