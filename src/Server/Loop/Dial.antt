-- ===== src/Server/Loop/Dial.antt =====
-- src/server/loop.c: the follower's stream, as its descriptor becomes ready and in the arm phase.
-- The receive buffer of a new stream and the lines for the journal are arguments.
use msgsrvd.Prelude.{
  ℕ, zero, suc, ◌+◌, Bool, true, false, not, ◌&&◌, ◌||◌, List, [], ◌∷◌, length, ltb, leb, ◌==◌,
  if◌then◌else◌, u32, ℤ, pos, negsuc,
}
use msgsrvd.Core.Err.{ok, err}
use msgsrvd.Sys.Os.{Answer, done, failed, Ran, os_close}
use msgsrvd.Sys.Net.{
  os_epoll_ctl, os_recv, os_send, os_getsockopt_int, os_socket, os_connect, epoll_ctl_add,
  epoll_ctl_mod, epollout, eagain, einprogress, msg_dontwait, msg_nosignal, sock_stream, af_inet,
}
use msgsrvd.Proto.Conn.{Action, frame, conn_compact, conn_feed, conn_recv_space, conn_recv_commit}
use msgsrvd.Server.Loop.{Machine, Node, fresh, loop_redial_ticks}
use msgsrvd.Server.Loop.Slots.{after, ud_make, op_stream}
use msgsrvd.Server.Loop.Frames.{payload_in}
use msgsrvd.Server.Loop.Follower.{
  streaming, give_up, stream_release, on_stream_frame, on_repl_dial, on_repl_send,
}
use msgsrvd.Server.Loop.Events.{
  sol_socket, so_error, is_open, minus_errno, same_interest, interest, placed,
}

-- A result code of a connect is negative where the error number is positive.
abbrev pub is_positive : ℤ → Bool
is_positive (pos n) = ltb 0 n
is_positive (negsuc n) = false

module _ (m : Machine) where
  abbrev pub stream_wanting : Node m → Bool → Ran m.kernel (Unit {0}) → Node m
  stream_wanting nd want (o, err code detail) = give_up (record nd { world = o.world })
  stream_wanting nd want (o, ok _) =
      streaming (record nd { world = o.world }) (λ s. record s { want_out = want })

  unfoldable pub stream_want_out : Node m → Bool → Node m
  stream_want_out nd want =
      if not (is_open nd.stream.fd) || same_interest nd.stream.want_out want
      then nd
      else stream_wanting nd want (
          os_epoll_ctl m.kernel m.net (fresh nd) nd.epoll_fd epoll_ctl_mod nd.stream.fd
            (interest want) (ud_make op_stream 0))

  abbrev pub dial_answered : Node m → List ℕ → Ran m.kernel ℤ → Node m
  dial_answered nd buf (o, err code detail) =
      on_repl_dial m (record nd { world = o.world }) buf true
  dial_answered nd buf (o, ok value) =
      on_repl_dial m (record nd { world = o.world }) buf (is_positive value)

  unfoldable pub do_repl_dial : Node m → List ℕ → Node m
  do_repl_dial nd buf =
      dial_answered nd buf
        (os_getsockopt_int m.kernel m.net (fresh nd) nd.stream.fd sol_socket so_error)

  -- An action of the parser; all but a frame end the stream.
  abbrev pub stream_act : Node m → (ℕ → List ℕ) → List ℕ → Action → Node m
  stream_act nd lines scratch (frame h payload len) =
      on_stream_frame m nd lines h (payload_in nd.stream.conn payload len) scratch
  stream_act nd lines scratch a = give_up nd

  pub stream_act_all : Node m → (ℕ → List ℕ) → List ℕ → List Action → Node m
  stream_act_all nd lines scratch [] = nd
  stream_act_all nd lines scratch (a ∷ rest) =
      stream_act_all (stream_act nd lines scratch a) lines scratch rest

  -- The loop of `on_repl_recv`, which has a turn for each byte of the buffer, as each turn but the
  -- last takes a frame.
  pub stream_loop : ℕ → Node m → (ℕ → List ℕ) → List ℕ → Node m
  unfolding stream_act_all
  stream_loop zero nd lines scratch = nd
  stream_loop (suc turns) nd lines scratch =
      let d = conn_feed nd.stream.conn 4 in
      let nd0 = streaming nd (λ s. record s { conn = d.conn }) in
      elim (length d.actions == 0) [
        | true ↦ nd0
        | false ↦
            let nd1 = stream_act_all nd0 lines scratch d.actions in
            elim nd1.stream.closing [ true ↦ nd1 | false ↦ stream_loop turns nd1 lines scratch ]
      ]

  -- What arrived stands in the buffer; none is the end of the stream.
  unfoldable pub on_repl_recv : Node m → ℤ → (ℕ → List ℕ) → List ℕ → Node m
  unfolding stream_loop
  on_repl_recv nd res lines scratch = elim nd.stream.fd [
    | negsuc n ↦ nd
    | pos n ↦ elim res [
      | negsuc e ↦ give_up nd
      | pos zero ↦ give_up nd
      | pos (suc got) ↦
          stream_loop (suc nd.stream.conn.buf_cap)
            (streaming nd (λ s. record s { conn = (conn_recv_commit s.conn (suc got)).conn })) lines
            scratch
    ]
  ]

  abbrev pub stream_received :
      Node m → (ℕ → List ℕ) → List ℕ → m.kernel.World × Answer (List ℕ) → Node m
  stream_received nd lines scratch (w, failed n) =
      if n == eagain
      then record nd { world = w }
      else on_repl_recv (record nd { world = w }) (minus_errno n) lines scratch
  stream_received nd lines scratch (w, done bytes) =
      on_repl_recv
        (streaming (record nd { world = w }) (λ s. record s { conn = placed s.conn bytes }))
        (pos (length bytes)) lines scratch

  unfoldable pub do_repl_recv : Node m → (ℕ → List ℕ) → List ℕ → Node m
  do_repl_recv nd lines scratch =
      if not (is_open nd.stream.fd) || nd.stream.closing
      then nd
      else if leb (conn_recv_space nd.stream.conn) 0
      then nd
      else stream_received nd lines scratch (
          os_recv m.kernel m.net nd.world nd.stream.fd (conn_recv_space nd.stream.conn)
            msg_dontwait)

  -- What a send on the stream answered.
  abbrev pub stream_sent : Node m → m.kernel.World × Answer ℕ → Node m
  stream_sent nd (w, failed n) =
      if n == eagain
      then stream_want_out (record nd { world = w }) true
      else (let nd1 = on_repl_send m (record nd { world = w }) (minus_errno n) in
          stream_want_out nd1 (ltb 0 (length nd1.stream.staged)))
  stream_sent nd (w, done sent) =
      let nd1 = on_repl_send m (record nd { world = w }) (pos sent) in
      stream_want_out nd1 (ltb 0 (length nd1.stream.staged))

  unfoldable pub stream_send : Node m → Node m
  stream_send nd =
      stream_sent nd (
        os_send m.kernel m.net nd.world nd.stream.fd nd.stream.staged (msg_nosignal + msg_dontwait))

  unfoldable pub do_repl_send : Node m → Node m
  unfolding stream_want_out stream_send
  do_repl_send nd =
      if not (is_open nd.stream.fd) || nd.stream.closing
      then nd
      else if leb (length nd.stream.staged) 0
      then stream_want_out nd false
      else stream_send nd

  -- The next dial put off.
  abbrev pub redial_later : Node m → Node m
  redial_later nd = streaming nd (λ s. record s { next_dial = u32 (nd.tick + loop_redial_ticks) })

  abbrev pub connect_answered : Node m → List ℕ → Ran m.kernel (Unit {0}) → Node m
  connect_answered nd buf (o, ok _) = on_repl_dial m (record nd { world = o.world }) buf false
  connect_answered nd buf (o, err code detail) =
      if detail == einprogress
      then record nd { world = o.world }
      else on_repl_dial m (record nd { world = o.world }) buf (ltb 0 detail)

  abbrev pub dial_watched : Node m → List ℕ → ℤ → Ran m.kernel (Unit {0}) → Node m
  dial_watched nd buf fd (o, err code detail) = redial_later (after m nd (os_close m.kernel o fd))
  dial_watched nd buf fd (o, ok _) =
      connect_answered (streaming nd (λ s. record s { fd = fd; connecting = true })) buf
        (os_connect m.kernel m.net o fd nd.leader_addr)

  abbrev pub dial_socket : Node m → List ℕ → Ran m.kernel ℤ → Node m
  dial_socket nd buf (o, err code detail) = redial_later (record nd { world = o.world })
  dial_socket nd buf (o, ok fd) =
      dial_watched nd buf fd
        (os_epoll_ctl m.kernel m.net o nd.epoll_fd epoll_ctl_add fd epollout (ud_make op_stream 0))

  unfoldable pub repl_dial : Node m → List ℕ → Node m
  repl_dial nd buf =
      if not nd.is_follower || nd.stop
      then nd
      else if is_open nd.stream.fd || nd.stream.connecting
      then nd
      else if ltb nd.tick nd.stream.next_dial
      then nd
      else dial_socket nd buf (os_socket m.kernel m.net (fresh nd) af_inet sock_stream 0)

  -- The room of what is parsed given back; without any room the stream is over.
  abbrev pub stream_compacted : Node m → Node m
  stream_compacted nd =
      if nd.stream.closing
      then nd
      else (let c = conn_compact nd.stream.conn in
          streaming nd (λ s. record s {
            conn = c;
            closing = if leb (conn_recv_space c) 0 then true else s.closing;
          }))

  unfoldable pub arm_stream : Node m → Node m
  unfolding stream_send
  arm_stream nd =
      if not (is_open nd.stream.fd) || (nd.stream.connecting || nd.stop)
      then nd
      else if nd.stream.closing
      then stream_release m nd
      else stream_compacted
          (if ltb 0 (length nd.stream.staged) && not nd.stream.want_out then stream_send nd else nd)
