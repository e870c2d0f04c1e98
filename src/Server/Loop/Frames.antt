-- ===== src/Server/Loop/Frames.antt =====
-- src/server/loop.c: the frames of a connection, and what its socket has taken.
use msgsrvd.Prelude.{
  ℕ, zero, suc, true, false, Option, none, some, List, [], ◌∷◌, length, take, drop, ltb, ◌==◌,
  if◌then◌else◌, ℤ, pos, negsuc,
}
use msgsrvd.Proto.Op
use msgsrvd.Proto.Refusal
use msgsrvd.Proto.Msg.{Header}
use msgsrvd.Proto.Conn.{Conn, Action, frame, reply_err, close, conn_feed, conn_recv_commit}
use msgsrvd.Server.Loop.{ConnSlot, Machine, Node}
use msgsrvd.Server.Loop.Reply.{reply}
use msgsrvd.Server.Loop.Reply as Reply
use msgsrvd.Server.Loop.Clients.{handle_hello, handle_write, refuse_and_close}
use msgsrvd.Server.Loop.Subs.{handle_subscribe, handle_read}
use msgsrvd.Server.Loop.Replicas.{handle_repl_start, confirm}

-- A frame's payload in the receive buffer.
abbrev pub payload_in : Conn → Option ℕ → ℕ → Option (List ℕ)
payload_in c none len = none
payload_in c (some off) len = some (take len (drop off c.buf))

module _ (m : Machine) where
  unfoldable pub handle_frame :
      Node m → ConnSlot → Header → Option (List ℕ) → ℕ → List ℕ → Node m × ConnSlot
  handle_frame nd c h payload payload_len scratch =
      if h.op == Op.hello
      then handle_hello m nd c h payload payload_len
      else if h.op == Op.write
      then handle_write m nd c h payload payload_len scratch
      else if h.op == Op.ping
      then (nd, (reply c Op.pong 0 h.sequence []).0)
      else if h.op == Op.repl_start
      then handle_repl_start m nd c h (length scratch)
      else if h.op == Op.repl_ack
      then (confirm m nd c.replica h.sequence, c)
      else if h.op == Op.subscribe
      then handle_subscribe m nd c h payload (length scratch)
      else if h.op == Op.read
      then handle_read m nd c h payload (length scratch)
      else if h.op == Op.delete
      then Reply.reply_err nd c Refusal.unsupported h.sequence
      else refuse_and_close m nd c Refusal.bad_op h.sequence

  -- An action of the parser.
  abbrev pub act : Node m → ConnSlot → List ℕ → Action → Node m × ConnSlot
  act nd c scratch (frame h payload len) =
      handle_frame nd c h (payload_in c.conn payload len) len scratch
  act nd c scratch (reply_err code sequence) = Reply.reply_err nd c code sequence
  act nd c scratch close = (nd, record c { closing = true })

  pub act_all : Node m → ConnSlot → List ℕ → List Action → Node m × ConnSlot
  unfolding handle_frame
  act_all nd c scratch [] = (nd, c)
  act_all nd c scratch (a ∷ rest) =
      let (nd1, c1) = act nd c scratch a in act_all nd1 c1 scratch rest

  -- The loop of `on_recv`. Each turn that handles a frame takes a header's bytes at least, so as many
  -- turns as bytes are enough.
  pub recv_loop : ℕ → Node m → ConnSlot → List ℕ → Node m × ConnSlot
  recv_loop zero nd c scratch = (nd, c)
  recv_loop (suc turns) nd c scratch =
      let d = conn_feed c.conn 8 in
      elim (length d.actions == 0) [
        | true ↦ (nd, record c { conn = d.conn })
        | false ↦
            let (nd1, c1) = act_all nd (record c { conn = d.conn }) scratch d.actions in
            elim c1.closing [ true ↦ (nd1, c1) | false ↦ recv_loop turns nd1 c1 scratch ]
      ]

  -- The bytes received stand in the buffer already, `n` of them; none is an orderly close.
  abbrev pub received : Node m → ConnSlot → List ℕ → ℤ → Node m × ConnSlot
  received nd c scratch (negsuc n) = (nd, record c { closing = true })
  received nd c scratch (pos n) =
      if n == 0
      then (nd, record c { closing = true })
      else recv_loop (suc c.conn.buf_cap) nd (record c { conn = (conn_recv_commit c.conn n).conn })
          scratch

  unfoldable pub on_recv : Node m → ConnSlot → List ℕ → ℤ → Node m × ConnSlot
  unfolding act_all recv_loop
  on_recv nd c scratch res = if c.in_use then received nd c scratch res else (nd, c)

-- A send that failed or moved nothing.
abbrev pub send_failed : ConnSlot → ConnSlot
send_failed c = record c { closing = true; staged = [] }

-- The bytes that are gone taken off the front.
abbrev pub sent_bytes : ConnSlot → ℤ → ConnSlot
sent_bytes c (negsuc n) = send_failed c
sent_bytes c (pos n) =
    if n == 0
    then send_failed c
    else record c { staged = if ltb n (length c.staged) then drop n c.staged else [] }

unfoldable pub loop_send_done : ConnSlot → ℤ → ConnSlot
loop_send_done c res = if c.in_use then sent_bytes c res else c
