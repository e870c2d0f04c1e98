-- ===== src/Server/Loop/Replicas.antt =====
-- src/server/loop.c: replication, from the leader's side.
use msgsrvd.Prelude.{
  ℕ, suc, ◌+◌, ◌-◌, ◌^◌, true, not, ◌||◌, Option, none, some, List, [], ◌∷◌, ◌++◌, length, get_or,
  set, ltb, ◌==◌, if◌then◌else◌, u64, u32, pred64, ℤ, pos, negsuc,
}
use msgsrvd.Core.Err.{ok, err}
use msgsrvd.Sys.Net.{os_now_ns}
use msgsrvd.Proto.Op
use msgsrvd.Proto.Refusal
use msgsrvd.Proto.Msg.{Header, header_bytes, msg_header_size}
use msgsrvd.Proto.Msg.Payload.{msg_header_new}
use msgsrvd.Wal.Cursor.{cursor_init, cursor_seek, wal_durable_seq}
use msgsrvd.Wal.Cursor.Read.{wal_cursor_read, ReadDone}
use msgsrvd.Server.Loop.{ConnSlot, Peer, Machine, Node, counting, fresh, loop_repl_cap}
use msgsrvd.Server.Loop.Reply.{reply_err_text}
use msgsrvd.Server.Loop.Retain.{retain_floor_update}
use msgsrvd.Server.Loop.Slots.{arm_timer_now, free_peer}
use msgsrvd.Server.Loop.Clients.{refuse_and_close}
use msgsrvd.Server.Loop.Subs.{Sought}

-- The first peer that is not live.
pub free_replica : List Peer → Option ℕ
free_replica [] = none
free_replica (p ∷ ps) = elim (free_replica ps) [
  | none ↦ if p.live then none else some 0
  | some i ↦ if p.live then some (suc i) else some 0
]

abbrev pub peer_at : List Peer → ℕ → Peer
peer_at ps i = get_or ps i free_peer

abbrev pub change_peer : {m : Machine} → Node m → ℕ → (Peer → Peer) → Node m
change_peer nd i f = record nd { peers = set nd.peers i (f (peer_at nd.peers i)) }

module _ (m : Machine) where
  -- A replica attached at `i`.
  unfoldable pub attach : Node m → ConnSlot → ℕ → ℕ → Node m × ConnSlot
  attach nd c i sequence =
      let (w, now) = os_now_ns m.kernel m.net nd.world in
      let nd1 =
        change_peer (record nd { world = w }) i
          (λ p. record p { live = true; durable = pred64 sequence; ack_ns = now }) in
      (
        arm_timer_now m (retain_floor_update nd1),
        record c { replica = pos i; send_cap = loop_repl_cap; staged = [] },
      )

  -- The peer's cursor placed, and what follows.
  abbrev pub repl_from : Node m → ConnSlot → ℕ → ℕ → Sought m → Node m × ConnSlot
  repl_from nd c i sequence (o, cursor, err code detail) =
      refuse_and_close m
        (change_peer (record nd { world = o.world }) i (λ p. record p { cursor = cursor })) c
        Refusal.no_history sequence
  repl_from nd c i sequence (o, cursor, ok _) =
      attach (change_peer (record nd { world = o.world }) i (λ p. record p { cursor = cursor })) c i
        sequence

  unfoldable pub handle_repl_start : Node m → ConnSlot → Header → ℕ → Node m × ConnSlot
  unfolding attach free_replica
  handle_repl_start nd c h scratch_len =
      if nd.is_follower
      then (let (nd1, c1) = reply_err_text nd c Refusal.not_leader h.sequence nd.leader_text in
          (nd1, record c1 { closing = true }))
      else elim (free_replica nd.peers) [
        | none ↦ refuse_and_close m nd c Refusal.no_replicas h.sequence
        | some i ↦
            repl_from nd c i h.sequence
              (cursor_seek m.kernel m.crc (fresh nd) nd.wal cursor_init h.sequence scratch_len)
      ]

  -- REPL_ACK: what the replica at `i` has made durable.
  abbrev pub confirm : Node m → ℤ → ℕ → Node m
  confirm nd (negsuc n) sequence = nd
  confirm nd (pos i) sequence =
      let (w, now) = os_now_ns m.kernel m.net nd.world in
      retain_floor_update (
        change_peer (record nd { world = w }) i
          (λ p. record p { durable = sequence; ack_ns = now }))

  -- A chunk staged, or none.
  abbrev pub stream_read : Node m → ConnSlot → ℕ → ℕ → ReadDone m.kernel m.crc → Node m × ConnSlot
  stream_read nd c i first (o, cursor, err code detail) = (
    change_peer (record nd { world = o.world }) i (λ p. record p { cursor = cursor }),
    record c { closing = true },
  )
  stream_read nd c i first (o, cursor, ok got) =
      let nd1 = change_peer (record nd { world = o.world }) i (λ p. record p { cursor = cursor }) in
      if length got == 0 then (nd1, c) else (
        counting (record nd1 { progress = true })
            (λ k. record k {
              repl_records = u64 (k.repl_records + (cursor.next_seq + 2 ^ 64 - first));
            }),
        record c {
          staged = header_bytes (msg_header_new Op.repl_data 0 0 (u32 (length got)) 0 first) ++ got;
        },
      )

  -- A slot that streams to the replica at `i`.
  abbrev pub stream_slot : ℕ → Node m → ConnSlot → ℤ → Node m × ConnSlot
  stream_slot limit nd c (negsuc n) = (nd, c)
  stream_slot limit nd c (pos i) =
      let cursor = (peer_at nd.peers i).cursor in
      if not c.in_use || c.closing
      then (nd, c)
      else if ltb 0 (length c.staged)
      then (nd, c)
      else stream_read nd c i cursor.next_seq (
          wal_cursor_read m.kernel m.crc (fresh nd) nd.wal cursor limit
            (c.send_cap - msg_header_size))

  pub stream_all : ℕ → Node m → List ConnSlot → Node m × List ConnSlot
  stream_all limit nd [] = (nd, [])
  stream_all limit nd (c ∷ cs) =
      let (nd1, c1) = stream_slot limit nd c c.replica in
      let (nd2, cs1) = stream_all limit nd1 cs in (nd2, c1 ∷ cs1)

  unfoldable pub repl_stream : Node m → List ConnSlot → Node m × List ConnSlot
  unfolding stream_all
  repl_stream nd conns = stream_all (wal_durable_seq nd.wal) nd conns
