-- ===== src/Server/Loop/Subs.antt =====
-- src/server/loop.c: subscriptions and reads.
pub mod Push
use msgsrvd.Prelude.{
  ℕ, zero, suc, ◌+◌, ◌-◌, Bool, true, false, not, ◌&&◌, ◌||◌, Option, none, some, List, [], ◌∷◌,
  length, drop, ltb, leb, ◌==◌, if◌then◌else◌, u64, u32, int32, min, has,
}
use msgsrvd.Core.Err.{Result, ok, err}
use msgsrvd.Sys.Os.{Os}
use msgsrvd.Proto.Flag
use msgsrvd.Proto.Op
use msgsrvd.Proto.Refusal
use msgsrvd.Proto.Msg.{Header, msg_header_size}
use msgsrvd.Proto.Msg.Payload.{Subscribe, ReadRequest, msg_decode_subscribe, msg_decode_read}
use msgsrvd.Wal.Record.{Rec, rec_decode, rec_size, rec_header_size}
use msgsrvd.Wal.Index.{index_range, index_complete}
use msgsrvd.Wal.Cursor.{
  Cursor, cursor_init, cursor_seek, cursor_close, wal_durable_seq, wal_next_seq, wal_first_seq,
}
use msgsrvd.Wal.Cursor.Read.{wal_cursor_read, ReadDone}
use msgsrvd.Server.Loop.{ConnSlot, Sub, Machine, Node, counting, fresh, loop_sub_deadline_ticks}
use msgsrvd.Server.Loop.Reply.{reply, reply_record, reply_err}
use msgsrvd.Server.Loop.Slots.{arm_timer_now}
use msgsrvd.Server.Loop.Clients.{refuse_and_close}

abbrev pub with_sub : ConnSlot → (Sub → Sub) → ConnSlot
with_sub c f = record c { sub = f c.sub }

-- Where a subscription begins: at the key's first record where that is later.
abbrev pub from_index : Option (ℕ × ℕ) → ℕ → ℕ
from_index none from = from
from_index (some (key_from, key_last)) from = key_from

-- The frames of a read pushed, and how many there were. The loop moves on by a record in each turn,
-- so as many turns as bytes are enough.
unfoldable pub push_records : ℕ → ConnSlot → ℕ → List ℕ → ConnSlot × ℕ
push_records zero c n bytes = (c, n)
push_records (suc turns) c n bytes = elim (rec_decode bytes) [
  | none ↦ (c, n)
  | some r ↦
      let size = rec_size (int32 r.len) in
      elim (size == 0 || ltb (length bytes) size) [
        | true ↦ (c, n)
        | false ↦ elim (c.sub.all_keys || r.partition_key == c.sub.key) [
          | true ↦
              push_records turns (reply_record c r (drop rec_header_size bytes)).0 (suc n)
                (drop size bytes)
          | false ↦ push_records turns c n (drop size bytes)
        ]
      ]
]

module _ (m : Machine) where
  abbrev pub Sought : Type 0
  Sought = Os m.kernel × Cursor × Result (Unit {0})

  -- Hold the stream until the node has the sequence.
  unfoldable pub sub_wait : Node m → ConnSlot → Node m × ConnSlot
  sub_wait nd c = (
    arm_timer_now m nd,
    with_sub c
        (λ s. record s { waiting = true; deadline = u32 (nd.tick + loop_sub_deadline_ticks) }),
  )

  -- The rest of a SUBSCRIBE once its cursor is placed.
  abbrev pub subscribe_from :
      Node m → ConnSlot → Header → Subscribe → ℕ → Sought → Node m × ConnSlot
  subscribe_from nd c h req from (o, cursor, err code detail) =
      reply_err (record nd { world = o.world }) (with_sub c (λ s. record s { cursor = cursor }))
        Refusal.no_history h.sequence
  subscribe_from nd c h req from (o, cursor, ok _) =
      let nd1 = record nd { world = o.world } in
      let c1 = with_sub c (λ s. record s {
        cursor = cursor;
        key = h.partition_key;
        all_keys = has Flag.all_keys h.flags;
        min_seq = req.min_seq;
      }) in
      if ltb (wal_durable_seq nd.wal) req.min_seq
      then sub_wait nd1 c1
      else (nd1, (reply (with_sub c1 (λ s. record s { active = true })) Op.ack 0 from []).0)

  unfoldable pub handle_subscribe :
      Node m → ConnSlot → Header → Option (List ℕ) → ℕ → Node m × ConnSlot
  unfolding sub_wait
  handle_subscribe nd c h payload scratch_len = elim (msg_decode_subscribe payload) [
    | none ↦ refuse_and_close m nd c Refusal.payload_too_big h.sequence
    | some req ↦
        let start = if req.from_seq == 0 then wal_next_seq nd.wal else req.from_seq in
        let from =
          if has Flag.all_keys h.flags
          then start
          else from_index (index_range nd.wal.index h.partition_key start) start in
        if c.sub.active || c.sub.waiting
        then reply_err nd c Refusal.unsupported h.sequence
        else subscribe_from nd c h req from
            (cursor_seek m.kernel m.crc (fresh nd) nd.wal cursor_init from scratch_len)
  ]

  -- The rest of a READ once its cursor is placed.
  abbrev pub read_from : Node m → ConnSlot → Header → ℕ → Sought → Node m × ConnSlot
  read_from nd c h min_seq (o, cursor, err code detail) =
      reply_err (record nd { world = o.world }) (with_sub c (λ s. record s { cursor = cursor }))
        Refusal.no_history h.sequence
  read_from nd c h min_seq (o, cursor, ok _) =
      let nd1 = record nd { world = o.world } in
      let c1 = with_sub c (λ s. record s { cursor = cursor }) in
      if ltb c.sub.until min_seq then sub_wait nd1 c1 else (
        nd1,
        (reply (with_sub c1 (λ s. record s { active = true })) Op.ack 0 cursor.next_seq []).0,
      )

  -- A READ walks from here, up to `until`.
  abbrev pub read_walks : Node m → ConnSlot → Header → ℕ → ℕ → ℕ → ℕ → Node m × ConnSlot
  read_walks nd c h min_seq until from scratch_len =
      read_from nd (with_sub c (λ s. record s { until = until })) h min_seq
        (cursor_seek m.kernel m.crc (fresh nd) nd.wal cursor_init from scratch_len)

  -- A key that is not in a complete index: there is nothing to read.
  abbrev pub read_nothing : Node m → ConnSlot → Node m × ConnSlot
  read_nothing nd c = (
    nd,
    (reply
        (with_sub c
          (λ s. record s { until = 0; cursor = record s.cursor { next_seq = 1 }; active = true }))
        Op.ack 0 0 []).0,
  )

  -- The walk bounded by what the index knows of the key.
  abbrev pub read_indexed : Node m → ConnSlot → Header → ℕ → ℕ → Option (ℕ × ℕ) → Node m × ConnSlot
  read_indexed nd c h min_seq scratch_len (some (key_from, key_last)) =
      let until = if ltb key_last c.sub.until then key_last else c.sub.until in
      read_walks nd c h min_seq until key_from scratch_len
  read_indexed nd c h min_seq scratch_len none =
      if index_complete nd.wal.index
      then read_nothing nd c
      else read_walks nd c h min_seq c.sub.until (wal_first_seq nd.wal) scratch_len

  unfoldable pub handle_read : Node m → ConnSlot → Header → Option (List ℕ) → ℕ → Node m × ConnSlot
  unfolding sub_wait
  handle_read nd c h payload scratch_len = elim (msg_decode_read payload) [
    | none ↦ refuse_and_close m nd c Refusal.payload_too_big h.sequence
    | some req ↦
        let first = wal_first_seq nd.wal in
        let c1 = with_sub c (λ s. record s {
          key = h.partition_key;
          all_keys = has Flag.all_keys h.flags;
          min_seq = req.min_seq;
          once = true;
          until = wal_durable_seq nd.wal;
        }) in
        if c.sub.active || c.sub.waiting
        then reply_err nd c Refusal.unsupported h.sequence
        else if has Flag.all_keys h.flags
        then read_walks nd c1 h req.min_seq (wal_durable_seq nd.wal) first scratch_len
        else read_indexed nd c1 h req.min_seq scratch_len
            (index_range nd.wal.index h.partition_key first)
  ]

  -- The cursor of a stream that ends closed.
  abbrev pub end_stream : Node m → ConnSlot → Node m × ConnSlot
  end_stream nd c =
      let (o, cursor, closed) = cursor_close m.kernel m.crc (fresh nd) c.sub.cursor in
      (record nd { world = o.world }, with_sub c (λ s. record s { cursor = cursor }))

  -- A stream that waits for `min_seq`.
  unfoldable pub push_waiting : ℕ → Node m → ConnSlot → Node m × ConnSlot
  push_waiting durable nd c =
      if leb c.sub.min_seq durable
      then (
        record nd { progress = true },
        (reply
            (with_sub c (λ s. record s {
              waiting = false;
              active = true;
              until = if s.once then durable else s.until;
            }))
            Op.ack 0 c.sub.cursor.next_seq []).0,
      )
      else if leb c.sub.deadline nd.tick
      then (let (nd1, c1) =
            reply_err nd (with_sub c (λ s. record s { waiting = false })) Refusal.behind
              c.sub.min_seq in
          end_stream nd1 c1)
      else (nd, c)

  -- What the slot makes of a read.
  abbrev pub push_read : Node m → ConnSlot → ReadDone m.kernel m.crc → Node m × ConnSlot
  push_read nd c (o, cursor, err code detail) =
      refuse_and_close m (record nd { world = o.world })
        (with_sub c (λ s. record s { cursor = cursor })) Refusal.no_history cursor.next_seq
  push_read nd c (o, cursor, ok got) =
      let (c1, n) =
        push_records (length got) (with_sub c (λ s. record s { cursor = cursor })) 0 got in
      (
        counting
            (record nd {
              world = o.world;
              progress = if ltb 0 (length got) then true else nd.progress;
            })
            (λ k. record k { notified = u64 (k.notified + n) }),
        c1,
      )

  -- The records up to `limit` for which the send buffer has room.
  unfoldable pub push_stream : ℕ → ℕ → Node m → ConnSlot → Node m × ConnSlot
  push_stream limit scratch_len nd c =
      let room = c.send_cap - length c.staged in
      push_read nd c (
        wal_cursor_read m.kernel m.crc (fresh nd) nd.wal c.sub.cursor limit
          (if ltb scratch_len room then scratch_len else room))

  -- The end of a read.
  unfoldable pub push_last : Node m → ConnSlot → Node m × ConnSlot
  push_last nd c =
      end_stream nd
        (with_sub (reply c Op.notify Flag.last c.sub.until []).0 (λ s. record s { active = false }))

  abbrev pub with_limit : ℕ → Node m × ConnSlot → ℕ × Node m × ConnSlot
  with_limit limit (nd, c) = (limit, nd, c)

  -- A slot, with the limit that the slots before it leave, and the one for those behind it.
  unfoldable pub push_slot : ℕ → ℕ → Node m → ConnSlot → ℕ × Node m × ConnSlot
  unfolding push_waiting push_stream push_last
  push_slot durable scratch_len nd c =
      let limit = if c.sub.once && ltb c.sub.until durable then c.sub.until else durable in
      if not c.in_use || c.closing
      then (durable, nd, c)
      else if c.sub.waiting
      then with_limit durable (push_waiting durable nd c)
      else if not c.sub.active || c.want_out
      then (durable, nd, c)
      else if ltb (c.send_cap - length c.staged) msg_header_size
      then (durable, nd, c)
      else if c.sub.once && ltb c.sub.until c.sub.cursor.next_seq
      then with_limit durable (push_last nd c)
      else with_limit limit (push_stream limit scratch_len nd c)

  pub push_all : ℕ → ℕ → Node m → List ConnSlot → Node m × List ConnSlot
  unfolding push_slot
  push_all durable scratch_len nd [] = (nd, [])
  push_all durable scratch_len nd (c ∷ cs) =
      let (durable1, nd1, c1) = push_slot durable scratch_len nd c in
      let (nd2, cs1) = push_all durable1 scratch_len nd1 cs in (nd2, c1 ∷ cs1)

  unfoldable pub subs_push : Node m → List ConnSlot → ℕ → Node m × List ConnSlot
  unfolding push_all
  subs_push nd conns scratch_len = push_all (wal_durable_seq nd.wal) scratch_len nd conns
