-- ===== src/Server/Loop/Follower.antt =====
-- src/server/loop.c: replication, from the follower's side.
pub mod Apply
use msgsrvd.Prelude.{
  ℕ, zero, suc, ◌+◌, ◌-◌, ◌*◌, Bool, true, false, not, ◌||◌, ◌&&◌, Option, none, some, List, [],
  ◌∷◌, ◌++◌, length, take, drop, ltb, leb, ◌==◌, if◌then◌else◌, u64, u32, int32, ℤ, pos, negsuc,
}
use msgsrvd.Core.Err.{Result, ok, err}
use msgsrvd.Sys.Os.{Os, Ran, os_close}
use msgsrvd.Sys.Net.{os_epoll_ctl, epoll_ctl_del, epoll_ctl_mod, epollin}
use msgsrvd.Proto.Op
use msgsrvd.Proto.Conn.{internal, conn_init}
use msgsrvd.Proto.Msg.{Header, header_bytes, msg_header_size}
use msgsrvd.Proto.Msg.Payload.{ErrPayload, msg_header_new, msg_decode_err}
use msgsrvd.Wal.Record.{Rec, rec_decode, rec_size, rec_verify, rec_header_size, payload_bytes}
use msgsrvd.Wal.Log.{WalAppended, wal_append_at}
use msgsrvd.Wal.Cursor.{wal_durable_seq, wal_next_seq}
use msgsrvd.Server.Session.{session_from_record}
use msgsrvd.Server.Loop.{Machine, Node, Stream, counting, fresh, loop_repl_cap, loop_redial_ticks}
use msgsrvd.Server.Loop.Retain.{say}
use msgsrvd.Server.Loop.Slots.{after, ud_make, op_stream}

-- The bytes of `stream_send_buf`.
abbrev pub stream_send_cap : ℕ
stream_send_cap = msg_header_size * 2

abbrev pub streaming : {m : Machine} → Node m → (Stream → Stream) → Node m
streaming nd f = record nd { stream = f nd.stream }

abbrev pub give_up : {m : Machine} → Node m → Node m
give_up nd = streaming nd (λ s. record s { closing = true })

-- One header-only frame staged, where there is room for it.
unfoldable pub stream_frame : {m : Machine} → Node m → ℕ → ℕ → Node m
stream_frame nd op sequence =
    if ltb (stream_send_cap - length nd.stream.staged) msg_header_size
    then nd
    else streaming nd
        (λ s. record s { staged = s.staged ++ header_bytes (msg_header_new op 0 0 0 0 sequence) })

unfoldable pub stream_report : {m : Machine} → Node m → Node m
unfolding stream_frame
stream_report nd =
    let durable = wal_durable_seq nd.wal in
    elim nd.stream.fd [
      | negsuc n ↦ nd
      | pos n ↦
          if nd.stream.connecting || nd.stream.closing
          then nd
          else if leb durable nd.stream.acked
          then nd
          else if ltb 0 (length nd.stream.staged)
          then nd
          else streaming (stream_frame nd Op.repl_ack durable) (λ s. record s { acked = durable })
    ]

module _ (m : Machine) where
  -- The descriptor closed and forgotten.
  abbrev pub close_stream : Node m → ℤ → Node m
  close_stream nd fd =
      let (o, ctl) = os_epoll_ctl m.kernel m.net (fresh nd) nd.epoll_fd epoll_ctl_del fd 0 0 in
      streaming (after m nd (os_close m.kernel o fd)) (λ s. record s { fd = negsuc 0 })

  unfoldable pub stream_release : Node m → Node m
  stream_release nd = elim nd.stream.fd [
    | negsuc n ↦ nd
    | pos n ↦
        if nd.stream.connecting
        then nd
        else streaming (close_stream nd (pos n)) (λ s. record s {
          closing = false;
          want_out = false;
          staged = [];
          next_dial = u32 (nd.tick + loop_redial_ticks);
        })
  ]

  -- A record that the log has taken.
  abbrev pub applied : Node m → WalAppended m.kernel m.crc → Node m
  applied nd a =
      counting
        (record nd {
          world = a.os.world;
          wal = a.wal;
          wal_dirty = true;
          sessions = session_from_record nd.sessions a.r;
          stream = record nd.stream { last_err = 0 };
        })
        (λ k. record k { repl_records = u64 (k.repl_records + 1) })

  -- The rest of the loop, by what the log answered.
  abbrev pub apply_next :
      Node m → WalAppended m.kernel m.crc → Result (Unit {0}) → (Node m → Node m) → Node m
  apply_next nd a (err code detail) next = give_up (record nd { world = a.os.world; wal = a.wal })
  apply_next nd a (ok _) next = next (applied nd a)

  -- The checks of a record before it is written.
  abbrev pub is_refused : Node m → List ℕ → Rec → Bool
  is_refused nd bytes r =
      let size = rec_size (int32 r.len) in
      size == 0
      || (ltb (length bytes) size
          || (not (rec_verify m.crc bytes r) || not (r.seq == wal_next_seq nd.wal)))

  -- The loop of `repl_apply` over the bytes that are left. It moves on by a record in each turn, so
  -- as many turns as bytes are enough.
  pub apply_loop : ℕ → Node m → List ℕ → List ℕ → Node m
  apply_loop zero nd bytes scratch = nd
  apply_loop (suc turns) nd bytes scratch = elim (ltb 0 (length bytes)) [
    | false ↦ nd
    | true ↦ elim (rec_decode bytes) [
      | none ↦ give_up nd
      | some r ↦ elim (is_refused nd bytes r) [
        | true ↦ give_up nd
        | false ↦
            let a =
              wal_append_at m.kernel m.crc (fresh nd) nd.wal r (some (drop rec_header_size bytes))
                scratch in
            apply_next nd a a.status
              (λ nd1. apply_loop turns nd1 (drop (rec_size (int32 r.len)) bytes) scratch)
      ]
    ]
  ]

  unfoldable pub repl_apply : Node m → List ℕ → List ℕ → Node m
  unfolding apply_loop
  repl_apply nd bytes scratch = apply_loop (length bytes) nd bytes scratch

  abbrev pub code_of : Option ErrPayload → ℕ
  code_of none = 0
  code_of (some p) = p.code

  -- A refusal of the leader's. The lines for the journal are an argument.
  unfoldable pub stream_refused : Node m → (ℕ → List ℕ) → ℕ → Node m
  stream_refused nd lines code = give_up (
      if code == nd.stream.last_err
      then nd
      else say m (streaming nd (λ s. record s { last_err = code })) (lines code))

  unfoldable pub on_stream_frame :
      Node m → (ℕ → List ℕ) → Header → Option (List ℕ) → List ℕ → Node m
  unfolding repl_apply stream_refused
  on_stream_frame nd lines h payload scratch =
      if h.op == Op.repl_data
      then repl_apply nd (payload_bytes payload) scratch
      else if h.op == Op.err
      then stream_refused nd lines (code_of (msg_decode_err payload))
      else give_up nd

  -- A dial that failed.
  abbrev pub dial_failed : Node m → ℤ → Node m
  dial_failed nd (negsuc n) = nd
  dial_failed nd (pos n) = close_stream nd (pos n)

  -- The stream opened on a connection that stands. The receive buffer is an argument.
  abbrev pub dial_done : Node m → List ℕ → Ran m.kernel (Unit {0}) → Node m
  dial_done nd buf (o, err code detail) =
      streaming (record nd { world = o.world })
        (λ s. record s { connecting = false; want_out = false; closing = true })
  dial_done nd buf (o, ok _) =
      stream_frame
        (streaming (record nd { world = o.world })
          (λ s. record s {
            connecting = false;
            want_out = false;
            conn = conn_init buf loop_repl_cap internal;
            staged = [];
            closing = false;
            acked = wal_durable_seq nd.wal;
          }))
        Op.repl_start (wal_next_seq nd.wal)

  -- `failed` where the result is negative.
  unfoldable pub on_repl_dial : Node m → List ℕ → Bool → Node m
  on_repl_dial nd buf failed =
      if failed
      then streaming (dial_failed nd nd.stream.fd) (λ s. record s {
        connecting = false;
        fd = negsuc 0;
        next_dial = u32 (nd.tick + loop_redial_ticks);
      })
      else dial_done nd buf (
          os_epoll_ctl m.kernel m.net (fresh nd) nd.epoll_fd epoll_ctl_mod nd.stream.fd epollin
            (ud_make op_stream 0))

  unfoldable pub on_repl_send : Node m → ℤ → Node m
  on_repl_send nd res = elim nd.stream.fd [
    | negsuc n ↦ nd
    | pos n ↦ elim res [
      | negsuc e ↦ give_up nd
      | pos sent ↦
          streaming nd (λ s. record s {
            staged = if ltb sent (length s.staged) then drop sent s.staged else [];
          })
    ]
  ]
