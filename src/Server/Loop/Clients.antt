-- ===== src/Server/Loop/Clients.antt =====
-- src/server/loop.c: HELLO and WRITE.
-- A payload is its bytes, none for a null pointer. What the scratch buffer holds is written before
-- it is read, so each handler is handed it anew.
pub mod Writes
use msgsrvd.Prelude.{
  ℕ, zero, suc, ◌+◌, ◌%◌, Bool, true, false, not, ◌&&◌, ◌||◌, Option, none, some, List, [], ◌∷◌,
  length, get_or, ltb, leb, ◌==◌, if◌then◌else◌, u64, u32, has,
}
use msgsrvd.Core.Err.{ErrCode, invalid, Result, ok, err}
use msgsrvd.Sys.Net.{os_random_u64}
use msgsrvd.Proto.Flag
use msgsrvd.Proto.Refusal
use msgsrvd.Proto.Msg.{Header}
use msgsrvd.Proto.Msg.Payload.{Hello, msg_decode_hello, msg_hello_valid}
use msgsrvd.Wal.Record.{Rec}
use msgsrvd.Wal.Log.{WalAppended, wal_append}
use msgsrvd.Wal.Cursor.{wal_durable_seq}
use msgsrvd.Server.Session.{
  Table, Session, session_lookup, session_create, session_touch, pick_id, update_at, no_session,
}
use msgsrvd.Server.Loop.{ConnSlot, Machine, Node, counting, fresh}
use msgsrvd.Server.Loop.Reply.{reply_ack, reply_err, reply_err_text}
use msgsrvd.Server.Loop.Acks.{repl_live, any_live, ack_write}

abbrev pub session_at : Table → ℕ → Session
session_at t i = get_or t.entries i no_session

abbrev pub is_invalid : ErrCode → Bool
is_invalid invalid = true
is_invalid _ = false

-- The flags that an acknowledgement can repeat: ACK_REQ, SYNC and REPLICATED, the three lowest.
abbrev pub ack_flags_of : ℕ → ℕ
ack_flags_of flags = flags % 8

-- The record of a write, as it is handed to the log.
abbrev pub write_record : ConnSlot → Header → ℕ → Rec
write_record c h payload_len = record {
  crc = 0;
  len = u32 payload_len;
  term = 1;
  seq = 0;
  session = c.session;
  client_seq = h.sequence;
  record_type = h.record_type;
  flags = h.flags;
  pad = 0;
  partition_key = h.partition_key;
}

module _ (m : Machine) where
  -- A refusal that ends the connection.
  abbrev pub refuse_and_close : Node m → ConnSlot → ℕ → ℕ → Node m × ConnSlot
  refuse_and_close nd c code sequence =
      let (nd1, c1) = reply_err nd c code sequence in (nd1, record c1 { closing = true })

  -- The draws of `session_create`, up to the first that it takes.
  pub draw_ids : ℕ → m.kernel.World → Table → m.kernel.World × List ℕ
  draw_ids zero w t = (w, [])
  draw_ids (suc tries) w t =
      let (w1, id) = os_random_u64 m.kernel m.net w in
      elim (pick_id t (id ∷ [])) [
        | some _ ↦ (w1, id ∷ [])
        | none ↦ let (w2, ids) = draw_ids tries w1 t in (w2, id ∷ ids)
      ]

  -- The connection opened on the session at `i`.
  abbrev pub greet : Node m → ConnSlot → ℕ → Node m × ConnSlot
  greet nd c i =
      let s = session_at nd.sessions i in
      (nd, reply_ack (record c { session = s.id }) Flag.ack_req s.id s.last_client_seq)

  abbrev pub hello_new : Node m → ConnSlot → ℕ → Table × Option ℕ → Node m × ConnSlot
  hello_new nd c sequence (t, none) =
      refuse_and_close (record nd { sessions = t }) c Refusal.session_unknown sequence
  hello_new nd c sequence (t, some i) = greet (record nd { sessions = t }) c i

  abbrev pub hello_resume : Node m → ConnSlot → ℕ → Option ℕ → Node m × ConnSlot
  hello_resume nd c sequence none = reply_err nd c Refusal.session_unknown sequence
  hello_resume nd c sequence (some i) = greet nd c i

  unfoldable pub hello_open : Node m → ConnSlot → Header → Hello → Node m × ConnSlot
  unfolding draw_ids
  hello_open nd c h hello =
      if hello.session == 0
      then (let (w, ids) = draw_ids 8 nd.world nd.sessions in
          hello_new (record nd { world = w }) c h.sequence (session_create nd.sessions ids))
      else hello_resume nd c h.sequence (session_lookup nd.sessions hello.session)

  unfoldable pub handle_hello : Node m → ConnSlot → Header → Option (List ℕ) → ℕ → Node m × ConnSlot
  unfolding hello_open
  handle_hello nd c h payload payload_len = elim (msg_decode_hello payload) [
    | none ↦ refuse_and_close nd c Refusal.payload_too_big h.sequence
    | some hello ↦
        if msg_hello_valid hello payload_len
        then hello_open nd c h hello
        else refuse_and_close nd c Refusal.payload_too_big h.sequence
  ]

  -- The acknowledgement owed, where the write asked for one.
  unfoldable pub ack_asked : Node m → ConnSlot → Header → ℕ → ℕ → Node m × ConnSlot
  ack_asked nd c h client_seq wal_seq =
      if has Flag.ack_req h.flags
      then ack_write nd c (ack_flags_of h.flags) (has Flag.replicated h.flags)
          (has Flag.allow_degraded h.flags) client_seq wal_seq
      else (nd, c)

  -- A resend of something that the session has already.
  unfoldable pub write_again : Node m → ConnSlot → Header → ℕ → Node m × ConnSlot
  unfolding ack_asked
  write_again nd c h i =
      ack_asked (counting nd (λ k. record k { dedup_hits = u64 (k.dedup_hits + 1) })) c h
        (session_at nd.sessions i).last_client_seq (wal_durable_seq nd.wal)

  -- What is kept of a record that the log has taken.
  abbrev pub written : Node m → ℕ → ℕ → WalAppended m.kernel m.crc → Node m
  written nd i client_seq a =
      counting
        (record nd {
          world = a.os.world;
          wal = a.wal;
          wal_dirty = true;
          sessions =
              session_touch
                (update_at nd.sessions i (λ s. record s { last_client_seq = client_seq })) i;
        })
        (λ k. record k { writes = u64 (k.writes + 1) })

  -- The rest of a write, by what the log answered.
  abbrev pub after_append :
      Node m
      → ConnSlot
      → Header
      → ℕ
      → WalAppended m.kernel m.crc
      → Result (Unit {0})
      → Node m × ConnSlot
  after_append nd c h i a (err code detail) =
      reply_err (record nd { world = a.os.world; wal = a.wal }) c
        (if is_invalid code then Refusal.payload_too_big else Refusal.storage) h.sequence
  after_append nd c h i a (ok _) = ack_asked (written nd i h.sequence a) c h h.sequence a.r.seq

  -- A record appended and the answer to it.
  unfoldable pub write_new :
      Node m → ConnSlot → Header → ℕ → Option (List ℕ) → ℕ → List ℕ → Node m × ConnSlot
  unfolding ack_asked
  write_new nd c h i payload payload_len scratch =
      let a =
        wal_append m.kernel m.crc (fresh nd) nd.wal (write_record c h payload_len) payload
          scratch in
      after_append nd c h i a a.status

  -- A write on the session at `i`.
  unfoldable pub write_on :
      Node m → ConnSlot → Header → ℕ → Option (List ℕ) → ℕ → List ℕ → Node m × ConnSlot
  unfolding write_new write_again
  write_on nd c h i payload payload_len scratch =
      if nd.is_follower
      then reply_err_text nd c Refusal.not_leader h.sequence nd.leader_text
      else if has Flag.replicated h.flags
          && (not (repl_live nd) && not (has Flag.allow_degraded h.flags))
      then reply_err nd c Refusal.no_replicas h.sequence
      else if leb h.sequence (session_at nd.sessions i).last_client_seq
      then write_again nd c h i
      else write_new nd c h i payload payload_len scratch

  unfoldable pub handle_write :
      Node m → ConnSlot → Header → Option (List ℕ) → ℕ → List ℕ → Node m × ConnSlot
  unfolding write_on
  handle_write nd c h payload payload_len scratch = elim (session_lookup nd.sessions c.session) [
    | none ↦ refuse_and_close nd c Refusal.no_session h.sequence
    | some i ↦ write_on nd c h i payload payload_len scratch
  ]
