-- ===== src/Server/Loop/Reply.antt =====
-- src/server/loop.c: frames staged in a connection's send buffer.
-- The result of a reply, FALSE where the buffer is full, is looked at by no caller.
use msgsrvd.Prelude.{
  ℕ, ◌+◌, ◌-◌, Bool, true, false, Option, none, some, List, [], ◌++◌, length, take, set, get_or,
  ltb, ◌==◌, if◌then◌else◌, u64, u32,
}
use msgsrvd.Proto.Op
use msgsrvd.Proto.Refusal
use msgsrvd.Proto.Msg.{header_bytes, msg_header_size, msg_max_err_text}
use msgsrvd.Proto.Msg.Payload.{ErrPayload, msg_header_new, err_bytes, ack_bytes}
use msgsrvd.Wal.Record.{Rec}
use msgsrvd.Server.Loop.{
  ConnSlot, Machine, Node, counting, refused_not_leader, refused_no_replicas, refused_behind,
  refused_no_history, refused_storage, refused_other,
}

unfoldable pub reply : ConnSlot → ℕ → ℕ → ℕ → List ℕ → ConnSlot × Bool
reply c op flags sequence payload =
    if ltb (c.send_cap - length c.staged) (msg_header_size + length payload) then (c, false) else (
      record c {
        staged =
            c.staged
            ++ (header_bytes (msg_header_new op 0 flags (u32 (length payload)) 0 sequence)
                ++ payload);
      },
      true,
    )

-- The payload is the bytes of the scratch buffer behind the record's header.
unfoldable pub reply_record : ConnSlot → Rec → List ℕ → ConnSlot × Bool
reply_record c r payload =
    if ltb (c.send_cap - length c.staged) (msg_header_size + r.len) then (c, false) else (
      record c {
        staged =
            c.staged
            ++ (header_bytes (msg_header_new Op.notify r.record_type 0 r.len r.partition_key r.seq)
                ++ take r.len payload);
      },
      true,
    )

unfoldable pub refused_kind : ℕ → ℕ
refused_kind code =
    if code == Refusal.not_leader
    then refused_not_leader
    else if code == Refusal.no_replicas
    then refused_no_replicas
    else if code == Refusal.behind
    then refused_behind
    else if code == Refusal.no_history
    then refused_no_history
    else if code == Refusal.storage
    then refused_storage
    else refused_other

-- One more in the counter at `i`.
abbrev pub bump : List ℕ → ℕ → List ℕ
bump counts i = set counts i (u64 (get_or counts i 0 + 1))

-- The text's bytes up to its NUL, 64 at most; none for a null pointer.
abbrev pub err_tail : Option (List ℕ) → List ℕ
err_tail none = []
err_tail (some text) = take msg_max_err_text text

-- The ERR frame staged.
unfoldable pub stage_err : ConnSlot → ℕ → ℕ → Option (List ℕ) → ConnSlot
unfolding reply
stage_err c code sequence text =
    let p : ErrPayload = record { code = code; text_len = length (err_tail text); pad = 0 } in
    (reply c Op.err 0 sequence (err_bytes p ++ err_tail text)).0

module _ {m : Machine} where
  unfoldable pub reply_err_text : Node m → ConnSlot → ℕ → ℕ → Option (List ℕ) → Node m × ConnSlot
  unfolding refused_kind stage_err
  reply_err_text nd c code sequence text = (
    counting nd (λ k. record k { refused = bump k.refused (refused_kind code) }),
    stage_err c code sequence text,
  )

  abbrev pub reply_err : Node m → ConnSlot → ℕ → ℕ → Node m × ConnSlot
  reply_err nd c code sequence = reply_err_text nd c code sequence none

abbrev pub reply_ack : ConnSlot → ℕ → ℕ → ℕ → ConnSlot
reply_ack c flags sequence client_seq =
    (reply c Op.ack flags sequence (ack_bytes (record { client_seq = client_seq }))).0
