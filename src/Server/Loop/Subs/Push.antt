-- ===== src/Server/Loop/Subs/Push.antt =====
-- What is pushed to a subscriber: every record that it follows, and none dropped.
use msgsrvd.Prelude.{
  ℕ, suc, ◌+◌, ◌≤◌, ◌≡◌, Bool, true, ◌||◌, none, List, [], ◌∷◌, ◌++◌, length, take, drop, ◌==◌,
  if◌then◌else◌, u64, int32,
}
use msgsrvd.Core.Err.{ok, err}
use msgsrvd.Proto.Op
use msgsrvd.Proto.Refusal
use msgsrvd.Proto.Msg.{header_bytes}
use msgsrvd.Proto.Msg.Payload.{msg_header_new}
use msgsrvd.Wal.Record.{Rec, rec_size, rec_header_size}
use msgsrvd.Wal.Cursor.Read.{ReadDone}
use msgsrvd.Wal.Cursor.Read.Runs.{IsRun}
use msgsrvd.Server.Loop.{ConnSlot, Machine, Node}
use msgsrvd.Server.Loop.Reply.{stage_err}
use msgsrvd.Server.Loop.Subs.{with_sub}

-- The NOTIFY frame of a record whose bytes begin here.
abbrev pub notify_frame : Rec → List ℕ → List ℕ
notify_frame r bytes =
    header_bytes (msg_header_new Op.notify r.record_type 0 r.len r.partition_key r.seq)
    ++ take r.len (drop rec_header_size bytes)

abbrev pub is_followed : Bool → ℕ → Rec → Bool
is_followed all_keys key r = all_keys || r.partition_key == key

-- The frames of the records that a subscription follows, in order, and their number.
abbrev pub frames : Bool → ℕ → List ℕ → List Rec → List ℕ
frames all_keys key bytes [] = []
frames all_keys key bytes (r ∷ rs) =
    (if is_followed all_keys key r then notify_frame r bytes else [])
    ++ frames all_keys key (drop (rec_size (int32 r.len)) bytes) rs

abbrev pub count_followed : Bool → ℕ → List Rec → ℕ
count_followed all_keys key [] = 0
count_followed all_keys key (r ∷ rs) =
    if is_followed all_keys key r
    then suc (count_followed all_keys key rs)
    else count_followed all_keys key rs

-- The slot after its frames are staged, and the number of them on top of `n`.
abbrev pub staged_with : ConnSlot → List ℕ → ConnSlot
staged_with c bytes = record c { staged = c.staged ++ bytes }

-- What a stream makes of a read. An answer with bytes: they are a run of records from where the cursor
-- stood; those that the subscription follows are staged as NOTIFY frames in order and counted, with
-- the payloads that stand in these bytes; and the cursor is the one that the read returned. A read
-- that fails is refused and ends the connection.
abbrev pub IsPushed :
    {m : Machine} → ℕ → Node m → ConnSlot → ReadDone m.kernel m.crc → Node m → ConnSlot → Type 0
IsPushed limit nd c (o, cursor, err code detail) nd' c' =
    let refused = stage_err (with_sub c (λ s. record s { cursor = cursor })) Refusal.no_history in
    c' ≡ record (refused cursor.next_seq none) { closing = true }
IsPushed limit nd c (o, cursor, ok bytes) nd' c' =
    (recs : List Rec) × IsRun c.sub.cursor.next_seq limit bytes recs
    × (c' ≡ record c {
      staged = c.staged ++ frames c.sub.all_keys c.sub.key bytes recs;
      sub = record c.sub { cursor = cursor };
    })
    × (length c'.staged ≤ c.send_cap)
    × (nd'.counters.notified
        ≡ u64 (nd.counters.notified + count_followed c.sub.all_keys c.sub.key recs))
    × (nd'.world ≡ o.world)
    × (cursor.next_seq ≡ c.sub.cursor.next_seq + length recs)
