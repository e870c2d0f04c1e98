-- ===== src/Wal/Segment/Examples.antt =====
-- A segment of 72 bytes that holds one record, on the disk of seven bytes a read.
use msgsrvd.Prelude.{
  ℕ, pos, suc, ◌+◌, ◌≤◌, ◌≡◌, ◌≢◌, ◌⊎◌, refl, some, false, Bool, List, [], ◌∷◌, ◌++◌, arith, length,
  take, drop, replicate, pred64, int32, length-append, take-le,
}
use msgsrvd.Core.Crc32c.Bitwise.{bitwise_unit}
use msgsrvd.Core.Err.{ok}
use msgsrvd.Sys.Os.Examples.{slow_disk, slow_disk-IsReader, fresh_os}
use msgsrvd.Wal.Record.{Rec, rec_max_size, rec_size}
use msgsrvd.Wal.Record.Size.{rec_size_fits}
use msgsrvd.Wal.Record.Codec.{disk_image, length-disk_image}
use msgsrvd.Wal.Record.Examples.{three_bytes, three_bytes-IsRec, payload}
use msgsrvd.Wal.Segment.{Seg, seg_reset, seg_recover, seg_append, seg_sync}
use msgsrvd.Wal.Segment.Scan.{advance, IsChain, IsEnd}
use msgsrvd.Wal.Segment.Block.{passed}
use msgsrvd.Wal.Segment.Recover.{seg_recover_exact}
use msgsrvd.Wal.Segment.Written.{IsLog, log_bytes, log_recovered}
use msgsrvd.Wal.Segment.Invariant.{
  IsSeg, reset, appended, synced, IsReached-IsSeg, seg_append_moves,
}

abbrev opened : Seg
opened = record {
  fd = pos 4;
  dir_fd = pos 3;
  base_seq = 5;
  next_seq = 5;
  durable_seq = 4;
  capacity = 72;
  write_off = 0;
  synced_off = 0;
}

abbrev one_record : List (Rec × List ℕ)
one_record = (three_bytes, payload) ∷ []

abbrev file : List ℕ
file = log_bytes bitwise_unit one_record ++ replicate 8 0

-- The callback counts.
abbrev count : ℕ → Rec → ℕ
count n r = suc n

one_record-IsLog : IsLog bitwise_unit 5 one_record
one_record-IsLog = (three_bytes-IsRec, omega arith, refl, refl, omega arith, tt)

length-file : length file ≡ 72
length-file =
    let front : List ℕ = log_bytes bitwise_unit one_record in
    omega (
      arith,
      length-append front (replicate 8 0),
      length-append (disk_image bitwise_unit three_bytes payload) [],
      length-disk_image bitwise_unit three_bytes payload (omega arith) refl,
      rec_size_fits 3 (omega arith),
    )

log_recovered_example :
    let (o', s', ctx', found) =
      seg_recover slow_disk bitwise_unit count (fresh_os file) opened rec_max_size 0 in
    (ctx' ≡ 1)
    × (found
        ≡ ok (record {
          records = 1;
          last_seq = 5;
          end_off = length (log_bytes bitwise_unit one_record);
          torn = false;
        }))
    × (s' ≡ record opened {
      next_seq = 6;
      durable_seq = 5;
      write_off = length (log_bytes bitwise_unit one_record);
      synced_off = length (log_bytes bitwise_unit one_record);
    })
log_recovered_example =
    log_recovered slow_disk bitwise_unit slow_disk-IsReader count (fresh_os file) opened
      rec_max_size 0 one_record 8 tt (omega (arith, length-file)) (omega arith) one_record-IsLog
      (take-le 72 file (omega (arith, length-file)))

seg_recover_exact_example :
    let (o', s', ctx', found) =
      seg_recover slow_disk bitwise_unit count (fresh_os file) opened rec_max_size 0 in
    (recs : List Rec) × (n : ℕ) × (torn : Bool) × IsChain bitwise_unit 5 (take 72 file) recs n
    × IsEnd bitwise_unit (advance 5 (length recs)) (drop n (take 72 file)) torn
    × (ctx' ≡ passed bitwise_unit count 0 recs)
    × (found
        ≡ ok (record {
          records = advance 0 (length recs);
          last_seq = pred64 (advance 5 (length recs));
          end_off = n;
          torn = torn;
        }))
    × (s' ≡ record opened {
      next_seq = advance 5 (length recs);
      durable_seq = pred64 (advance 5 (length recs));
      write_off = n;
      synced_off = n;
    })
seg_recover_exact_example =
    seg_recover_exact slow_disk bitwise_unit slow_disk-IsReader count (fresh_os file) opened
      rec_max_size 0 tt (omega (arith, length-file)) (omega arith)

abbrev appended_once : Seg
appended_once =
    (seg_append slow_disk bitwise_unit (fresh_os (replicate 72 0)) (seg_reset (pos 4) (pos 3) 5 72)
      three_bytes (some payload) (replicate 64 0)).seg

abbrev then_synced : Seg
then_synced = (seg_sync slow_disk bitwise_unit (fresh_os (replicate 72 0)) appended_once).1

IsReached-IsSeg_example : IsSeg then_synced
IsReached-IsSeg_example = IsReached-IsSeg slow_disk bitwise_unit then_synced (
    synced (fresh_os (replicate 72 0)) appended_once (
      appended (fresh_os (replicate 72 0)) (seg_reset (pos 4) (pos 3) 5 72) three_bytes
        (some payload) (replicate 64 0) (reset (pos 4) (pos 3) 5 72)))

seg_append_moves_example :
    let a =
      seg_append slow_disk bitwise_unit
        (fresh_os (replicate 72 0))
        opened
        three_bytes
        (some payload)
        (replicate 64 0) in
    ((a.status ≡ ok tt)
      × (a.r.seq ≡ 5)
      × (a.seg ≡ record opened { next_seq = 6; write_off = 0 + rec_size (int32 3) })
      × (0 + rec_size (int32 3) ≤ 72))
    ⊎ ((a.status ≢ ok tt) × (a.seg ≡ opened))
seg_append_moves_example =
    seg_append_moves slow_disk bitwise_unit (fresh_os (replicate 72 0)) opened three_bytes
      (some payload) (replicate 64 0)
