-- ===== src/Wal/Cursor/Examples.antt =====
-- A cursor over a log of three segments.
use msgsrvd.Prelude.{
  ℕ, pos, replicate, List, ◌<◌, ◌≤◌, ◌≡◌, ◌⊎◌, refl, none, some, [], ◌∷◌, arith, get_or,
}
use msgsrvd.Core.Crc32c.Bitwise.{bitwise_unit}
use msgsrvd.Core.Err.{Result, ok}
use msgsrvd.Sys.Os.{Os, os_openat, os_pread_full, os_pread, pread_loop}
use msgsrvd.Sys.Os.Examples.{slow_disk, slow_disk-IsReader, slow_disk-IsBounded, fresh_os}
use msgsrvd.Wal.Record.{rec_encode, rec_decode, rec_size, rec_is_end}
use msgsrvd.Wal.Record.Examples.{three_bytes, payload}
use msgsrvd.Wal.Log.Examples.{three_segments}
use msgsrvd.Wal.Log.{Wal}
use msgsrvd.Wal.Cursor.{
  Cursor, cursor_init, cursor_seek, seg_index_of, wal_first_seq, wal_next_seq, cursor_open_seg,
  seek_loop,
}
use msgsrvd.Wal.Cursor.Read.{wal_cursor_read}
use msgsrvd.Wal.Cursor.Read.Runs.{IsAnswered, wal_cursor_read_runs}
use msgsrvd.Wal.Cursor.Seek.{IsSought, seg_index_of_lem, cursor_seek_lands}

seg_index_of_lem_example :
    ((i : ℕ) × (seg_index_of (1 ∷ 3 ∷ 5 ∷ []) 4 ≡ some i)
      × (i < 3)
      × (get_or (1 ∷ 3 ∷ 5 ∷ []) i 0 ≤ 4)
      × ((j : ℕ) → i < j → j < 3 → 4 < get_or (1 ∷ 3 ∷ 5 ∷ []) j 0))
    ⊎ ((seg_index_of (1 ∷ 3 ∷ 5 ∷ []) 4 ≡ none)
        × ((j : ℕ) → j < 3 → 4 < get_or (1 ∷ 3 ∷ 5 ∷ []) j 0))
seg_index_of_lem_example = seg_index_of_lem (1 ∷ 3 ∷ 5 ∷ []) 4

-- The record of the segment with base 5, encoded.
abbrev logged : List ℕ
logged = (rec_encode bitwise_unit (replicate 72 0) three_bytes (some payload)).buf

-- A file with the record of sequence 5 and three bytes of payload, padded to 64 bytes.
abbrev pub one_record : List ℕ
one_record = 0 ∷ 0 ∷ 0 ∷ 0 ∷ 3 ∷ 0 ∷ 0 ∷ 0 ∷ 1 ∷ 0 ∷ 0 ∷ 0 ∷ 0 ∷ 0 ∷ 0 ∷ 0 ∷ 5 ∷ replicate 47 0

-- The log with the record of sequence 5 taken.
abbrev one_more : Wal
one_more = record three_segments { active = record three_segments.active { next_seq = 6 } }

abbrev sought : Os slow_disk × Cursor × Result (Unit {0})
sought = cursor_seek slow_disk bitwise_unit (fresh_os one_record) one_more cursor_init 6 56

cursor_seek_lands_example : IsSought slow_disk bitwise_unit slow_disk-IsReader one_more 6 sought
cursor_seek_lands_example =
    cursor_seek_lands slow_disk bitwise_unit slow_disk-IsReader (λ w dir path d e. tt)
      (fresh_os one_record) one_more cursor_init 6 56 (omega arith)

-- The walk passes over the one record.
seek_walks :
    (sought.2 ≡ ok tt) × (sought.1 ≡ record { fd = pos 3; seg_base = 5; off = 64; next_seq = 6 })
unfolding cursor_seek wal_first_seq wal_next_seq os_openat os_pread_full os_pread pread_loop
    cursor_init cursor_open_seg seg_index_of seek_loop rec_decode rec_size rec_is_end
seek_walks = (refl, refl)

abbrev at_five : Cursor
at_five = record { fd = pos 4; seg_base = 5; off = 0; next_seq = 5 }

wal_cursor_read_runs_example :
    IsAnswered slow_disk bitwise_unit 5 5 1024
      (wal_cursor_read slow_disk bitwise_unit (fresh_os logged) three_segments at_five 5 1024)
wal_cursor_read_runs_example =
    wal_cursor_read_runs slow_disk bitwise_unit slow_disk-IsBounded (fresh_os logged) three_segments
      at_five 5 1024 (omega arith)
