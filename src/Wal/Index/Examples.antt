-- ===== src/Wal/Index/Examples.antt =====
-- An index of three records.
use msgsrvd.Prelude.{ℕ, ◌≤◌, ◌≡◌, ◌≢◌, refl, List, [], ◌∷◌, arith, All}
use msgsrvd.Wal.Record.{Rec}
use msgsrvd.Wal.Index.{index_init, index_add, index_range, index_complete, find, seen_at}
use msgsrvd.Wal.Index.Cover.{index_of, index_range_sound, index_complete_sound}

abbrev rec_of : ℕ → ℕ → Rec
rec_of seq key = record {
  crc = 0;
  len = 0;
  term = 1;
  seq = seq;
  session = 7;
  client_seq = seq;
  record_type = 0;
  flags = 0;
  pad = 0;
  partition_key = key;
}

abbrev log : List Rec
log = rec_of 1 50 ∷ rec_of 2 60 ∷ rec_of 3 50 ∷ []

index_range_sound_example :
    (1 ≤ 1) × All (λ r. r.partition_key ≡ 50 → 1 ≤ r.seq → (1 ≤ r.seq) × (r.seq ≤ 3)) log
unfolding index_of index_init index_add index_range find seen_at
index_range_sound_example = index_range_sound log 50 1 (omega arith) (omega arith) refl

index_complete_sound_example : All (λ r. r.partition_key ≢ 70) log
unfolding index_of index_init index_add index_range index_complete find seen_at
index_complete_sound_example = index_complete_sound log 70 1 (omega arith) (omega arith) refl refl
