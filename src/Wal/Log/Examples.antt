-- ===== src/Wal/Log/Examples.antt =====
-- The log at concrete inputs.
use msgsrvd.Prelude.{
  ℕ, pos, suc, ◌≤◌, ◌<◌, ◌≡◌, ◌≢◌, ◌⊎◌, refl, some, List, [], ◌∷◌, ◌++◌, arith, drop, get_or,
  replicate,
}
use msgsrvd.Core.Crc32c.Bitwise.{bitwise_unit}
use msgsrvd.Core.Err.{ok, err, invalid}
use msgsrvd.Sys.Os.Examples.{slow_disk, fresh_os}
use msgsrvd.Wal.Record.Examples.{three_bytes, payload}
use msgsrvd.Wal.Index.{index_init}
use msgsrvd.Wal.Segment.{Seg, seg_reset, seg_name}
use msgsrvd.Wal.Segment.Invariant.{IsSeg, reset, IsReached-IsSeg}
use msgsrvd.Wal.Log.{Wal, parse_digits, seg_name_parse, wal_retain, wal_append, wal_append_at}
use msgsrvd.Wal.Log.Name.{seg_name_roundtrip}
use msgsrvd.Wal.Log.Table.{wal_retain_drops}
use msgsrvd.Wal.Log.Append.{IsNumbered, wal_append_numbers, wal_append_at-wal_append}

abbrev pub file : List ℕ
file = replicate 72 0

abbrev pub active : Seg
active = seg_reset (pos 4) (pos 3) 5 72

abbrev pub three_segments : Wal
three_segments = record {
  dir_fd = pos 3;
  seg_capacity = 72;
  active = active;
  seg_base = 1 ∷ 3 ∷ 5 ∷ [];
  index = index_init;
}

-- The number 2 ^ 64 + 1 in a name is taken for 1.
too_wide :
    seg_name_parse
      (49 ∷ 56 ∷ 52 ∷ 52 ∷ 54 ∷ 55 ∷ 52 ∷ 52 ∷ 48 ∷ 55 ∷ 51 ∷ 55 ∷ 48 ∷ 57 ∷ 53 ∷ 53 ∷ 49 ∷ 54 ∷ 49
        ∷ 55 ∷ 46 ∷ 115 ∷ 101 ∷ 103 ∷ 0 ∷ [])
      29
    ≡ some 1
unfolding seg_name_parse parse_digits
too_wide = refl

seg_name_roundtrip_example : seg_name_parse (seg_name 5 ++ (0 ∷ 7 ∷ [])) 29 ≡ some 5
seg_name_roundtrip_example =
    seg_name_roundtrip 5 29 (7 ∷ []) (omega arith) (omega arith) (omega arith)

wal_retain_drops_example :
    let (o', w', removed, status) =
      wal_retain slow_disk bitwise_unit (fresh_os file) three_segments 4 in
    (n : ℕ) × (w' ≡ record three_segments { seg_base = drop n (1 ∷ 3 ∷ 5 ∷ []) })
    × (n < 3)
    × ((i : ℕ) → i < n → get_or (1 ∷ 3 ∷ 5 ∷ []) (suc i) 0 ≤ 4)
    × (status ≡ ok tt → (removed ≡ n) × ((suc n ≡ 3) ⊎ (4 < get_or (1 ∷ 3 ∷ 5 ∷ []) (suc n) 0)))
wal_retain_drops_example =
    wal_retain_drops slow_disk bitwise_unit (fresh_os file) three_segments 4 (omega arith)

active-IsSeg : IsSeg active
active-IsSeg = IsReached-IsSeg slow_disk bitwise_unit active (reset (pos 4) (pos 3) 5 72)

wal_append_numbers_example : IsNumbered slow_disk bitwise_unit active.next_seq (
    wal_append slow_disk bitwise_unit
      (fresh_os file)
      three_segments
      three_bytes
      (some payload)
      file)
unfolding seg_reset
wal_append_numbers_example =
    wal_append_numbers slow_disk bitwise_unit (fresh_os file) three_segments three_bytes
      (some payload) file active-IsSeg (omega arith)

wal_append_at-wal_append_example :
    ((5 ≡ active.next_seq)
      × (wal_append_at slow_disk bitwise_unit
            (fresh_os file)
            three_segments
            three_bytes
            (some payload)
            file
          ≡ wal_append slow_disk bitwise_unit
              (fresh_os file)
              three_segments
              three_bytes
              (some payload)
              file))
    ⊎ ((5 ≢ active.next_seq)
        × ((wal_append_at slow_disk bitwise_unit
              (fresh_os file)
              three_segments
              three_bytes
              (some payload)
              file).status
            ≡ err invalid 0)
        × ((wal_append_at slow_disk bitwise_unit
              (fresh_os file)
              three_segments
              three_bytes
              (some payload)
              file).wal
            ≡ three_segments)
        × ((wal_append_at slow_disk bitwise_unit
              (fresh_os file)
              three_segments
              three_bytes
              (some payload)
              file).os.world
            ≡ file))
unfolding seg_reset
wal_append_at-wal_append_example =
    wal_append_at-wal_append slow_disk bitwise_unit (fresh_os file) three_segments three_bytes
      (some payload) file active-IsSeg (omega arith)
