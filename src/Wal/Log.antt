-- ===== src/Wal/Log.antt =====
-- src/wal/wal.h and wal.c: the log as a directory of segments.
pub mod Name
pub mod Table
pub mod Append
pub mod Kept
pub mod Examples
use msgsrvd.Prelude.{
  ℕ, zero, suc, ◌+◌, ◌-◌, ◌*◌, ◌/◌, ◌^◌, Bool, true, false, not, ◌&&◌, ◌||◌, Option, none, some,
  List, [], ◌∷◌, ◌++◌, length, take, drop, get_or, ltb, leb, ◌==◌, if◌then◌else◌, u64, ℤ, pos,
  negsuc, int32,
}
use msgsrvd.Core.Crc32c.{CrcUnit}
use msgsrvd.Core.Err.{ErrCode, invalid, storage, nomem, Result, ok, err, no_detail, int}
use msgsrvd.Sys.Os.{Kernel, Os, Ran, os_push, os_unlinkat, os_fsync}
use msgsrvd.Wal.Record.{Rec, rec_size}
use msgsrvd.Wal.Index.{Index, index_add}
use msgsrvd.Wal.Segment.{
  Seg, SegAppended, seg_name, seg_digits, seg_suffix, seg_fits, seg_create, seg_append, seg_sync,
  seg_close,
}

abbrev pub max_segments : ℕ
max_segments = 1024

abbrev pub seg_name_max : ℕ
seg_name_max = seg_digits + 5

-- The first seg_count entries of the table.
pub record Wal : Type 0 where
  pub dir_fd : ℤ
  pub seg_capacity : ℕ
  pub active : Seg
  pub seg_base : List ℕ
  pub index : Index

-- The digits of a segment's name, the highest first; the value so far is a uint64_t. The rest of the
-- name comes with the value.
pub parse_digits : ℕ → List ℕ → ℕ → Option (ℕ × List ℕ)
parse_digits zero name v = some (v, name)
parse_digits (suc n) [] v = none
parse_digits (suc n) (c ∷ name) v =
    let rest = parse_digits n name (u64 (v * 10 + (c - 48))) in
    if ltb c 48 || ltb 57 c then none else if ltb ((2 ^ 64 - 1) / 10) v then none else rest

-- The name is the bytes from its first to the end of the directory block, and `max` the bytes of its
-- entry.
pub seg_name_parse : List ℕ → ℕ → Option ℕ
unfolding parse_digits
seg_name_parse name max =
    if ltb max (seg_name_max - 1) then none else elim (parse_digits seg_digits name 0) [
      | none ↦ none
      | some (v, rest) ↦
          if get_or rest 0 0 == 46
            && (get_or rest 1 0 == 115
                && (get_or rest 2 0 == 101 && (get_or rest 3 0 == 103 && get_or rest 4 0 == 0)))
          then if v == 0 then none else some v
          else none
    ]

-- The walk to the place of a base, and the shift behind it.
pub table_insert : ℕ → List ℕ → List ℕ
table_insert base [] = base ∷ []
table_insert base (b ∷ bs) =
    let rest = table_insert base bs in
    if b == base then b ∷ bs else if ltb base b then base ∷ b ∷ bs else b ∷ rest

-- `none` where the table is full.
unfoldable pub seg_table_insert : List ℕ → ℕ → Option (List ℕ)
seg_table_insert table base =
    if leb max_segments (length table) then none else some (table_insert base table)

-- How many segments a retention pass drops.
pub retain_count : ℕ → List ℕ → ℕ
retain_count keep_from [] = 0
retain_count keep_from (b ∷ []) = 0
retain_count keep_from (b ∷ b' ∷ bs) =
    let rest = retain_count keep_from (b' ∷ bs) in if leb b' keep_from then suc rest else 0

unfoldable pub wal_retain_mark : Wal → ℕ → ℕ
wal_retain_mark w keep_segments =
    if keep_segments == 0 || leb (length w.seg_base) keep_segments
    then 0
    else get_or w.seg_base (length w.seg_base - keep_segments) 0

module _ (k : Kernel) (hw : CrcUnit) where
  -- The unlink loop over the bases to drop, with the number that are gone.
  pub unlink_all : Os k → ℤ → List ℕ → Os k × ℕ × Result (Unit {0})
  unlink_all o dir_fd [] = (o, 0, ok tt)
  unlink_all o dir_fd (b ∷ bs) =
      let (o1, unlinked) = os_unlinkat k o dir_fd (seg_name b) 0 in
      elim unlinked [
        | err code detail ↦ (o1, 0, err code detail)
        | ok _ ↦ let (o2, removed, status) = unlink_all o1 dir_fd bs in (o2, suc removed, status)
      ]

  -- The last flush, of the directory.
  abbrev pub after_flush : Wal → ℕ → Ran k (Unit {0}) → Os k × Wal × ℕ × Result (Unit {0})
  after_flush w n (o, err code detail) = (os_push k o storage no_detail, w, 0, err code detail)
  after_flush w n (o, ok _) = (o, w, n, ok tt)

  -- The table after the unlink loop: without the entries that are gone.
  abbrev pub after_unlink :
      Wal → ℕ → Os k × ℕ × Result (Unit {0}) → Os k × Wal × ℕ × Result (Unit {0})
  after_unlink w n (o, removed, err code detail) = (
    os_push k o storage no_detail,
    record w { seg_base = drop removed w.seg_base },
    removed,
    err code detail,
  )
  after_unlink w n (o, removed, ok _) =
      after_flush (record w { seg_base = drop n w.seg_base }) n (os_fsync k o w.dir_fd)

  -- The number removed is what `removed_out` is given, 0 where the last flush fails.
  pub wal_retain : Os k → Wal → ℕ → Os k × Wal × ℕ × Result (Unit {0})
  unfolding unlink_all retain_count
  wal_retain o w keep_from =
      let n = retain_count keep_from w.seg_base in
      elim (n == 0) [
        | true ↦ (o, w, 0, ok tt)
        | false ↦ after_unlink w n (unlink_all o w.dir_fd (take n w.seg_base))
      ]

  pub wal_sync : Os k → Wal → Os k × Wal × Result (Unit {0})
  wal_sync o w =
      let (o1, seg, status) = seg_sync k hw o w.active in (o1, record w { active = seg }, status)

  -- Make room by a new segment.
  pub roll_over : Os k → Wal → Os k × Wal × Result (Unit {0})
  unfolding wal_sync
  roll_over o w =
      if leb max_segments (length w.seg_base)
      then (os_push k o nomem (int (pos (length w.seg_base))), w, err nomem (length w.seg_base))
      else let (o1, w1, synced) = wal_sync o w in
        elim synced [
          | err code detail ↦ (o1, w1, err code detail)
          | ok _ ↦
              let next_base = u64 (w1.active.durable_seq + 1) in
              let (o2, seg, closed) = seg_close k hw o1 w1.active in
              elim closed [
                | err code detail ↦ (o2, record w1 { active = seg }, err code detail)
                | ok _ ↦
                    let (o3, made, created) =
                      seg_create k hw o2 w.dir_fd next_base w.seg_capacity in
                    elim made [
                      | none ↦ (o3, record w1 { active = seg }, created)
                      | some fresh ↦ (
                        o3,
                        record w1 { active = fresh; seg_base = w1.seg_base ++ (next_base ∷ []) },
                        created,
                      )
                    ]
              ]
        ]

  pub record WalAppended : Type 0 where
    pub os : Os k
    pub wal : Wal
    pub r : Rec
    pub scratch : List ℕ
    pub status : Result (Unit {0})

  -- The append proper, once the active segment has room.
  pub append_active : Os k → Wal → Rec → Option (List ℕ) → List ℕ → WalAppended
  append_active o w r payload scratch =
      let a = seg_append k hw o w.active r payload scratch in
      record {
        os = a.os;
        wal = elim a.status [
          | ok _ ↦ record w { active = a.seg; index = index_add w.index a.r }
          | err code detail ↦ record w { active = a.seg }
        ];
        r = a.r;
        scratch = a.scratch;
        status = a.status;
      }

  pub wal_append : Os k → Wal → Rec → Option (List ℕ) → List ℕ → WalAppended
  unfolding append_active roll_over
  wal_append o w r payload scratch =
      let size = rec_size (int32 r.len) in
      if size == 0 || ltb w.seg_capacity size
      then record {
        os = os_push k o invalid (int (pos r.len));
        wal = w;
        r = r;
        scratch = scratch;
        status = err invalid 0;
      }
      else if seg_fits w.active (int32 r.len)
      then append_active o w r payload scratch
      else let (o1, w1, rolled) = roll_over o w in
        elim rolled [
          | err code detail ↦ record {
            os = o1;
            wal = w1;
            r = r;
            scratch = scratch;
            status = err code detail;
          }
          | ok _ ↦ append_active o1 w1 r payload scratch
        ]

  pub wal_append_at : Os k → Wal → Rec → Option (List ℕ) → List ℕ → WalAppended
  unfolding wal_append
  wal_append_at o w r payload scratch =
      let a = wal_append o w r payload scratch in
      if not (r.seq == w.active.next_seq)
      then record {
        os = os_push k o invalid (int (pos r.seq));
        wal = w;
        r = r;
        scratch = scratch;
        status = err invalid 0;
      }
      else elim a.status [
        | err code detail ↦ a
        | ok _ ↦
            if not (a.r.seq == r.seq)
            then record a {
              os = os_push k a.os storage (int (pos a.r.seq));
              status = err storage 0;
            }
            else a
      ]
