-- ===== src/Wal/Segment.antt =====
-- src/wal/segment.h and segment.c: one preallocated file of consecutive records.
-- int64_t offsets and capacities are naturals, since a capacity below a header is refused and no
-- sum of an offset and a record's size reaches 2 ^ 63; uint64_t sequences wrap.
pub mod Scan
pub mod Block
pub mod Recover
pub mod Written
pub mod Invariant
pub mod Steps
pub mod Examples
use msgsrvd.Prelude.{
  ℕ, zero, suc, ◌+◌, ◌-◌, ◌*◌, ◌/◌, ◌%◌, ◌^◌, Bool, true, false, not, ◌||◌, Option, none, some,
  List, [], ◌∷◌, ◌++◌, length, take, drop, ltb, leb, ◌==◌, if◌then◌else◌, u64, pred64, ℤ, pos,
  negsuc, int32, min,
}
use msgsrvd.Core.Crc32c.{CrcUnit}
use msgsrvd.Core.Err.{
  Err, ErrCode, invalid, storage, nomem, Result, ok, err, no_detail, int, offset,
}
use msgsrvd.Wal.Record.{
  Rec, Encoded, rec_header_size, rec_size, rec_decode, rec_is_end, rec_encode, rec_verify,
}
use msgsrvd.Sys.Os.{
  Kernel, Os, Ran, os_push, os_openat, os_close, os_fsync, os_fdatasync, os_fallocate,
  os_pread_full, os_pwrite_full,
}

pub record Seg : Type 0 where
  pub fd : ℤ
  pub dir_fd : ℤ
  pub base_seq : ℕ
  pub next_seq : ℕ
  pub durable_seq : ℕ
  pub capacity : ℕ
  pub write_off : ℕ
  pub synced_off : ℕ

abbrev pub seg_digits : ℕ
seg_digits = 20

-- ".seg"
abbrev pub seg_suffix : List ℕ
seg_suffix = 46 ∷ 115 ∷ 101 ∷ 103 ∷ []

-- The last `n` decimal digits, the highest first, in ASCII.
unfoldable pub seg_name_digits : ℕ → ℕ → List ℕ → List ℕ
seg_name_digits zero base_seq behind = behind
seg_name_digits (suc n) base_seq behind =
    seg_name_digits n (base_seq / 10) ((48 + base_seq % 10) ∷ behind)

unfoldable pub seg_name : ℕ → List ℕ
unfolding seg_name_digits
seg_name base_seq = seg_name_digits seg_digits base_seq seg_suffix

unfoldable pub seg_reset : ℤ → ℤ → ℕ → ℕ → Seg
seg_reset fd dir_fd base_seq capacity = record {
  fd = fd;
  dir_fd = dir_fd;
  base_seq = base_seq;
  next_seq = base_seq;
  durable_seq = pred64 base_seq;
  capacity = capacity;
  write_off = 0;
  synced_off = 0;
}

-- What a recovery scan found.
pub record Scanned : Type 0 where
  pub records : ℕ
  pub last_seq : ℕ
  pub end_off : ℕ
  pub torn : Bool

-- TRUE if a record with this payload still fits.
unfoldable pub seg_fits : Seg → ℤ → Bool
seg_fits s payload_len =
    let size = rec_size payload_len in
    if size == 0 then false else leb (s.write_off + size) s.capacity

-- How the walk over one block ended: out of the block, at the end or at damage, or before a record
-- that the whole of scratch cannot hold.
pub data Stop : Type 0 where
  more ended damaged : Stop
  too_large : ℕ → Stop

-- What the scan carries along: the caller's context, the next sequence and the count.
pub record Tally {ℓ} (C : Type ℓ) : Type ℓ where
  pub ctx : C
  pub expected : ℕ
  pub records : ℕ

-- One turn of the inner loop of `wal_seg_recover`: stop, or take a record of this size.
pub data Look : Type 0 where
  stop : Stop → Look
  take_rec : ℕ → Rec → Look

module _ (hw : CrcUnit) where
  -- The record at `at` of the block at `off`, against the segment's capacity. The loop's test
  -- leaves room for a header there, so the decode never fails.
  pub look : (capacity off expected : ℕ) → List ℕ → ℕ → Look
  look capacity off expected block at = elim (rec_decode (drop at block)) [
    | none ↦ stop more
    | some r ↦
        let size = rec_size (int32 r.len) in
        if rec_is_end r
        then stop ended
        else if size == 0 || ltb capacity (off + at + size)
        then stop damaged
        else if ltb (length block) (at + size)
        then if at == 0 then stop (too_large size) else stop more
        else if not (rec_verify hw (drop at block) r) || not (r.seq == expected)
        then stop damaged
        else take_rec size r
  ]

  module _ {ℓ} {C : Type ℓ} (cb : C → Rec → C) where
    abbrev pub count_rec : Tally C → Rec → Tally C
    count_rec t r = record {
      ctx = cb t.ctx r;
      expected = u64 (t.expected + 1);
      records = u64 (t.records + 1);
    }

    -- The inner loop, from `at` on. Each turn takes a header at least, so as many turns as the block
    -- has bytes are enough.
    pub scan_block : ℕ → (capacity off : ℕ) → List ℕ → ℕ → Tally C → Stop × ℕ × Tally C
    unfolding look
    scan_block zero capacity off block at t = (more, at, t)
    scan_block (suc turns) capacity off block at t =
        elim (ltb (length block) (at + rec_header_size)) [
          | true ↦ (more, at, t)
          | false ↦ elim (look capacity off t.expected block at) [
            | stop why ↦ (why, at, t)
            | take_rec size r ↦ scan_block turns capacity off block (at + size) (count_rec t r)
          ]
        ]

module _ (k : Kernel) (hw : CrcUnit) where
  -- The failure of a step of `wal_seg_create`: push and close.
  abbrev pub create_fails : Os k → ℤ → ErrCode → ℕ → Os k × Option Seg × Result (Unit {0})
  create_fails o fd code detail =
      ((os_close k (os_push k o storage no_detail) fd).0, none, err code detail)

  abbrev pub o_creat : ℕ
  o_creat = 524_482

  abbrev pub o_rdwr : ℕ
  o_rdwr = 524_290

  -- The segment is written only on success.
  pub seg_create : Os k → ℤ → ℕ → ℕ → Os k × Option Seg × Result (Unit {0})
  seg_create o dir_fd base_seq capacity =
      if base_seq == 0 || ltb capacity rec_header_size
      then (os_push k o invalid (int (pos capacity)), none, err invalid 0)
      else let (o1, opened) = os_openat k o dir_fd (seg_name base_seq) o_creat 384 in
        elim opened [
          | err code detail ↦ (os_push k o1 storage no_detail, none, err code detail)
          | ok fd ↦
              let (o2, allocated) = os_fallocate k o1 fd 0 0 capacity in
              elim allocated [
                | err code detail ↦ create_fails o2 fd code detail
                | ok _ ↦
                    let (o3, flushed) = os_fsync k o2 fd in
                    elim flushed [
                      | err code detail ↦ create_fails o3 fd code detail
                      | ok _ ↦
                          let (o4, named) = os_fsync k o3 dir_fd in
                          elim named [
                            | err code detail ↦ create_fails o4 fd code detail
                            | ok _ ↦ (o4, some (seg_reset fd dir_fd base_seq capacity), ok tt)
                          ]
                    ]
              ]
        ]

  pub seg_open : Os k → ℤ → ℕ → ℕ → Os k × Option Seg × Result (Unit {0})
  seg_open o dir_fd base_seq capacity =
      if base_seq == 0 || ltb capacity rec_header_size
      then (os_push k o invalid (int (pos capacity)), none, err invalid 0)
      else let (o1, opened) = os_openat k o dir_fd (seg_name base_seq) o_rdwr 0 in
        elim opened [
          | err code detail ↦ (os_push k o1 storage no_detail, none, err code detail)
          | ok fd ↦ (o1, some (seg_reset fd dir_fd base_seq capacity), ok tt)
        ]

  module _ {ℓ} {C : Type ℓ} (cb : C → Rec → C) where
    -- What the outer loop of `wal_seg_recover` leaves behind.
    pub record Walked : Type ℓ where
      pub os : Os k
      pub off : ℕ
      pub torn : Bool
      pub tally : Tally C
      pub status : Result (Unit {0})

    -- A loop that stops where it is, with no failure.
    abbrev pub walked : Os k → ℕ → Bool → Tally C → Walked
    walked o off torn t = record { os = o; off = off; torn = torn; tally = t; status = ok tt }

    -- The end of a round of the outer loop, after the walk over the block.
    abbrev pub after_block : Os k → ℕ → (ℕ → Tally C → Walked) → Stop × ℕ × Tally C → Walked
    after_block o off next (too_large size, at, t) = record {
      os = os_push k o nomem (int (pos size));
      off = off;
      torn = false;
      tally = t;
      status = err nomem size;
    }
    after_block o off next (ended, at, t) = walked o (off + at) false t
    after_block o off next (damaged, at, t) = walked o (off + at) true t
    after_block o off next (more, at, t) = elim (at == 0) [
      | true ↦ walked o off false t
      | false ↦ next (off + at) t
    ]

    -- The outer loop, a block at a time. Each round but the last takes a record, so as many rounds
    -- as the segment has bytes are enough.
    pub scan_blocks : ℕ → Os k → ℤ → (capacity scratch_len off : ℕ) → Tally C → Walked
    unfolding scan_block
    scan_blocks zero o fd capacity scratch_len off t = walked o off false t
    scan_blocks (suc rounds) o fd capacity scratch_len off t = elim (leb capacity off) [
      | true ↦ walked o off false t
      | false ↦
          let (o1, read) = os_pread_full k o fd (min scratch_len (capacity - off)) off in
          elim read [
            | err code detail ↦ record {
              os = os_push k o1 storage (offset off);
              off = off;
              torn = false;
              tally = t;
              status = err code detail;
            }
            | ok block ↦ elim (ltb (length block) rec_header_size) [
              | true ↦ walked o1 off false t
              | false ↦
                  after_block o1 off (scan_blocks rounds o1 fd capacity scratch_len)
                    (scan_block hw cb (length block) capacity off block 0 t)
            ]
          ]
    ]

    -- The context of the callback is the last but one component: records of a scan that fails later
    -- have been passed on already. A null callback leaves its context alone.
    pub seg_recover : Os k → Seg → ℕ → C → Os k × Seg × C × Result Scanned
    unfolding scan_blocks
    seg_recover o s scratch_len ctx =
        if ltb scratch_len rec_header_size
        then (os_push k o invalid (int (pos scratch_len)), s, ctx, err invalid 0)
        else let w =
            scan_blocks s.capacity o s.fd s.capacity scratch_len 0
              (record { ctx = ctx; expected = s.base_seq; records = 0 }) in
          elim w.status [
            | err code detail ↦ (w.os, s, w.tally.ctx, err code detail)
            | ok _ ↦ (
              w.os,
              record s {
                next_seq = w.tally.expected;
                durable_seq = pred64 w.tally.expected;
                write_off = w.off;
                synced_off = w.off;
              },
              w.tally.ctx,
              ok (record {
                records = w.tally.records;
                last_seq = pred64 w.tally.expected;
                end_off = w.off;
                torn = w.torn;
              }),
            )
          ]

  -- The record and the scratch buffer are the caller's and are left as written.
  pub record SegAppended : Type 0 where
    pub os : Os k
    pub seg : Seg
    pub r : Rec
    pub scratch : List ℕ
    pub status : Result (Unit {0})

  pub seg_append : Os k → Seg → Rec → Option (List ℕ) → List ℕ → SegAppended
  seg_append o s r0 payload scratch =
      let e = rec_encode hw scratch (record r0 { seq = s.next_seq }) payload in
      if e.total == 0
      then record {
        os = os_push k o nomem (int (pos e.r.len));
        seg = s;
        r = e.r;
        scratch = e.buf;
        status = err nomem 0;
      }
      else if ltb s.capacity (s.write_off + e.total)
      then record {
        os = os_push k o storage (offset s.write_off);
        seg = s;
        r = e.r;
        scratch = e.buf;
        status = err storage 0;
      }
      else let (o1, written) = os_pwrite_full k o s.fd (take e.total e.buf) s.write_off in
        elim written [
          | err code detail ↦ record {
            os = os_push k o1 storage (offset s.write_off);
            seg = s;
            r = e.r;
            scratch = e.buf;
            status = err code detail;
          }
          | ok _ ↦ record {
            os = o1;
            seg = record s { write_off = s.write_off + e.total; next_seq = u64 (s.next_seq + 1) };
            r = e.r;
            scratch = e.buf;
            status = ok tt;
          }
        ]

  pub seg_sync : Os k → Seg → Os k × Seg × Result (Unit {0})
  seg_sync o s =
      if s.synced_off == s.write_off
      then (o, s, ok tt)
      else let (o1, flushed) = os_fdatasync k o s.fd in
        elim flushed [
          | err code detail ↦ (os_push k o1 storage no_detail, s, err code detail)
          | ok _ ↦
              (o1, record s { synced_off = s.write_off; durable_seq = pred64 s.next_seq }, ok tt)
        ]

  pub seg_close : Os k → Seg → Os k × Seg × Result (Unit {0})
  seg_close o s = elim s.fd [
    | negsuc n ↦ (o, s, ok tt)
    | pos n ↦ let (o1, closed) = os_close k o s.fd in (o1, record s { fd = negsuc 0 }, closed)
  ]
