-- ===== src/Wal/Cursor.antt =====
-- src/wal/wal.h and wal.c: the plain readings of the log, and a cursor over its segments.
pub mod Walked
pub mod Seek
pub mod Read
pub mod Examples
use msgsrvd.Prelude.{
  ℕ, zero, suc, ◌+◌, ◌-◌, Bool, true, false, ◌||◌, not, Option, none, some, List, [], ◌∷◌, length,
  get_or, ltb, leb, ◌==◌, if◌then◌else◌, u64, ℤ, pos, negsuc, int32,
}
use msgsrvd.Core.Crc32c.{CrcUnit}
use msgsrvd.Core.Err.{invalid, storage, Result, ok, err, no_detail, int}
use msgsrvd.Sys.Os.{Kernel, Os, os_push, os_openat, os_close, os_pread_full}
use msgsrvd.Wal.Record.{Rec, rec_size, rec_decode, rec_is_end, rec_header_size}
use msgsrvd.Wal.Segment.{seg_name, seg_close}
use msgsrvd.Wal.Log.{Wal}

unfoldable pub wal_durable_seq : Wal → ℕ
wal_durable_seq w = w.active.durable_seq

unfoldable pub wal_next_seq : Wal → ℕ
wal_next_seq w = w.active.next_seq

-- 0 where there is no segment.
unfoldable pub wal_first_seq : Wal → ℕ
wal_first_seq w = get_or w.seg_base 0 0

unfoldable pub wal_segments : Wal → ℕ
wal_segments w = length w.seg_base

-- The last entry at or below the sequence, which is what the loop from the end finds first: its
-- position.
pub seg_index_of : List ℕ → ℕ → Option ℕ
seg_index_of [] seq = none
seg_index_of (b ∷ bs) seq = elim (seg_index_of bs seq) [
  | some i ↦ some (suc i)
  | none ↦ if leb b seq then some 0 else none
]

pub record Cursor : Type 0 where
  pub fd : ℤ
  pub seg_base : ℕ
  pub off : ℕ
  pub next_seq : ℕ

unfoldable pub cursor_init : Cursor
cursor_init = record { fd = negsuc 0; seg_base = 0; off = 0; next_seq = 0 }

module _ (k : Kernel) (hw : CrcUnit) where
  -- The close of a descriptor that is open, its result ignored.
  abbrev pub close_open : Os k → ℤ → Os k
  close_open o (negsuc n) = o
  close_open o (pos n) = (os_close k o (pos n)).0

  pub cursor_open_seg : Os k → Wal → Cursor → ℕ → Os k × Cursor × Result (Unit {0})
  cursor_open_seg o w c base =
      let (o1, opened) = os_openat k o w.dir_fd (seg_name base) 524_288 0 in
      elim opened [
        | err code detail ↦ (os_push k o1 storage no_detail, c, err code detail)
        | ok fd ↦ (close_open o1 c.fd, record c { fd = fd; seg_base = base; off = 0 }, ok tt)
      ]

  unfoldable pub cursor_close : Os k → Cursor → Os k × Cursor × Result (Unit {0})
  cursor_close o c = elim c.fd [
    | negsuc n ↦ (o, cursor_init, ok tt)
    | pos n ↦ let (o1, closed) = os_close k o c.fd in (o1, cursor_init, closed)
  ]

  -- A header of the walk that does not continue the segment.
  abbrev pub seek_fails : Os k → Cursor → Os k × Cursor × Result (Unit {0})
  seek_fails o c = (os_push k o storage (int (pos c.next_seq)), c, err storage 0)

  -- The cursor behind a record.
  abbrev pub step_over : Cursor → ℕ → Cursor
  step_over c size = record c { off = c.off + size; next_seq = u64 (c.next_seq + 1) }

  -- The record whose header was read, or none.
  abbrev pub header_of : List ℕ → Option Rec
  header_of got = if ltb (length got) rec_header_size then none else rec_decode got

  -- The walk over the headers of the segment. It moves on by a sequence in each turn, so as many
  -- turns as sequences are to go are enough.
  pub seek_loop : ℕ → Os k → Cursor → ℕ → Os k × Cursor × Result (Unit {0})
  seek_loop zero o c seq = (o, c, ok tt)
  seek_loop (suc turns) o c seq = elim (ltb c.next_seq seq) [
    | false ↦ (o, c, ok tt)
    | true ↦
        let (o1, read) = os_pread_full k o c.fd rec_header_size c.off in
        elim read [
          | err code detail ↦ (o1, c, err code detail)
          | ok got ↦ elim (header_of got) [
            | none ↦ seek_fails o1 c
            | some r ↦
                let size = rec_size (int32 r.len) in
                elim (rec_is_end r || (size == 0 || not (r.seq == c.next_seq))) [
                  | true ↦ seek_fails o1 c
                  | false ↦ seek_loop turns o1 (step_over c size) seq
                ]
          ]
        ]
  ]

  -- A seek that is refused.
  abbrev pub seek_refused : Os k → Cursor → ℕ → Os k × Cursor × Result (Unit {0})
  seek_refused o c seq = (os_push k o invalid (int (pos seq)), c, err invalid 0)

  -- The walk, once the segment is open.
  abbrev pub seek_from :
      ℕ → ℕ → Os k × Cursor × Result (Unit {0}) → Os k × Cursor × Result (Unit {0})
  seek_from base seq (o, c, err code detail) = (o, c, err code detail)
  seek_from base seq (o, c, ok _) = seek_loop (seq - base) o (record c { next_seq = base }) seq

  pub cursor_seek : Os k → Wal → Cursor → ℕ → ℕ → Os k × Cursor × Result (Unit {0})
  unfolding seg_index_of seek_loop cursor_open_seg
  cursor_seek o w c seq scratch_len =
      if ltb scratch_len rec_header_size
      then (os_push k o invalid no_detail, c, err invalid 0)
      else if ltb seq (wal_first_seq w) || ltb (wal_next_seq w) seq
      then seek_refused o c seq
      else elim (seg_index_of w.seg_base seq) [
        | none ↦ seek_refused o c seq
        | some i ↦
            let base = get_or w.seg_base i 0 in seek_from base seq (cursor_open_seg o w c base)
      ]

  -- The descriptors that are open are closed; the directory's result is ignored.
  unfoldable pub wal_close : Os k → Wal → Os k × Wal × Result (Unit {0})
  wal_close o w =
      let (o1, seg, closed) = seg_close k hw o w.active in
      (
        close_open o1 w.dir_fd,
        record w {
          active = seg;
          dir_fd = elim w.dir_fd [ negsuc n ↦ negsuc n | pos n ↦ negsuc 0 ];
        },
        closed,
      )
