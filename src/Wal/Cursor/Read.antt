-- ===== src/Wal/Cursor/Read.antt =====
-- `wal_cursor_read` of src/wal/wal.c: whole records, in order, up to a sequence.
-- The buffer and the output pointer are never null; the answer is the bytes placed in the buffer.
pub mod Runs
use msgsrvd.Prelude.{
  ℕ, zero, suc, ◌+◌, Bool, true, false, Option, none, some, List, [], length, take, drop, get_or,
  ltb, ◌==◌, if◌then◌else◌, u64, ℤ, pos, negsuc, int32,
}
use msgsrvd.Core.Crc32c.{CrcUnit}
use msgsrvd.Core.Err.{invalid, storage, Result, ok, err, no_detail, int}
use msgsrvd.Sys.Os.{Kernel, Os, Ran, os_push, os_pread_full}
use msgsrvd.Wal.Record.{rec_size, rec_decode, rec_is_end}
use msgsrvd.Wal.Log.{Wal}
use msgsrvd.Wal.Cursor.{Cursor, wal_first_seq, seg_index_of, cursor_open_seg}

-- How a walk over the records of a read ends, with the sequence it has come to: behind `at` bytes,
-- or at a record that does not belong there, with the number for the error frame.
pub data Walk : Type 0 where
  walked : ℕ → ℕ → Walk
  broken : ℕ → ℕ → Walk

-- The inner loop, over the bytes from `at` on. It moves on by a byte at least in each turn, so as
-- many turns as bytes are enough.
unfoldable pub read_walk : ℕ → List ℕ → ℕ → ℕ → ℕ → Walk
read_walk zero rest next limit at = walked at next
read_walk (suc turns) rest next limit at = elim (rec_decode rest) [
  | none ↦ walked at next
  | some r ↦ elim (rec_is_end r) [
    | true ↦ walked at next
    | false ↦ elim (r.seq == next) [
      | false ↦ broken next next
      | true ↦ elim (ltb limit next) [
        | true ↦ walked at next
        | false ↦
            let size = rec_size (int32 r.len) in
            elim (size == 0) [
              | true ↦ broken next r.len
              | false ↦ elim (ltb (length rest) size) [
                | true ↦ walked at next
                | false ↦ read_walk turns (drop size rest) (u64 (next + 1)) limit (at + size)
              ]
            ]
      ]
    ]
  ]
]

module _ (k : Kernel) (hw : CrcUnit) where
  abbrev pub ReadDone : Type 0
  ReadDone = Os k × Cursor × Result (List ℕ)

  -- The next segment, where there is one and the cursor is not in it.
  abbrev pub after_open : Os k × Cursor × Result (Unit {0}) → (Os k → Cursor → ReadDone) → ReadDone
  after_open (o, c, err code detail) retry = (o, c, err code detail)
  after_open (o, c, ok _) retry = retry o c

  unfoldable pub next_segment : Os k → Wal → Cursor → (Os k → Cursor → ReadDone) → ReadDone
  next_segment o w c retry = elim (seg_index_of w.seg_base c.next_seq) [
    | none ↦ (o, c, ok [])
    | some i ↦ elim (get_or w.seg_base i 0 == c.seg_base) [
      | true ↦ (o, c, ok [])
      | false ↦ after_open (cursor_open_seg k hw o w c (get_or w.seg_base i 0)) retry
    ]
  ]

  -- The way out of the loop, with bytes or without.
  abbrev pub when_used : Bool → ReadDone → ReadDone → ReadDone
  when_used true out on = out
  when_used false out on = on

  -- The rest of an attempt, once the bytes are walked.
  abbrev pub after_walk :
      Os k → Wal → Cursor → List ℕ → (Os k → Cursor → ReadDone) → Walk → ReadDone
  after_walk o w c got retry (broken next detail) =
      (os_push k o storage (int (pos detail)), record c { next_seq = next }, err storage 0)
  after_walk o w c got retry (walked at next) =
      let c' = record c { off = c.off + at; next_seq = next } in
      when_used (ltb 0 at) (o, c', ok (take at got)) (next_segment o w c' retry)

  abbrev pub after_read : Wal → Cursor → ℕ → (Os k → Cursor → ReadDone) → Ran k (List ℕ) → ReadDone
  after_read w c limit retry (o, err code detail) = (o, c, err code detail)
  after_read w c limit retry (o, ok got) =
      after_walk o w c got retry (read_walk (length got) got c.next_seq limit 0)

  -- The attempts, two in all.
  unfoldable pub read_attempts : ℕ → Os k → Wal → Cursor → ℕ → ℕ → ReadDone
  unfolding read_walk next_segment
  read_attempts zero o w c limit buf_len = (o, c, ok [])
  read_attempts (suc attempts) o w c limit buf_len =
      after_read w c limit (λ o' c'. read_attempts attempts o' w c' limit buf_len)
        (os_pread_full k o c.fd buf_len c.off)

  abbrev pub read_refused : Os k → Cursor → ReadDone
  read_refused o c = (os_push k o invalid (int (pos c.next_seq)), c, err invalid 0)

  -- A cursor without a descriptor is refused.
  abbrev pub when_open : ℤ → Os k → Cursor → ReadDone → ReadDone
  when_open (negsuc n) o c r = (os_push k o invalid no_detail, c, err invalid 0)
  when_open (pos n) o c r = r

  unfoldable pub read_open : Os k → Wal → Cursor → ℕ → ℕ → ReadDone
  unfolding read_attempts
  read_open o w c limit buf_len = elim (ltb c.next_seq (wal_first_seq w)) [
    | true ↦ read_refused o c
    | false ↦ elim (ltb limit c.next_seq) [
      | true ↦ (o, c, ok [])
      | false ↦ read_attempts 2 o w c limit buf_len
    ]
  ]

  unfoldable pub wal_cursor_read : Os k → Wal → Cursor → ℕ → ℕ → ReadDone
  unfolding read_open
  wal_cursor_read o w c limit buf_len = when_open c.fd o c (read_open o w c limit buf_len)
