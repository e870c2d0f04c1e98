-- ===== src/Wal/Cursor/Read/Runs.antt =====
-- What a read by a cursor returns: whole records, numbered on from where the cursor stood.
use msgsrvd.Prelude.{
  ℕ, zero, suc, ◌+◌, ◌-◌, ◌^◌, ◌≤◌, ◌<◌, ◌≡◌, inl, inr, refl, ◌∙◌, Bool, true, false, some, List,
  [], ◌∷◌, arith, length, take, drop, get_or, ltb, ◌==◌, Bool-cases, Option-cases, int32, u64, pos,
  negsuc, length-drop, length-take, take-drop, subst, ℤ,
}
use msgsrvd.Core.Crc32c.{CrcUnit}
use msgsrvd.Core.Err.{Result, ok, err}
use msgsrvd.Sys.Os.{Kernel, Os, Ran, os_pread_full}
use msgsrvd.Sys.Os.Bounded.{IsBounded, AtMost, os_pread_full-AtMost}
use msgsrvd.Wal.Record.{Rec, rec_size, rec_decode, rec_is_end, rec_header_size}
use msgsrvd.Wal.Record.Size.{rec_size_bounds}
use msgsrvd.Wal.Record.Codec.{rec_decode-take}
use msgsrvd.Wal.Log.{Wal}
use msgsrvd.Wal.Cursor.{Cursor, wal_first_seq, seg_index_of, cursor_open_seg}
use msgsrvd.Wal.Cursor.Read.{
  Walk, walked, broken, read_walk, ReadDone, after_open, next_segment, after_walk, after_read,
  read_attempts, wal_cursor_read, read_open, when_open, when_used,
}

-- These records and nothing else are in the bytes, the first numbered `next` and none above `limit`.
abbrev pub IsRun : ℕ → ℕ → List ℕ → List Rec → Type 0
IsRun next limit bytes [] = bytes ≡ []
IsRun next limit bytes (r ∷ rs) =
    let size = rec_size (int32 r.len) in
    (rec_decode bytes ≡ some r)
    × (r.seq ≡ next)
    × (next ≤ limit)
    × (0 < size)
    × (size ≤ length bytes)
    × IsRun (u64 (next + 1)) limit (drop size bytes) rs

size_big : (r : Rec) → 0 < rec_size (int32 r.len) → rec_header_size ≤ rec_size (int32 r.len)
size_big r h = ground (arith, rec_size_bounds r.len)

-- One record more in front of a run that is cut behind its bytes.
IsRun-cons :
    (next limit n : ℕ) (rest : List ℕ) (r : Rec) (recs : List Rec)
    → rec_decode rest ≡ some r
    → r.seq ≡ next
    → next ≤ limit
    → 0 < rec_size (int32 r.len)
    → rec_size (int32 r.len) + n ≤ length rest
    → IsRun (u64 (next + 1)) limit (take n (drop (rec_size (int32 r.len)) rest)) recs
    → IsRun next limit (take (rec_size (int32 r.len) + n) rest) (r ∷ recs)
IsRun-cons next limit n rest r recs found e below some_bytes fits run =
    let size = rec_size (int32 r.len) in
    (
      rec_decode-take (size + n) rest (omega (arith, size_big r some_bytes)) ∙ found,
      e,
      below,
      some_bytes,
      omega (arith, length-take (size + n) rest),
      subst (λ (xs : List ℕ). IsRun (u64 (next + 1)) limit xs recs) (take-drop n size rest) run,
    )

-- What the walk has passed over from `at` on.
abbrev IsWalk : ℕ → ℕ → List ℕ → ℕ → Walk → Type 0
IsWalk next limit rest at (broken n d) = Unit
IsWalk next limit rest at (walked at' next') =
    (recs : List Rec) × (n : ℕ) × (at' ≡ at + n)
    × (n ≤ length rest)
    × IsRun next limit (take n rest) recs
    × (next' ≡ next + length recs)

IsWalk-none : (next limit at : ℕ) (rest : List ℕ) → IsWalk next limit rest at (walked at next)
IsWalk-none next limit at rest = ([], 0, omega arith, omega arith, refl, omega arith)

IsWalk-cons :
    (next limit at : ℕ) (rest : List ℕ) (r : Rec) (k : Walk)
    → limit < 2 ^ 64 - 1
    → rec_decode rest ≡ some r
    → r.seq ≡ next
    → next ≤ limit
    → 0 < rec_size (int32 r.len)
    → rec_size (int32 r.len) ≤ length rest
    → IsWalk
        (u64 (next + 1))
        limit
        (drop (rec_size (int32 r.len)) rest)
        (at + rec_size (int32 r.len))
        k
    → IsWalk next limit rest at k
IsWalk-cons next limit at rest r (broken n d) top found e below more fits h = tt
IsWalk-cons next limit at rest r (walked at' next') top found e below more fits h =
    let (recs, n, here, inside, run, count) = h in
    let size = rec_size (int32 r.len) in
    let all_in : size + n ≤ length rest = omega (arith, inside, length-drop size rest) in
    (
      r ∷ recs,
      size + n,
      omega (arith, here),
      all_in,
      IsRun-cons next limit n rest r recs found e below more all_in run,
      omega (arith, count),
    )

read_walk_lem :
    (turns : ℕ) (rest : List ℕ) (next limit at : ℕ)
    → limit < 2 ^ 64 - 1
    → IsWalk next limit rest at (read_walk turns rest next limit at)
unfolding read_walk
read_walk_lem zero rest next limit at top = IsWalk-none next limit at rest
read_walk_lem (suc turns) rest next limit at top = elim (Option-cases (rec_decode rest)) [
  | inl missing ↦ rw (read_walk, missing) (IsWalk-none next limit at rest)
  | inr (r, found) ↦ elim (Bool-cases (rec_is_end r)) [
    | inl last ↦ rw (read_walk, found, last) (IsWalk-none next limit at rest)
    | inr live ↦ elim (Bool-cases (r.seq == next)) [
      | inr other ↦ rw (read_walk, found, live, other) tt
      | inl same ↦ elim (Bool-cases (ltb limit next)) [
        | inl above ↦ rw (read_walk, found, live, same, above) (IsWalk-none next limit at rest)
        | inr below ↦ elim (Bool-cases (rec_size (int32 r.len) == 0)) [
          | inl large ↦ rw (read_walk, found, live, same, below, large) tt
          | inr sized ↦ elim (Bool-cases (ltb (length rest) (rec_size (int32 r.len)))) [
            | inl cut ↦
                rw (read_walk, found, live, same, below, sized, cut)
                  (IsWalk-none next limit at rest)
            | inr whole ↦
                rw (read_walk, found, live, same, below, sized, whole)
                  (IsWalk-cons next limit at rest r _ top found (ground arith) (ground arith)
                    (ground arith) (ground arith)
                    (read_walk_lem turns (drop (rec_size (int32 r.len)) rest) (u64 (next + 1)) limit
                      (at + rec_size (int32 r.len)) top))
          ]
        ]
      ]
    ]
  ]
]

module _ (k : Kernel) (hw : CrcUnit) where
  -- What a read that is answered has done: the bytes are a run of records from where the cursor
  -- stood, and the cursor is numbered behind them.
  abbrev pub IsAnswered : ℕ → ℕ → ℕ → ReadDone k hw → Type 0
  IsAnswered next limit buf_len (o, c, err code detail) = Unit
  IsAnswered next limit buf_len (o, c, ok bytes) =
      (length bytes ≤ buf_len)
      × ((recs : List Rec) × IsRun next limit bytes recs × (c.next_seq ≡ next + length recs))

  IsAnswered-none :
      (o : Os k) (c : Cursor) (next limit buf_len : ℕ)
      → c.next_seq ≡ next
      → IsAnswered next limit buf_len (o, c, ok [])
  IsAnswered-none o c next limit buf_len e = (omega arith, ([], refl, omega arith))

  after_open-IsAnswered :
      (next limit buf_len : ℕ) (a : Os k × Cursor × Result (Unit {0}))
      (retry : Os k → Cursor → ReadDone k hw)
      → a.1.next_seq ≡ next
      → ((o : Os k) (c : Cursor) → c.next_seq ≡ next → IsAnswered next limit buf_len (retry o c))
      → IsAnswered next limit buf_len (after_open k hw a retry)
  after_open-IsAnswered next limit buf_len (o, c, err code detail) retry e h = tt
  after_open-IsAnswered next limit buf_len (o, c, ok _) retry e h = h o c e

  cursor_open_seg-next :
      (o : Os k) (w : Wal) (c : Cursor) (base : ℕ)
      → (cursor_open_seg k hw o w c base).1.next_seq ≡ c.next_seq
  unfolding cursor_open_seg
  cursor_open_seg-next o w c base = ground arith

  next_segment-IsAnswered :
      (o : Os k) (w : Wal) (c : Cursor) (next limit buf_len : ℕ)
      (retry : Os k → Cursor → ReadDone k hw)
      → c.next_seq ≡ next
      → ((o : Os k) (c : Cursor) → c.next_seq ≡ next → IsAnswered next limit buf_len (retry o c))
      → IsAnswered next limit buf_len (next_segment k hw o w c retry)
  unfolding next_segment
  next_segment-IsAnswered o w c next limit buf_len retry e h =
      elim (Option-cases (seg_index_of w.seg_base c.next_seq)) [
        | inl missing ↦ rw (next_segment, missing) (IsAnswered-none o c next limit buf_len e)
        | inr (i, found) ↦ elim (Bool-cases (get_or w.seg_base i 0 == c.seg_base)) [
          | inl same ↦ rw (next_segment, found, same) (IsAnswered-none o c next limit buf_len e)
          | inr other ↦
              rw (next_segment, found, other)
                (after_open-IsAnswered next limit buf_len _ retry (cursor_open_seg-next o w c _ ∙ e)
                  h)
        ]
      ]

  after_walk-IsAnswered :
      (o : Os k) (w : Wal) (c : Cursor) (got : List ℕ) (next limit buf_len : ℕ)
      (retry : Os k → Cursor → ReadDone k hw) (a : Walk)
      → length got ≤ buf_len
      → IsWalk next limit got 0 a
      → ((o : Os k) (c : Cursor) → c.next_seq ≡ next → IsAnswered next limit buf_len (retry o c))
      → IsAnswered next limit buf_len (after_walk k hw o w c got retry a)
  after_walk-IsAnswered o w c got next limit buf_len retry (broken n d) small h again = tt
  after_walk-IsAnswered o w c got next limit buf_len retry (walked at next') small h again =
      let (recs, n, here, inside, run, count) = h in
      let there : n ≡ at = omega (arith, here) in choose (ltb 0 at) refl recs n there run count
    where
      stay :
          (recs : List Rec) (n : ℕ)
          → n ≡ 0
          → IsRun next limit (take n got) recs
          → next' ≡ next + length recs
          → next' ≡ next
      stay [] n z run count = omega arith
      stay (r ∷ recs) n z run count = absurd (omega (arith, length-take n got, run.3, run.4))

      choose :
          (b : Bool)
          → ltb 0 at ≡ b
          → (recs : List Rec) (n : ℕ) → n ≡ at
          → IsRun next limit (take n got) recs
          → next' ≡ next + length recs
          → IsAnswered next limit buf_len (
              when_used k hw b
                (o, record c { off = c.off + at; next_seq = next' }, ok (take at got))
                (next_segment k hw o w (record c { off = c.off + at; next_seq = next' }) retry))
      choose true moved recs n there run count = (
        omega (arith, small, length-take at got),
        (recs, subst (λ (j : ℕ). IsRun next limit (take j got) recs) there run, count),
      )
      choose false stayed recs n there run count =
          next_segment-IsAnswered o w _ next limit buf_len retry
            (stay recs n (ground arith) run count) again

  after_read-IsAnswered :
      (w : Wal) (c : Cursor) (limit buf_len : ℕ) (retry : Os k → Cursor → ReadDone k hw)
      (a : Ran k (List ℕ))
      → limit < 2 ^ 64 - 1
      → AtMost k buf_len a
      → ((o : Os k) (c' : Cursor)
          → c'.next_seq ≡ c.next_seq
          → IsAnswered c.next_seq limit buf_len (retry o c'))
      → IsAnswered c.next_seq limit buf_len (after_read k hw w c limit retry a)
  after_read-IsAnswered w c limit buf_len retry (o, err code detail) top small h = tt
  after_read-IsAnswered w c limit buf_len retry (o, ok got) top small h =
      after_walk-IsAnswered o w c got c.next_seq limit buf_len retry _ small
        (read_walk_lem (length got) got c.next_seq limit 0 top) h

  when_open-IsAnswered :
      (d : ℤ) (o : Os k) (c : Cursor) (next limit buf_len : ℕ) (r : ReadDone k hw)
      → IsAnswered next limit buf_len r
      → IsAnswered next limit buf_len (when_open k hw d o c r)
  when_open-IsAnswered (negsuc n) o c next limit buf_len r h = tt
  when_open-IsAnswered (pos n) o c next limit buf_len r h = h

module _ (k : Kernel) (hw : CrcUnit) (v : IsBounded k) where
  read_attempts-IsAnswered :
      (attempts : ℕ) (o : Os k) (w : Wal) (c : Cursor) (next limit buf_len : ℕ)
      → limit < 2 ^ 64 - 1
      → c.next_seq ≡ next
      → IsAnswered k hw next limit buf_len (read_attempts k hw attempts o w c limit buf_len)
  unfolding read_attempts
  read_attempts-IsAnswered zero o w c next limit buf_len top e =
      IsAnswered-none k hw o c next limit buf_len e
  read_attempts-IsAnswered (suc attempts) o w c next limit buf_len top e =
      subst
        (λ (j : ℕ).
          IsAnswered k hw j limit buf_len (read_attempts k hw (suc attempts) o w c limit buf_len))
        e
        (after_read-IsAnswered k hw w c limit buf_len _ (os_pread_full k o c.fd buf_len c.off) top
          (os_pread_full-AtMost k v o c.fd buf_len c.off)
          (λ o' c' same.
            read_attempts-IsAnswered attempts o' w c' c.next_seq limit buf_len top same))

  read_open-IsAnswered :
      (o : Os k) (w : Wal) (c : Cursor) (limit buf_len : ℕ)
      → limit < 2 ^ 64 - 1
      → IsAnswered k hw c.next_seq limit buf_len (read_open k hw o w c limit buf_len)
  unfolding read_open
  read_open-IsAnswered o w c limit buf_len top =
      elim (Bool-cases (ltb c.next_seq (wal_first_seq w))) [
        | inl gone ↦ rw (read_open, gone) tt
        | inr held ↦ elim (Bool-cases (ltb limit c.next_seq)) [
          | inl beyond ↦
              rw (read_open, held, beyond) (IsAnswered-none k hw o c c.next_seq limit buf_len refl)
          | inr within ↦
              rw (read_open, held, within)
                (read_attempts-IsAnswered 2 o w c c.next_seq limit buf_len top refl)
        ]
      ]

  -- Over a kernel whose pread returns at most what it is asked for, and for a limit below the largest
  -- two sequences, whatever the disk holds: a read either fails or answers with at most `buf_len`
  -- bytes, which are whole records and nothing else, the first with the sequence at which the cursor
  -- stood and each next one numbered on, none above the limit, and it leaves the cursor at the
  -- sequence behind the last.
  pub wal_cursor_read_runs :
      (o : Os k) (w : Wal) (c : Cursor) (limit buf_len : ℕ)
      → limit < 2 ^ 64 - 1
      → IsAnswered k hw c.next_seq limit buf_len (wal_cursor_read k hw o w c limit buf_len)
  unfolding wal_cursor_read
  wal_cursor_read_runs o w c limit buf_len top =
      when_open-IsAnswered k hw c.fd o c c.next_seq limit buf_len _
        (read_open-IsAnswered o w c limit buf_len top)
