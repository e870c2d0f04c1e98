-- ===== src/Wal/Cursor/Seek.antt =====
-- Where a seek lands.
use msgsrvd.Prelude.{
  ℕ, zero, suc, ◌+◌, ◌-◌, ◌^◌, ◌≤◌, ◌<◌, ◌≡◌, ◌≢◌, ◌⊎◌, inl, inr, refl, ◌||◌, none, some, List, [],
  ◌∷◌, arith, length, get_or, ltb, leb, Bool-cases, ℤ, sym, ap, ◌∙◌, subst, if-cases,
}
use msgsrvd.Core.Crc32c.{CrcUnit}
use msgsrvd.Core.Err.{Err, Result, ok, err, errno, storage, no_detail}
use msgsrvd.Sys.Os.{Kernel, Answer, done, failed, finish, Os, Ran, os_push, os_openat}
use msgsrvd.Sys.Os.Full.{IsReader}
use msgsrvd.Wal.Record.{Rec, rec_header_size}
use msgsrvd.Wal.Segment.{seg_name}
use msgsrvd.Wal.Log.{Wal}
use msgsrvd.Wal.Cursor.{
  Cursor, seg_index_of, cursor_open_seg, close_open, wal_first_seq, wal_next_seq, seek_loop,
  seek_from, cursor_seek,
}
use msgsrvd.Wal.Cursor.Walked.{IsChain, seek_loop_lem}

above_suc :
    (b i seq : ℕ) (bs : List ℕ)
    → ((j : ℕ) → i ≤ j → j < length bs → seq < get_or bs j 0)
    → (j : ℕ) → suc i ≤ j
    → j < suc (length bs)
    → seq < get_or (b ∷ bs) j 0
above_suc b i seq bs above zero h k = absurd (omega arith)
above_suc b i seq bs above (suc j) h k = above j (omega arith) (omega arith)

all_above :
    (b seq : ℕ) (bs : List ℕ)
    → seq < b
    → ((j : ℕ) → j < length bs → seq < get_or bs j 0)
    → (j : ℕ) → j < suc (length bs)
    → seq < get_or (b ∷ bs) j 0
all_above b seq bs h above zero k = h
all_above b seq bs h above (suc j) k = above j (omega arith)

-- In any table: the segment found begins at or below the sequence and every later one above it, and
-- none is found only where all begin above it.
pub seg_index_of_lem :
    (bs : List ℕ) (seq : ℕ)
    → ((i : ℕ) × (seg_index_of bs seq ≡ some i)
        × (i < length bs)
        × (get_or bs i 0 ≤ seq)
        × ((j : ℕ) → i < j → j < length bs → seq < get_or bs j 0))
      ⊎ ((seg_index_of bs seq ≡ none) × ((j : ℕ) → j < length bs → seq < get_or bs j 0))
unfolding seg_index_of
seg_index_of_lem [] seq = inr (refl, λ j h. absurd (omega arith))
seg_index_of_lem (b ∷ bs) seq = elim (seg_index_of_lem bs seq) [
  | inl (i, e, inside, below, above) ↦
      inl (suc i, rw (seg_index_of, e) refl, omega arith, below, above_suc b (suc i) seq bs above)
  | inr (e, above) ↦ elim (Bool-cases (leb b seq)) [
    | inl here ↦ inl (
      0,
      rw (seg_index_of, e, here) refl,
      omega arith,
      ground arith,
      above_suc b 0 seq bs (λ j _. above j),
    )
    | inr high ↦ inr (rw (seg_index_of, e, high) refl, all_above b seq bs (ground arith) above)
  ]
]

module _ (k : Kernel) (hw : CrcUnit) (v : IsReader k) where
  -- Where a seek has landed: behind the records of a file that starts at `base` up to `seq`.
  abbrev pub IsLanded : ℕ → ℕ → Os k × Cursor × Result (Unit {0}) → Type 0
  IsLanded base seq (o, c, status) =
      (c.seg_base ≡ base)
      × (c.next_seq ≡ seq)
      × (recs : List Rec) × IsChain (v.file o.world c.fd) 0 base recs c.off
      × (base + length recs ≡ seq)

  -- The segment that holds a sequence: the last of the table that begins at it or below.
  abbrev pub IsHome : List ℕ → ℕ → ℕ → Type 0
  IsHome table seq base =
      (i : ℕ) × (i < length table)
      × (base ≡ get_or table i 0)
      × (base ≤ seq)
      × ((j : ℕ) → i < j → j < length table → seq < get_or table j 0)

  seek_from_lem :
      (base seq : ℕ) (a : Os k × Cursor × Result (Unit {0}))
      → (a.2 ≡ ok tt → v.IsReadable a.1.fd × (a.1.seg_base ≡ base) × (a.1.off ≡ 0))
      → seq < 2 ^ 64
      → base ≤ seq
      → (seek_from k hw base seq a).2 ≡ ok tt
      → IsLanded base seq (seek_from k hw base seq a)
  seek_from_lem base seq (o, c, err code detail) opened fits below = λ stopped. absurd (cc stopped)
  seek_from_lem base seq (o, c, ok u) opened fits below = λ e.
      let (here, in_base, front) = opened refl in
      let c0 = record c { next_seq = base } in
      let a = seek_loop k hw (seq - base) o c0 seq in
      let (same_fd, same_base, there, files, recs, chain, count) =
        seek_loop_lem k hw v (seq - base) o c0 seq here fits below (omega arith) e in
      let same : v.file o.world c.fd ≡ v.file a.0.world a.1.fd =
        sym (files c.fd) ∙ ap (λ (d : ℤ). v.file a.0.world d) (sym same_fd) in
      (
        same_base ∙ in_base,
        there,
        recs,
        subst (λ (xs : List ℕ). IsChain xs 0 base recs a.1.off) same
            (subst (λ (n : ℕ). IsChain (v.file o.world c.fd) n base recs a.1.off) front chain),
        count,
      )

  -- What openat(2) documents of O_RDONLY | O_CLOEXEC: a descriptor that it returns can be read from.
  abbrev pub OpensReadable : Type 0
  OpensReadable =
      (w : k.World) (dir : ℤ) (path : List ℕ) (d : ℤ)
      → (k.openat w dir path 524_288 0).1 ≡ done d
      → v.IsReadable d

  openat-readable :
      (e : Err) (P : ℤ → Type 0) (a : k.World × Answer ℤ)
      → ((d : ℤ) → a.1 ≡ done d → P d)
      → (d : ℤ) → (finish k e (λ n. errno n) a).1 ≡ ok d
      → P d
  openat-readable e P (w, failed n) opens d same = absurd (cc same)
  openat-readable e P (w, done d') opens d same = opens d (ap done (cc same))

  cursor_open_seg_lem :
      (opens : OpensReadable) (o : Os k) (w : Wal) (c : Cursor) (base : ℕ)
      → let a = cursor_open_seg k hw o w c base in
        a.2 ≡ ok tt → v.IsReadable a.1.fd × (a.1.seg_base ≡ base) × (a.1.off ≡ 0)
  unfolding cursor_open_seg os_openat
  cursor_open_seg_lem opens o w c base = go (os_openat k o w.dir_fd (seg_name base) 524_288 0) (
      openat-readable o.errors v.IsReadable (k.openat o.world w.dir_fd (seg_name base) 524_288 0)
        (opens o.world w.dir_fd (seg_name base)))
    where
      go :
          (r : Ran k ℤ)
          → ((d : ℤ) → r.1 ≡ ok d → v.IsReadable d)
          → let a = elim r.1 as (λ _. Os k × Cursor × Result (Unit {0})) [
            | err code detail ↦ (os_push k r.0 storage no_detail, c, err code detail)
            | ok fd ↦
                (close_open k hw r.0 c.fd, record c { fd = fd; seg_base = base; off = 0 }, ok tt)
          ] in
            a.2 ≡ ok tt → v.IsReadable a.1.fd × (a.1.seg_base ≡ base) × (a.1.off ≡ 0)
      go (o1, err code detail) opens = λ stopped. absurd (cc stopped)
      go (o1, ok fd) opens = λ _. (opens fd refl, refl, refl)

  fails_or : {P : Type 0} (r : Result (Unit {0})) → (r ≡ ok tt → P) → (r ≢ ok tt) ⊎ P
  fails_or (ok u) h = inr (h refl)
  fails_or (err code detail) h = inl (λ e. absurd (cc e))

  -- A seek that failed, or has landed in the segment that holds the sequence.
  abbrev pub IsSought : Wal → ℕ → Os k × Cursor × Result (Unit {0}) → Type 0
  IsSought w seq r = (r.2 ≢ ok tt) ⊎ ((base : ℕ) × IsHome w.seg_base seq base × IsLanded base seq r)

  -- Of a kernel whose openat returns descriptors that can be read, and whose reads answer as pread(2)
  -- documents, for a uint64_t sequence and whatever the files hold: a seek either fails, or leaves the
  -- cursor with exactly that sequence as the next to read, in the last segment of the table that
  -- begins at it or below, right behind the records numbered from the segment's base to the one
  -- before, which stand one after another in its file from the start.
  pub cursor_seek_lands :
      (opens : OpensReadable) (o : Os k) (w : Wal) (c : Cursor) (seq scratch_len : ℕ)
      → seq < 2 ^ 64
      → IsSought w seq (cursor_seek k hw o w c seq scratch_len)
  unfolding cursor_seek
  cursor_seek_lands opens o w c seq scratch_len fits =
      if-cases (IsSought w seq) (ltb scratch_len rec_header_size) (λ _. inl (λ e. absurd (cc e)))
        (λ _.
          if-cases (IsSought w seq) (ltb seq (wal_first_seq w) || ltb (wal_next_seq w) seq)
            (λ _. inl (λ e. absurd (cc e)))
            (λ _. elim (seg_index_of_lem w.seg_base seq) [
              | inr (missing, above) ↦ rw missing (inl (λ e. absurd (cc e)))
              | inl (i, found, inside, below, above) ↦
                  let base = get_or w.seg_base i 0 in
                  let a = cursor_open_seg k hw o w c base in
                  rw found
                    (elim (fails_or (seek_from k hw base seq a).2 (
                      seek_from_lem base seq a (cursor_open_seg_lem opens o w c base) fits below)) [
                        | inl stopped ↦ inl stopped
                        | inr lands ↦ inr (base, (i, inside, refl, below, above), lands)
                      ])
            ]))
