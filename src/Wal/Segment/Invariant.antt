-- ===== src/Wal/Segment/Invariant.antt =====
-- What holds of a segment in every state that the operations reach.
use msgsrvd.Prelude.{
  ℕ, ℤ, zero, suc, ◌+◌, ◌-◌, ◌≤◌, ◌≡◌, refl, true, false, Option, none, some, List, arith, u64,
  pred64, ltb, ◌==◌, length, drop, min, inl, inr, Bool-cases, leb, if◌then◌else◌, pos, negsuc, ◌⊎◌,
  ◌≢◌, int32, ◌||◌, not,
}
use msgsrvd.Core.Crc32c.{CrcUnit}
use msgsrvd.Core.Err.{Result, ok, err, storage, offset}
use msgsrvd.Sys.Os.{Kernel, Os, Ran, os_push, os_pread_full, os_close}
use msgsrvd.Wal.Record.{
  Rec, rec_decode, rec_encode, rec_verify, rec_is_end, rec_size, rec_header_size,
}
use msgsrvd.Wal.Record.Codec.{rec_encode_total}
use msgsrvd.Wal.Segment.{
  Seg, seg_reset, after_block, walked, seg_append, seg_sync, seg_recover, seg_close, Stop, Look,
  stop, take_rec, more, ended, damaged, too_large, look, Tally, count_rec, scan_block, scan_blocks,
  Walked,
}

-- The synced part lies in the written part and that in the file; where all that is written is synced,
-- the durable sequence is the last that was given out.
pub record IsSeg (s : Seg) : Type 0 where
  pub synced_in : s.synced_off ≤ s.write_off
  pub written_in : s.write_off ≤ s.capacity
  pub settled : s.synced_off ≡ s.write_off → s.durable_seq ≡ pred64 s.next_seq

seg_reset-IsSeg :
    (fd dir_fd : ℤ) (base_seq capacity : ℕ) → IsSeg (seg_reset fd dir_fd base_seq capacity)
unfolding seg_reset
seg_reset-IsSeg fd dir_fd base_seq capacity = record {
  synced_in = omega arith;
  written_in = omega arith;
  settled = λ _. refl;
}

module _ (k : Kernel) (hw : CrcUnit) where
  pub seg_sync-IsSeg : (o : Os k) (s : Seg) → IsSeg s → IsSeg (seg_sync k hw o s).1
  unfolding seg_sync
  seg_sync-IsSeg o s v = record {
    synced_in = let a = v.synced_in in let b = v.written_in in let c = v.settled in ground arith;
    written_in = let a = v.synced_in in let b = v.written_in in let c = v.settled in ground arith;
    settled = let a = v.synced_in in let b = v.written_in in let c = v.settled in ground arith;
  }

  pub seg_append-IsSeg :
      (o : Os k) (s : Seg) (r : Rec) (payload : Option (List ℕ)) (scratch : List ℕ)
      → IsSeg s
      → IsSeg (seg_append k hw o s r payload scratch).seg
  unfolding seg_append
  seg_append-IsSeg o s r payload scratch v = record {
    synced_in = let a = v.synced_in in let b = v.written_in in let c = v.settled in ground arith;
    written_in = let a = v.synced_in in let b = v.written_in in let c = v.settled in ground arith;
    settled = let a = v.synced_in in let b = v.written_in in let c = v.settled in ground arith;
  }

  abbrev IsRoom : ℕ → ℕ → Look → Type 0
  IsRoom capacity here (stop why) = Unit
  IsRoom capacity here (take_rec size r) = here + size ≤ capacity

  look-IsRoom :
      (capacity off e : ℕ) (block : List ℕ) (at : ℕ)
      → IsRoom capacity (off + at) (look hw capacity off e block at)
  unfolding look
  look-IsRoom capacity off e block at = go (rec_decode (drop at block))
    where
      go :
          (d : Option Rec)
          → IsRoom capacity (off + at) (elim d [
            | none ↦ stop more
            | some r ↦
                let size = rec_size (int32 r.len) in
                if rec_is_end r
                then stop ended
                else if size == 0 || ltb capacity (off + at + size)
                then stop damaged
                else if ltb (length block) (at + size)
                then if at == 0 then stop (too_large size) else stop more
                else if not (rec_verify hw (drop at block) r) || not (r.seq == e)
                then stop damaged
                else take_rec size r
          ])
      go none = tt
      go (some r) = ground arith

  module _ {ℓ} {C : Type ℓ} (cb : C → Rec → C) where
    scan_block-IsRoom :
        (turns capacity off : ℕ) (block : List ℕ) (at : ℕ) (t : Tally C)
        → off + at ≤ capacity
        → off + (scan_block hw cb turns capacity off block at t).1 ≤ capacity
    unfolding scan_block
    scan_block-IsRoom zero capacity off block at t h = h
    scan_block-IsRoom (suc turns) capacity off block at t h =
        elim (Bool-cases (ltb (length block) (at + rec_header_size))) [
          | inl short ↦ rw (scan_block, short) h
          | inr room ↦
              rw (scan_block, room)
                (go (look hw capacity off t.expected block at)
                  (look-IsRoom capacity off t.expected block at)
                  (λ size r fits.
                    scan_block-IsRoom turns capacity off block (at + size) (count_rec hw cb t r)
                      (omega arith)))
        ]
      where
        go :
            (l : Look)
            → IsRoom capacity (off + at) l
            → ((size : ℕ) (r : Rec)
                → off + at + size ≤ capacity
                → off
                    + (scan_block hw cb turns capacity off block
                        (at + size)
                        (count_rec hw cb t r)).1
                  ≤ capacity)
            → off
                + (elim l as (λ _. Stop × ℕ × Tally C) [
                  | stop why ↦ (why, at, t)
                  | take_rec size r ↦
                      scan_block hw cb turns capacity off block (at + size) (count_rec hw cb t r)
                ]).1
              ≤ capacity
        go (stop why) fits next = h
        go (take_rec size r) fits next = next size r fits

    after_block-IsRoom :
        (capacity : ℕ) (o : Os k) (off : ℕ) (next : ℕ → Tally C → Walked k hw cb)
        (w : Stop × ℕ × Tally C)
        → off ≤ capacity
        → off + w.1 ≤ capacity
        → ((here : ℕ) (t : Tally C) → here ≤ capacity → (next here t).off ≤ capacity)
        → (after_block k hw cb o off next w).off ≤ capacity
    after_block-IsRoom capacity o off next (too_large size, at, t) h h' on = h
    after_block-IsRoom capacity o off next (ended, at, t) h h' on = h'
    after_block-IsRoom capacity o off next (damaged, at, t) h h' on = h'
    after_block-IsRoom capacity o off next (more, at, t) h h' on = elim (Bool-cases (at == 0)) [
      | inl z ↦ rw (after_block, z) h
      | inr z ↦ rw (after_block, z) (on (off + at) t h')
    ]

    scan_blocks-IsRoom :
        (rounds : ℕ) (o : Os k) (fd : ℤ) (capacity m off : ℕ) (t : Tally C)
        → off ≤ capacity
        → (scan_blocks k hw cb rounds o fd capacity m off t).off ≤ capacity
    unfolding scan_blocks
    scan_blocks-IsRoom zero o fd capacity m off t h = h
    scan_blocks-IsRoom (suc rounds) o fd capacity m off t h = elim (Bool-cases (leb capacity off)) [
      | inl full ↦ rw (scan_blocks, full) h
      | inr rest ↦
          rw (scan_blocks, rest)
            (go (os_pread_full k o fd (min m (capacity - off)) off)
              (λ o1 here u room. scan_blocks-IsRoom rounds o1 fd capacity m here u room))
    ]
      where
        go :
            (read : Ran k (List ℕ))
            → ((o1 : Os k) (here : ℕ) (u : Tally C)
                → here ≤ capacity
                → (scan_blocks k hw cb rounds o1 fd capacity m here u).off ≤ capacity)
            → (elim read.1 as (λ _. Walked k hw cb) [
              | err code detail ↦ record {
                os = os_push k read.0 storage (offset off);
                off = off;
                torn = false;
                tally = t;
                status = err code detail;
              }
              | ok block ↦ elim (ltb (length block) rec_header_size) [
                | true ↦ walked k hw cb read.0 off false t
                | false ↦
                    after_block k hw cb read.0 off
                      (scan_blocks k hw cb rounds read.0 fd capacity m)
                      (scan_block hw cb (length block) capacity off block 0 t)
              ]
            ]).off
              ≤ capacity
        go (o1, err code detail) on = h
        go (o1, ok block) on = elim (Bool-cases (ltb (length block) rec_header_size)) [
          | inl short ↦ rw short h
          | inr wide ↦ rw wide (
              after_block-IsRoom capacity o1 off (scan_blocks k hw cb rounds o1 fd capacity m)
                (scan_block hw cb (length block) capacity off block 0 t) h
                (scan_block-IsRoom (length block) capacity off block 0 t (omega arith)) (on o1))
        ]

    seg_recover-IsSeg :
        (o : Os k) (s : Seg) (scratch_len : ℕ) (ctx : C)
        → IsSeg s
        → IsSeg (seg_recover k hw cb o s scratch_len ctx).1
    unfolding seg_recover
    seg_recover-IsSeg o s scratch_len ctx v =
        let start : Tally C = record { ctx = ctx; expected = s.base_seq; records = 0 } in
        let room =
          scan_blocks-IsRoom s.capacity o s.fd s.capacity scratch_len 0 start (omega arith) in
        let a = v.synced_in in
        let b = v.written_in in
        let c = v.settled in
        record { synced_in = ground arith; written_in = ground arith; settled = ground arith }

  -- The states that a segment goes through. A created or opened one is reset.
  pub data IsReached : Seg → Type 1 where
    reset :
        (fd dir_fd : ℤ) (base_seq capacity : ℕ) → IsReached (seg_reset fd dir_fd base_seq capacity)
    appended :
        (o : Os k) (s : Seg) (r : Rec) (payload : Option (List ℕ)) (scratch : List ℕ)
        → IsReached s
        → IsReached (seg_append k hw o s r payload scratch).seg
    synced : (o : Os k) (s : Seg) → IsReached s → IsReached (seg_sync k hw o s).1
    recovered :
        {C : Type 0} (cb : C → Rec → C) (o : Os k) (s : Seg) (scratch_len : ℕ) (ctx : C)
        → IsReached s
        → IsReached (seg_recover k hw cb o s scratch_len ctx).1
    closed : (o : Os k) (s : Seg) → IsReached s → IsReached (seg_close k hw o s).1

  pub seg_close-IsSeg : (o : Os k) (s : Seg) → IsSeg s → IsSeg (seg_close k hw o s).1
  unfolding seg_close
  seg_close-IsSeg o s v = go s.fd
    where
      go :
          (d : ℤ)
          → IsSeg
              (elim d as (λ _. Os k × Seg × Result (Unit {0})) [
                | negsuc n ↦ (o, s, ok tt)
                | pos n ↦
                    let (o1, done) = os_close k o s.fd in (o1, record s { fd = negsuc 0 }, done)
              ]).1
      go (pos n) = record {
        synced_in = v.synced_in;
        written_in = v.written_in;
        settled = v.settled;
      }
      go (negsuc n) = v

  -- However a segment has been created or opened, appended to, synced, recovered and closed, whatever
  -- the kernel answered and whatever bytes stood in the file: what is synced lies within what is
  -- written and that within the capacity, and where nothing is left to sync the durable sequence is
  -- the last one given out.
  pub IsReached-IsSeg : (s : Seg) → IsReached s → IsSeg s
  IsReached-IsSeg _ (reset fd dir_fd base_seq capacity) =
      seg_reset-IsSeg fd dir_fd base_seq capacity
  IsReached-IsSeg _ (appended o s r payload scratch h) =
      seg_append-IsSeg o s r payload scratch (IsReached-IsSeg s h)
  IsReached-IsSeg _ (synced o s h) = seg_sync-IsSeg o s (IsReached-IsSeg s h)
  IsReached-IsSeg _ (recovered cb o s scratch_len ctx h) =
      seg_recover-IsSeg cb o s scratch_len ctx (IsReached-IsSeg s h)
  IsReached-IsSeg _ (closed o s h) = seg_close-IsSeg o s (IsReached-IsSeg s h)

  -- An append either succeeds, gives the record the next sequence and moves the append point on by
  -- the record's size, within the capacity; or it fails and leaves the segment as it was.
  pub seg_append_moves :
      (o : Os k) (s : Seg) (r : Rec) (payload : Option (List ℕ)) (scratch : List ℕ)
      → let a = seg_append k hw o s r payload scratch in
        ((a.status ≡ ok tt)
          × (a.r.seq ≡ s.next_seq)
          × (a.seg ≡ record s {
            next_seq = u64 (s.next_seq + 1);
            write_off = s.write_off + rec_size (int32 r.len);
          })
          × (s.write_off + rec_size (int32 r.len) ≤ s.capacity))
        ⊎ ((a.status ≢ ok tt) × (a.seg ≡ s))
  unfolding seg_append
  seg_append_moves o s r payload scratch =
      let e = rec_encode hw scratch (record r { seq = s.next_seq }) payload in
      let (size, number) = rec_encode_total hw scratch (record r { seq = s.next_seq }) payload in
      ground arith
