-- ===== src/Wal/Segment/Recover.antt =====
-- The recovery scan of a whole segment.
use msgsrvd.Prelude.{
  ℕ, ℤ, zero, suc, ◌+◌, ◌-◌, ◌≤◌, ◌<◌, ◌≡◌, inl, inr, refl, sym, ap, ◌∙◌, subst, Bool, false, List,
  [], ◌++◌, arith, length, take, drop, ltb, leb, ◌==◌, pred64, min, length-take, length-drop,
  drop-drop, Bool-cases,
}
use msgsrvd.Core.Crc32c.{CrcUnit}
use msgsrvd.Core.Err.{ok}
use msgsrvd.Sys.Os.{Kernel, Os, os_pread_full}
use msgsrvd.Sys.Os.Full.{IsReader, os_pread_full_exact}
use msgsrvd.Wal.Record.{Rec, rec_header_size, rec_max_size}
use msgsrvd.Wal.Segment.{
  Seg, Stop, more, ended, damaged, too_large, Tally, scan_block, Walked, after_block, scan_blocks,
  seg_recover,
}
use msgsrvd.Wal.Segment.Scan.{advance, IsChain, IsEnd}
use msgsrvd.Wal.Segment.Block.{
  tally_all, passed, IsWalk, scan_block_lem, tally_all-append, tally_all-expected, IsChain-append,
  block_read,
}

module _ {ℓ} (k : Kernel) (hw : CrcUnit) (v : IsReader k) {C : Type ℓ} (cb : C → Rec → C) where
  -- What the outer loop leaves behind, from `off` on.
  abbrev IsScan : List ℕ → ℕ → Tally C → Walked k hw cb → Type ℓ
  IsScan bytes off t w =
      (recs : List Rec) × (n : ℕ) × (w.off ≡ off + n)
      × (w.status ≡ ok tt)
      × (w.tally ≡ tally_all hw cb t recs)
      × IsChain hw t.expected (drop off bytes) recs n
      × IsEnd hw w.tally.expected (drop w.off bytes) w.torn

  at_front :
      (e off n : ℕ) (bytes : List ℕ) (recs : List Rec)
      → IsChain hw e (drop (off + 0) bytes) recs n
      → IsChain hw e (drop off bytes) recs n
  at_front e off n bytes recs h = subst (λ j. IsChain hw e (drop j bytes) recs n) (omega arith) h

  -- The end of a round.
  after_block_lem :
      (o : Os k) (off m len : ℕ) (bytes : List ℕ) (t : Tally C)
      (next : ℕ → Tally C → Walked k hw cb)
      → rec_header_size ≤ len
      → (w : Stop × ℕ × Tally C) → IsWalk hw cb off bytes len 0 t w
      → ((at : ℕ) (t' : Tally C)
          → 0 < at
          → at ≤ len
          → IsScan bytes (off + at) t' (next (off + at) t'))
      → IsScan bytes off t (after_block k hw cb o off next w)
  after_block_lem o off m len bytes t next wide (too_large size, at, t')
        (recs, n, e, inside, chain, same, why) on =
      absurd why
  after_block_lem o off m len bytes t next wide (ended, at, t')
        (recs, n, e, inside, chain, same, why) on =
      (recs, n, omega arith, refl, same, at_front t.expected off n bytes recs chain, why)
  after_block_lem o off m len bytes t next wide (damaged, at, t')
        (recs, n, e, inside, chain, same, why) on =
      (recs, n, omega arith, refl, same, at_front t.expected off n bytes recs chain, why)
  after_block_lem o off m len bytes t next wide (more, at, t')
        (recs, n, e, inside, chain, same, why) on =
      let moved : 0 < at = ground arith in
      let (recs', n', e', fine, same', chain', last) = on at t' moved inside in
      let stay : (at == 0) ≡ false = ground arith in
      let counted : t'.expected ≡ advance t.expected (length recs) =
        ap (λ u. u.expected) same ∙ (tally_all-expected hw cb t recs).0 in
      let there : drop (off + at) bytes ≡ drop n (drop off bytes) =
        ap (λ j. drop j bytes) (omega arith) ∙ sym (drop-drop n off bytes) in
      rw (after_block, stay)
        (
          recs ++ recs',
          n + n',
          omega arith,
          fine,
          same'
              ∙ ap (λ u. tally_all hw cb u recs') same
              ∙ sym (tally_all-append hw cb t recs recs'),
          IsChain-append hw cb t.expected (drop off bytes) recs recs' n n'
              (at_front t.expected off n bytes recs chain)
              (subst (λ j. IsChain hw j (drop n (drop off bytes)) recs' n') counted
                (subst (λ xs. IsChain hw t'.expected xs recs' n') there chain')),
          last,
        )

  scan_blocks_lem :
      (rounds : ℕ) (o : Os k) (fd : ℤ) (capacity m off : ℕ) (t : Tally C) (f : List ℕ)
      → v.IsReadable fd
      → v.file o.world fd ≡ f
      → capacity ≤ length f
      → rec_max_size ≤ m
      → off ≤ capacity
      → capacity ≤ rounds + off
      → IsScan (take capacity f) off t (scan_blocks k hw cb rounds o fd capacity m off t)
  unfolding scan_blocks
  scan_blocks_lem zero o fd capacity m off t f open_for same room big here enough = (
    [],
    0,
    omega arith,
    refl,
    refl,
    refl,
    inl (omega (arith, length-drop off (take capacity f), length-take capacity f)),
  )
  scan_blocks_lem (suc rounds) o fd capacity m off t f open_for same room big here enough =
      elim (Bool-cases (leb capacity off)) [
        | inl full ↦
            rw (scan_blocks, full)
              (
                [],
                0,
                omega arith,
                refl,
                refl,
                refl,
                inl (ground (arith, length-drop off (take capacity f), length-take capacity f)),
              )
        | inr rest ↦
            let want = min m (capacity - off) in
            let (read, kept_errors, kept) = os_pread_full_exact k v o fd want off open_for in
            let o1 = (os_pread_full k o fd want off).0 in
            let block : take want (drop off (v.file o.world fd))
                ≡ take m (drop off (take capacity f)) =
              ap (λ g. take want (drop off g)) same ∙ block_read m off capacity f here in
            let there = read ∙ ap (λ b. ok b) block in
            elim (Bool-cases (ltb (length (take m (drop off (take capacity f)))) rec_header_size)) [
              | inl short ↦
                  rw (scan_blocks, rest, there, short)
                    (
                      [],
                      0,
                      omega arith,
                      refl,
                      refl,
                      refl,
                      inl (ground (arith, length-take m (drop off (take capacity f)))),
                    )
              | inr wide ↦
                  rw (scan_blocks, rest, there, wide)
                    (after_block_lem o1 off m (length (take m (drop off (take capacity f))))
                      (take capacity f) t (scan_blocks k hw cb rounds o1 fd capacity m)
                      (ground arith)
                      (scan_block hw cb (length (take m (drop off (take capacity f)))) capacity off
                        (take m (drop off (take capacity f))) 0 t)
                      (scan_block_lem hw cb _ capacity off m 0 (take capacity f) t
                        (omega (arith, length-take capacity f)) big (omega arith) (omega arith))
                      (λ at t' moved inside.
                        scan_blocks_lem rounds o1 fd capacity m (off + at) t' f open_for
                          (kept fd ∙ same) room big
                          (omega (
                            arith,
                            length-take m (drop off (take capacity f)),
                            length-drop off (take capacity f),
                            length-take capacity f,
                          ))
                          (omega arith)))
            ]
      ]

  -- For a kernel whose reads answer as pread(2) documents, a readable segment file of at least its
  -- capacity and a scratch buffer that holds the largest record: recovery succeeds, and what it found
  -- is the run of good records from the start of the file, numbered from the segment's base, up to the
  -- first place where none stands. The callback has been given those records in order, the scan counts
  -- them and says whether it ended at damage, and the segment is left to append behind the last of
  -- them, with all of it durable. Where the blocks of the scan fall makes no difference.
  pub seg_recover_exact :
      (o : Os k) (s : Seg) (scratch_len : ℕ) (ctx : C)
      → v.IsReadable s.fd
      → s.capacity ≤ length (v.file o.world s.fd)
      → rec_max_size ≤ scratch_len
      → let (o', s', ctx', found) = seg_recover k hw cb o s scratch_len ctx in
        (recs : List Rec) × (n : ℕ) × (torn : Bool) × IsChain hw s.base_seq
          (take s.capacity (v.file o.world s.fd))
          recs
          n
        × IsEnd hw
            (advance s.base_seq (length recs))
            (drop n (take s.capacity (v.file o.world s.fd)))
            torn
        × (ctx' ≡ passed hw cb ctx recs)
        × (found
            ≡ ok (record {
              records = advance 0 (length recs);
              last_seq = pred64 (advance s.base_seq (length recs));
              end_off = n;
              torn = torn;
            }))
        × (s' ≡ record s {
          next_seq = advance s.base_seq (length recs);
          durable_seq = pred64 (advance s.base_seq (length recs));
          write_off = n;
          synced_off = n;
        })
  unfolding seg_recover
  seg_recover_exact o s scratch_len ctx open_for room big =
      let start : Tally C = record { ctx = ctx; expected = s.base_seq; records = 0 } in
      let wide : ltb scratch_len rec_header_size ≡ false = ground arith in
      let w = scan_blocks k hw cb s.capacity o s.fd s.capacity scratch_len 0 start in
      let (recs, n, stands, fine, same, chain, last) =
        scan_blocks_lem s.capacity o s.fd s.capacity scratch_len 0 start _ open_for refl room big
          (omega arith) (omega arith) in
      let (e, c, x) = tally_all-expected hw cb start recs in
      let e' : w.tally.expected ≡ advance s.base_seq (length recs) =
        ap (λ t. t.expected) same ∙ e in
      let c' : w.tally.records ≡ advance 0 (length recs) = ap (λ t. t.records) same ∙ c in
      let x' : w.tally.ctx ≡ passed hw cb ctx recs = ap (λ t. t.ctx) same ∙ x in
      let n' : w.off ≡ n = omega arith in
      (
        recs,
        n,
        w.torn,
        chain,
        subst
            (λ j.
              IsEnd hw (advance s.base_seq (length recs))
                (drop j (take s.capacity (v.file o.world s.fd))) w.torn)
            n'
            (subst (λ j. IsEnd hw j (drop w.off (take s.capacity (v.file o.world s.fd))) w.torn) e'
              last),
        rw (seg_recover, wide, fine) x',
        rw (seg_recover, wide, fine, e', c', n') refl,
        rw (seg_recover, wide, fine, e', n') refl,
      )
