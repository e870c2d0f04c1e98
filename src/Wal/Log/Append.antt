-- ===== src/Wal/Log/Append.antt =====
-- Appending: the sequence that a record is given, across a rollover.
use msgsrvd.Prelude.{
  ℕ, ◌+◌, ◌^◌, ◌<◌, ◌≡◌, ◌≢◌, ◌⊎◌, inl, inr, ap, Option, List, arith, u64, pred64,
}
use msgsrvd.Core.Crc32c.{CrcUnit}
use msgsrvd.Core.Err.{ok, err, invalid}
use msgsrvd.Sys.Os.{Kernel, Os}
use msgsrvd.Wal.Record.{Rec}
use msgsrvd.Wal.Segment.{seg_sync, seg_close}
use msgsrvd.Wal.Segment.Invariant.{IsSeg, seg_append_moves}
use msgsrvd.Wal.Segment.Steps.{seg_sync_settles, seg_create-some, seg_sync_next, seg_close_next}
use msgsrvd.Wal.Log.{
  Wal, WalAppended, wal_sync, roll_over, append_active, wal_append, wal_append_at,
}

module _ (k : Kernel) (hw : CrcUnit) where
  -- What an append does to the sequence that is next.
  abbrev pub IsNumbered : ℕ → WalAppended k hw → Type 0
  IsNumbered next a =
      ((a.status ≡ ok tt) × (a.r.seq ≡ next) × (a.wal.active.next_seq ≡ u64 (next + 1)))
      ⊎ ((a.status ≢ ok tt) × (a.wal.active.next_seq ≡ next))

  append_active_lem :
      (o : Os k) (w : Wal) (r : Rec) (payload : Option (List ℕ)) (scratch : List ℕ)
      → IsNumbered w.active.next_seq (append_active k hw o w r payload scratch)
  unfolding append_active
  append_active_lem o w r payload scratch =
      let moves = seg_append_moves k hw o w.active r payload scratch in
      elim moves [
        | inl (done, number, seg, _) ↦
            inl (done, number, rw (append_active, done) (ap (λ s. s.next_seq) seg))
        | inr (bad, seg) ↦ let next = ap (λ s. s.next_seq) seg in inr (bad, ground arith)
      ]

  roll_over_lem :
      (o : Os k) (w : Wal)
      → IsSeg w.active
      → w.active.next_seq < 2 ^ 64
      → (roll_over k hw o w).1.active.next_seq ≡ w.active.next_seq
  unfolding roll_over wal_sync
  roll_over_lem o w v h =
      let o1 = (seg_sync k hw o w.active).0 in
      let s1 = (seg_sync k hw o w.active).1 in
      let o2 = (seg_close k hw o1 s1).0 in
      let next_base = u64 (s1.durable_seq + 1) in
      let settled : (seg_sync k hw o w.active).2 ≡ ok tt
          → s1.durable_seq ≡ pred64 w.active.next_seq =
        λ done. ap (λ s. s.durable_seq) (seg_sync_settles k hw o w.active v done) in
      let fresh = seg_create-some k hw o2 w.dir_fd next_base w.seg_capacity in
      let kept = seg_sync_next k hw o w.active in
      let kept' = seg_close_next k hw o1 s1 in
      let wrap : u64 (pred64 w.active.next_seq + 1) ≡ w.active.next_seq = omega arith in grind arith

  -- From a log whose active segment is in a state that its operations reach and whose next sequence is
  -- a uint64_t: an append that succeeds has given the record the sequence that was next, and the one
  -- after it is next, whether or not it rolled over to a new segment; one that fails, at whatever
  -- step, leaves the next sequence as it was.
  pub wal_append_numbers :
      (o : Os k) (w : Wal) (r : Rec) (payload : Option (List ℕ)) (scratch : List ℕ)
      → IsSeg w.active
      → w.active.next_seq < 2 ^ 64
      → IsNumbered w.active.next_seq (wal_append k hw o w r payload scratch)
  unfolding wal_append
  wal_append_numbers o w r payload scratch v h =
      let here = append_active_lem o w r payload scratch in
      let rolled = roll_over_lem o w v h in
      let there =
        append_active_lem (roll_over k hw o w).0 (roll_over k hw o w).1 r payload scratch in
      grind arith

  -- From a log whose active segment is in a state that its operations reach and whose next sequence is
  -- a uint64_t: an append at a sequence refuses every sequence but the next with nothing written, and
  -- at the next does what an append does, so the check on the sequence that the append gave never
  -- fails.
  pub wal_append_at-wal_append :
      (o : Os k) (w : Wal) (r : Rec) (payload : Option (List ℕ)) (scratch : List ℕ)
      → IsSeg w.active
      → w.active.next_seq < 2 ^ 64
      → ((r.seq ≡ w.active.next_seq)
          × (wal_append_at k hw o w r payload scratch ≡ wal_append k hw o w r payload scratch))
        ⊎ ((r.seq ≢ w.active.next_seq)
            × ((wal_append_at k hw o w r payload scratch).status ≡ err invalid 0)
            × ((wal_append_at k hw o w r payload scratch).wal ≡ w)
            × ((wal_append_at k hw o w r payload scratch).os.world ≡ o.world))
  unfolding wal_append_at
  wal_append_at-wal_append o w r payload scratch v h =
      let numbers = wal_append_numbers o w r payload scratch v h in grind arith
