-- ===== src/Wal/Segment/Steps.antt =====
-- What a sync and a creation leave behind.
use msgsrvd.Prelude.{ℕ, ℤ, ◌≤◌, ◌≡◌, some, arith, pred64}
use msgsrvd.Core.Crc32c.{CrcUnit}
use msgsrvd.Core.Err.{ok}
use msgsrvd.Sys.Os.{Kernel, Os}
use msgsrvd.Wal.Segment.{Seg, seg_reset, seg_create, seg_sync, seg_close}
use msgsrvd.Wal.Segment.Invariant.{IsSeg}

module _ (k : Kernel) (hw : CrcUnit) where
  -- A sync that succeeds leaves the last sequence given out durable, and the rest as it was.
  pub seg_sync_settles :
      (o : Os k) (s : Seg)
      → IsSeg s
      → (seg_sync k hw o s).2 ≡ ok tt
      → (seg_sync k hw o s).1
        ≡ record s { synced_off = s.write_off; durable_seq = pred64 s.next_seq }
  unfolding seg_sync
  seg_sync_settles o s v h = let c = v.settled in ground arith

  -- A creation that gives a segment starts it at its base.
  pub seg_create-some :
      (o : Os k) (dir_fd : ℤ) (base capacity : ℕ) (s : Seg)
      → (seg_create k hw o dir_fd base capacity).1 ≡ some s
      → s.next_seq ≡ base
  unfolding seg_create seg_reset
  seg_create-some o dir_fd base capacity s h = ground arith

  pub seg_create-IsSeg :
      (o : Os k) (dir_fd : ℤ) (base capacity : ℕ) (s : Seg)
      → (seg_create k hw o dir_fd base capacity).1 ≡ some s
      → (s.synced_off ≤ s.write_off)
        × (s.write_off ≤ s.capacity)
        × (s.durable_seq ≡ pred64 s.next_seq)
  unfolding seg_create seg_reset
  seg_create-IsSeg o dir_fd base capacity s h = ground arith

  pub seg_sync_next : (o : Os k) (s : Seg) → (seg_sync k hw o s).1.next_seq ≡ s.next_seq
  unfolding seg_sync
  seg_sync_next o s = ground arith

  pub seg_close_next : (o : Os k) (s : Seg) → (seg_close k hw o s).1.next_seq ≡ s.next_seq
  unfolding seg_close
  seg_close_next o s = ground arith
