-- ===== src/Wal/Log/Kept.antt =====
-- Appending keeps the invariant of the active segment.
use msgsrvd.Prelude.{
  ℕ, ◌+◌, ◌^◌, ◌<◌, ◌≡◌, ◌≢◌, ◌⊎◌, inl, inr, ap, sym, subst, Option, some, List, arith, u64,
}
use msgsrvd.Core.Crc32c.{CrcUnit}
use msgsrvd.Core.Err.{ok}
use msgsrvd.Sys.Os.{Kernel, Os}
use msgsrvd.Wal.Record.{Rec}
use msgsrvd.Wal.Segment.{Seg, seg_create, seg_sync, seg_close, seg_append}
use msgsrvd.Wal.Segment.Invariant.{IsSeg, seg_sync-IsSeg, seg_append-IsSeg, seg_close-IsSeg}
use msgsrvd.Wal.Segment.Steps.{seg_create-IsSeg}
use msgsrvd.Wal.Log.Append.{IsNumbered, wal_append_numbers, wal_append_at-wal_append}
use msgsrvd.Wal.Log.{
  Wal, WalAppended, wal_sync, roll_over, append_active, wal_append, wal_append_at,
}

module _ (k : Kernel) (hw : CrcUnit) where
  append_active-seg :
      (o : Os k) (w : Wal) (r : Rec) (payload : Option (List ℕ)) (scratch : List ℕ)
      → (append_active k hw o w r payload scratch).wal.active
        ≡ (seg_append k hw o w.active r payload scratch).seg
  unfolding append_active
  append_active-seg o w r payload scratch = ground arith

  append_active-IsSeg :
      (o : Os k) (w : Wal) (r : Rec) (payload : Option (List ℕ)) (scratch : List ℕ)
      → IsSeg w.active
      → IsSeg (append_active k hw o w r payload scratch).wal.active
  append_active-IsSeg o w r payload scratch v =
      subst (λ (s : Seg). IsSeg s) (sym (append_active-seg o w r payload scratch))
        (seg_append-IsSeg k hw o w.active r payload scratch v)

  roll_over-IsSeg : (o : Os k) (w : Wal) → IsSeg w.active → IsSeg (roll_over k hw o w).1.active
  unfolding roll_over wal_sync
  roll_over-IsSeg o w v =
      let o1 = (seg_sync k hw o w.active).0 in
      let s1 = (seg_sync k hw o w.active).1 in
      let o2 = (seg_close k hw o1 s1).0 in
      let next_base = u64 (s1.durable_seq + 1) in
      let v1 = seg_sync-IsSeg k hw o w.active v in
      let v2 = seg_close-IsSeg k hw o1 s1 v1 in
      let made = seg_create k hw o2 w.dir_fd next_base w.seg_capacity in
      let fresh = seg_create-IsSeg k hw o2 w.dir_fd next_base w.seg_capacity in
      let f0 = λ (s : Seg) (h : made.1 ≡ some s). (fresh s h).0 in
      let f1 = λ (s : Seg) (h : made.1 ≡ some s). (fresh s h).1 in
      let f2 = λ (s : Seg) (h : made.1 ≡ some s). (fresh s h).2 in
      let a0 = v.synced_in in
      let a1 = v1.synced_in in
      let a2 = v2.synced_in in
      let b0 = v.written_in in
      let b1 = v1.written_in in
      let b2 = v2.written_in in
      let c0 = v.settled in
      let c1 = v1.settled in
      let c2 = v2.settled in
      record { synced_in = grind arith; written_in = grind arith; settled = grind arith }

  -- A log that an append may be made to.
  abbrev pub IsLive : Wal → Type 0
  IsLive w = IsSeg w.active × (w.active.next_seq < 2 ^ 64)

  wal_append-IsSeg :
      (o : Os k) (w : Wal) (r : Rec) (payload : Option (List ℕ)) (scratch : List ℕ)
      → IsSeg w.active
      → IsSeg (wal_append k hw o w r payload scratch).wal.active
  unfolding wal_append
  wal_append-IsSeg o w r payload scratch v =
      let direct = append_active-IsSeg o w r payload scratch v in
      let rolled = roll_over-IsSeg o w v in
      let (o1, w1, status) = roll_over k hw o w in
      let after = append_active-IsSeg o1 w1 r payload scratch rolled in
      let a0 = v.synced_in in
      let a1 = direct.synced_in in
      let a2 = rolled.synced_in in
      let a3 = after.synced_in in
      let b0 = v.written_in in
      let b1 = direct.written_in in
      let b2 = rolled.written_in in
      let b3 = after.written_in in
      let c0 = v.settled in
      let c1 = direct.settled in
      let c2 = rolled.settled in
      let c3 = after.settled in
      record { synced_in = grind arith; written_in = grind arith; settled = grind arith }

  -- What an append at a sequence does to the log.
  abbrev pub IsMoved : Wal → WalAppended k hw → Type 0
  IsMoved w a =
      ((a.status ≡ ok tt) × IsLive a.wal × (a.wal.active.next_seq ≡ u64 (w.active.next_seq + 1)))
      ⊎ ((a.status ≢ ok tt) × (a.wal.active.next_seq ≡ w.active.next_seq))

  numbered-IsMoved :
      (w : Wal) (a : WalAppended k hw)
      → IsNumbered k hw w.active.next_seq a
      → IsSeg a.wal.active
      → IsMoved w a
  numbered-IsMoved w a (inl (done, number, next)) seg = inl (done, (seg, omega (arith, next)), next)
  numbered-IsMoved w a (inr bad) seg = inr bad

  pub wal_append_at-IsMoved :
      (o : Os k) (w : Wal) (r : Rec) (payload : Option (List ℕ)) (scratch : List ℕ)
      → IsLive w
      → IsMoved w (wal_append_at k hw o w r payload scratch)
  wal_append_at-IsMoved o w r payload scratch (v, h) =
      elim (wal_append_at-wal_append k hw o w r payload scratch v h) [
        | inr (other, refused, same, _) ↦
            inr (λ done. absurd (cc), ap (λ (x : Wal). x.active.next_seq) same)
        | inl (here, same) ↦ subst (IsMoved w) (sym same) (
            numbered-IsMoved w (wal_append k hw o w r payload scratch)
              (wal_append_numbers k hw o w r payload scratch v h)
              (wal_append-IsSeg o w r payload scratch v))
      ]
