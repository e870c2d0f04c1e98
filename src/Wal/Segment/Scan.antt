-- ===== src/Wal/Segment/Scan.antt =====
-- What a recovery scan is to find in a segment's bytes, said without blocks.
use msgsrvd.Prelude.{
  ℕ, zero, suc, ◌+◌, ◌-◌, ◌≤◌, ◌<◌, ◌≡◌, ◌≢◌, ◌⊎◌, inl, inr, refl, sym, subst, ap, ◌∙◌, Bool, true,
  false, not, ◌||◌, some, List, [], ◌∷◌, arith, length, take, drop, ltb, ◌==◌, int32, u64,
  take-drop, length-take, length-drop, drop-drop, Bool-cases,
}
use msgsrvd.Core.Crc32c.{CrcUnit}
use msgsrvd.Wal.Record.{
  Rec, rec_header_size, rec_max_size, rec_size, rec_decode, rec_verify, rec_is_end,
}
use msgsrvd.Wal.Record.Size.{rec_size_bounds}
use msgsrvd.Wal.Record.Codec.{
  rec_decode-some, rec_decode-take, rec_verify-take, rec_is_end-true, rec_is_end-false,
}
use msgsrvd.Wal.Segment.{more, ended, damaged, too_large, Look, stop, take_rec, look}

abbrev pub size_of : Rec → ℕ
size_of r = rec_size (int32 r.len)

-- `n` sequences on from `e`, on uint64_t.
abbrev pub advance : ℕ → ℕ → ℕ
advance e zero = e
advance e (suc n) = advance (u64 (e + 1)) n

module _ (hw : CrcUnit) where
  -- A record with sequence `e` stands at the front of these bytes, whole and with its checksum.
  pub record IsGood (e : ℕ) (rest : List ℕ) (r : Rec) : Type 0 where
    pub decoded : rec_decode rest ≡ some r
    pub live : r.seq ≢ 0
    pub sized : 0 < size_of r
    pub fits : size_of r ≤ length rest
    pub verified : rec_verify hw rest r ≡ true
    pub in_sequence : r.seq ≡ e

  -- These records stand one behind the other, numbered from `e`, over `n` bytes.
  abbrev pub IsChain : ℕ → List ℕ → List Rec → ℕ → Type 0
  IsChain e rest [] n = n ≡ 0
  IsChain e rest (r ∷ rs) n =
      (m : ℕ) × (n ≡ size_of r + m)
      × IsGood e rest r
      × IsChain (u64 (e + 1)) (drop (size_of r) rest) rs m

  -- Where a scan ends. Cleanly at a header of sequence 0 or too near the end for a header; torn at
  -- a header of another sequence that begins no good record.
  abbrev pub IsEnd : ℕ → List ℕ → Bool → Type 0
  IsEnd e rest false =
      (length rest < rec_header_size) ⊎ ((r : Rec) × (rec_decode rest ≡ some r) × (r.seq ≡ 0))
  IsEnd e rest true =
      (r : Rec) × (rec_decode rest ≡ some r) × (r.seq ≢ 0) × ((s : Rec) → IsGood e rest s → ⊥)

  -- A turn of the inner loop at `at` in a block that stands at `off`, where the segment's bytes from
  -- there on are `rest`.
  abbrev pub IsLook : ℕ → List ℕ → ℕ → List ℕ → Look → Type 0
  IsLook e rest at block (stop more) = 0 < at
  IsLook e rest at block (stop ended) = IsEnd e rest false
  IsLook e rest at block (stop damaged) = IsEnd e rest true
  IsLook e rest at block (stop (too_large size)) = ⊥
  IsLook e rest at block (take_rec size r) =
      IsGood e rest r × (size ≡ size_of r) × (at + size ≤ length block)

  block_at :
      (m off at : ℕ) (bytes : List ℕ)
      → at ≤ m
      → drop at (take m (drop off bytes)) ≡ take (m - at) (drop (off + at) bytes)
  block_at m off at bytes h =
      let e : at + (m - at) ≡ m = omega arith in
      ap (λ j. drop at (take j (drop off bytes))) (sym e)
      ∙ sym (take-drop (m - at) at (drop off bytes))
      ∙ ap (take (m - at)) (drop-drop at off bytes)

  pub not_good :
      (e : ℕ) (rest : List ℕ) (r : Rec)
      → rec_decode rest ≡ some r
      → (IsGood e rest r → ⊥)
      → (s : Rec) → IsGood e rest s
      → ⊥
  not_good e rest r d bad s g = bad (subst (IsGood e rest) (cc (d, g.decoded)) g)

  pub look_lem :
      (capacity off e m at : ℕ) (bytes : List ℕ)
      → length bytes ≡ capacity
      → rec_max_size ≤ m
      → at + rec_header_size ≤ length (take m (drop off bytes))
      → IsLook e
          (drop (off + at) bytes)
          at
          (take m (drop off bytes))
          (look hw capacity off e (take m (drop off bytes)) at)
  unfolding look
  look_lem capacity off e m at bytes whole_cap big room =
      let n = length-take m (drop off bytes) in
      let n' = length-drop off bytes in
      let front = block_at m off at bytes (omega arith) in
      let there : rec_header_size ≤ length rest = omega (arith, length-drop (off + at) bytes) in
      let (r, d) = rec_decode-some rest there in
      let same : rec_decode (drop at block) ≡ some r =
        ap rec_decode front ∙ rec_decode-take (m - at) rest (omega arith) ∙ d in
      let bounds = rec_size_bounds r.len in
      let left = length-drop (off + at) bytes in
      rw (look, same)
        (elim (Bool-cases (rec_is_end r)) [
          | inl z ↦ rw z (inr (r, d, rec_is_end-true r z))
          | inr z ↦
              let live = rec_is_end-false r z in
              elim (Bool-cases (size_of r == 0 || ltb capacity (off + at + size_of r))) [
                | inl bad ↦
                    rw (z, bad)
                      (
                        r,
                        d,
                        live,
                        not_good e rest r d
                            (λ g. let a = g.sized in let b = g.fits in ground arith),
                      )
                | inr good ↦ elim (Bool-cases (ltb (length block) (at + size_of r))) [
                  | inl cut ↦
                      let moved : (at == 0) ≡ false = ground arith in
                      rw (z, good, cut, moved) (ground arith)
                  | inr whole ↦
                      let v : rec_verify hw (drop at block) r ≡ rec_verify hw rest r =
                        ap (λ bs. rec_verify hw bs r) front
                        ∙ rec_verify-take hw (m - at) rest r (ground arith) in
                      elim (Bool-cases
                        (not (rec_verify hw (drop at block) r) || not (r.seq == e))) [
                          | inl worse ↦
                              rw (z, good, whole, worse)
                                (
                                  r,
                                  d,
                                  live,
                                  not_good e rest r d (λ g.
                                      let a = g.verified in let b = g.in_sequence in ground arith),
                                )
                          | inr best ↦
                              rw (z, good, whole, best)
                                (
                                  record {
                                    decoded = d;
                                    live = live;
                                    sized = ground arith;
                                    fits = ground arith;
                                    verified = ground arith;
                                    in_sequence = ground arith;
                                  },
                                  refl,
                                  ground arith,
                                )
                        ]
                ]
              ]
        ])
    where
      block : List ℕ
      block = take m (drop off bytes)

      rest : List ℕ
      rest = drop (off + at) bytes
