-- ===== src/Wal/Segment/Block.antt =====
-- The walk over one block of a recovery scan.
use msgsrvd.Prelude.{
  ℕ, zero, suc, ◌+◌, ◌-◌, ◌≤◌, ◌<◌, ◌≡◌, ◌⊎◌, inl, inr, refl, sym, ap, ◌∙◌, subst, true, false,
  List, [], ◌∷◌, arith, length, take, drop, ltb, u64, min, drop-drop, take-take-min, take-drop,
  ◌++◌, Bool-cases,
}
use msgsrvd.Core.Crc32c.{CrcUnit}
use msgsrvd.Wal.Record.{Rec, rec_header_size, rec_max_size}
use msgsrvd.Wal.Segment.{
  Stop, more, ended, damaged, too_large, Look, stop, take_rec, look, Tally, count_rec, scan_block,
}
use msgsrvd.Wal.Segment.Scan.{size_of, advance, IsChain, IsEnd, IsLook, look_lem}

module _ {ℓ} (hw : CrcUnit) {C : Type ℓ} (cb : C → Rec → C) where
  -- The records passed to the callback and counted, in order.
  abbrev pub tally_all : Tally C → List Rec → Tally C
  tally_all t [] = t
  tally_all t (r ∷ rs) = tally_all (count_rec hw cb t r) rs

  -- The context after these records.
  abbrev pub passed : C → List Rec → C
  passed ctx [] = ctx
  passed ctx (r ∷ rs) = passed (cb ctx r) rs

  -- Why a walk that stands at `at` in a block of `len` bytes ended there.
  abbrev pub IsStop : ℕ → List ℕ → ℕ → ℕ → Stop → Type 0
  IsStop e rest at len more = (0 < at) ⊎ (len < at + rec_header_size)
  IsStop e rest at len ended = IsEnd hw e rest false
  IsStop e rest at len damaged = IsEnd hw e rest true
  IsStop e rest at len (too_large size) = ⊥

  -- What a walk from `from` leaves behind.
  abbrev pub IsWalk : ℕ → List ℕ → ℕ → ℕ → Tally C → Stop × ℕ × Tally C → Type ℓ
  IsWalk off bytes len from t (why, at, t') =
      (recs : List Rec) × (n : ℕ) × (at ≡ from + n)
      × (at ≤ len)
      × IsChain hw t.expected (drop (off + from) bytes) recs n
      × (t' ≡ tally_all t recs)
      × IsStop t'.expected (drop (off + at) bytes) at len why

  pub scan_block_lem :
      (turns capacity off m at : ℕ) (bytes : List ℕ) (t : Tally C)
      → length bytes ≡ capacity
      → rec_max_size ≤ m
      → at ≤ length (take m (drop off bytes))
      → length (take m (drop off bytes)) ≤ turns + at
      → IsWalk off bytes
          (length (take m (drop off bytes)))
          at
          t
          (scan_block hw cb turns capacity off (take m (drop off bytes)) at t)
  unfolding scan_block
  scan_block_lem zero capacity off m at bytes t whole big here enough =
      ([], 0, omega arith, here, refl, refl, inr (omega arith))
  scan_block_lem (suc turns) capacity off m at bytes t whole big here enough =
      elim (Bool-cases (ltb (length (take m (drop off bytes))) (at + rec_header_size))) [
        | inl short ↦
            rw (scan_block, short) ([], 0, omega arith, here, refl, refl, inr (ground arith))
        | inr room ↦
            rw (scan_block, room)
              (go (look hw capacity off t.expected (take m (drop off bytes)) at)
                (look_lem hw capacity off t.expected m at bytes whole big (ground arith))
                (λ size r fits some_size.
                  scan_block_lem turns capacity off m (at + size) bytes (count_rec hw cb t r) whole
                    big fits (omega arith)))
      ]
    where
      go :
          (l : Look)
          → IsLook hw t.expected (drop (off + at) bytes) at (take m (drop off bytes)) l
          → ((size : ℕ) (r : Rec)
              → at + size ≤ length (take m (drop off bytes))
              → 0 < size
              → IsWalk off bytes
                  (length (take m (drop off bytes)))
                  (at + size)
                  (count_rec hw cb t r)
                  (scan_block hw cb turns capacity off
                    (take m (drop off bytes))
                    (at + size)
                    (count_rec hw cb t r)))
          → IsWalk off bytes (length (take m (drop off bytes))) at t (elim l [
            | stop why ↦ (why, at, t)
            | take_rec size r ↦
                scan_block hw cb turns capacity off
                  (take m (drop off bytes))
                  (at + size)
                  (count_rec hw cb t r)
          ])
      go (stop more) h next = ([], 0, omega arith, here, refl, refl, inl h)
      go (stop ended) h next = ([], 0, omega arith, here, refl, refl, h)
      go (stop damaged) h next = ([], 0, omega arith, here, refl, refl, h)
      go (stop (too_large size)) h next = absurd h
      go (take_rec size r) (g, e, fits) next =
          let s = g.sized in
          let (recs, n, stands, inside, chain, same, why) = next size r fits (omega arith) in
          let moved : drop (off + (at + size)) bytes ≡ drop (size_of r) (drop (off + at) bytes) =
            ap (λ j. drop j bytes) (omega arith) ∙ sym (drop-drop (size_of r) (off + at) bytes) in
          (
            r ∷ recs,
            size + n,
            omega arith,
            inside,
            (
              n,
              ap (λ j. j + n) e,
              g,
              subst (λ xs. IsChain hw (count_rec hw cb t r).expected xs recs n) moved chain,
            ),
            same,
            why,
          )

  pub tally_all-append :
      (t : Tally C) (xs ys : List Rec) → tally_all t (xs ++ ys) ≡ tally_all (tally_all t xs) ys
  tally_all-append t [] ys = refl
  tally_all-append t (x ∷ xs) ys = tally_all-append (count_rec hw cb t x) xs ys

  pub tally_all-expected :
      (t : Tally C) (xs : List Rec)
      → ((tally_all t xs).expected ≡ advance t.expected (length xs))
        × ((tally_all t xs).records ≡ advance t.records (length xs))
        × ((tally_all t xs).ctx ≡ passed t.ctx xs)
  tally_all-expected t [] = (refl, refl, refl)
  tally_all-expected t (x ∷ xs) = tally_all-expected (count_rec hw cb t x) xs

  pub IsChain-append :
      (e : ℕ) (rest : List ℕ) (xs ys : List Rec) (n m : ℕ)
      → IsChain hw e rest xs n
      → IsChain hw (advance e (length xs)) (drop n rest) ys m
      → IsChain hw e rest (xs ++ ys) (n + m)
  IsChain-append e rest [] ys n m h k =
      let z : n + m ≡ m = omega arith in rw z (subst (λ j. IsChain hw e (drop j rest) ys m) h k)
  IsChain-append e rest (x ∷ xs) ys n m (j, same, g, h) k = (
    j + m,
    omega arith,
    g,
    IsChain-append (u64 (e + 1)) (drop (size_of x) rest) xs ys j m h (
        subst (λ zs. IsChain hw (advance e (length (x ∷ xs))) zs ys m)
          (ap (λ i. drop i rest) same ∙ sym (drop-drop j (size_of x) rest)) k),
  )

-- A block of the scan is a piece of the segment's bytes.
pub block_read :
    (m off capacity : ℕ) (f : List ℕ)
    → off ≤ capacity
    → take (min m (capacity - off)) (drop off f) ≡ take m (drop off (take capacity f))
block_read m off capacity f h =
    let e : off + (capacity - off) ≡ capacity = omega arith in
    sym (
      ap (λ j. take m (drop off (take j f))) (sym e)
      ∙ ap (take m) (sym (take-drop (capacity - off) off f))
      ∙ take-take-min m (capacity - off) (drop off f))
