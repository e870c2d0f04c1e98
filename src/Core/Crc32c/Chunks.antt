-- ===== src/Core/Crc32c/Chunks.antt =====
-- The checksum of a buffer does not depend on how it is cut into chunks.
use msgsrvd.Prelude.{
  ℕ, ◌^◌, ◌<◌, ◌≡◌, refl, sym, ap, ◌∙◌, List, [], ◌∷◌, ◌++◌, arith, All, u32, of_le, IsByte,
  All-append,
}
use msgsrvd.Core.Crc32c.{CrcUnit, not32, crc_tail, crc_loop, crc32c}

-- The documented meaning of the 64-bit form: its operand's eight bytes, lowest first.
pub record IsCrcUnit (hw : CrcUnit) : Type 0 where
  pub by_bytes :
      (c b0 b1 b2 b3 b4 b5 b6 b7 : ℕ)
      → All IsByte (b0 ∷ b1 ∷ b2 ∷ b3 ∷ b4 ∷ b5 ∷ b6 ∷ b7 ∷ [])
      → u32 (hw.crc32di c (of_le (b0 ∷ b1 ∷ b2 ∷ b3 ∷ b4 ∷ b5 ∷ b6 ∷ b7 ∷ [])))
        ≡ crc_tail hw c (b0 ∷ b1 ∷ b2 ∷ b3 ∷ b4 ∷ b5 ∷ b6 ∷ b7 ∷ [])

module _ (hw : CrcUnit) where
  crc_tail-append :
      (c : ℕ) (xs ys : List ℕ) → crc_tail hw c (xs ++ ys) ≡ crc_tail hw (crc_tail hw c xs) ys
  unfolding crc_tail
  crc_tail-append c [] ys = refl
  crc_tail-append c (x ∷ xs) ys = crc_tail-append (u32 (hw.crc32qi c x)) xs ys

  crc_tail-lt : (c : ℕ) (xs : List ℕ) → c < 2 ^ 32 → crc_tail hw c xs < 2 ^ 32
  unfolding crc_tail
  crc_tail-lt c [] h = h
  crc_tail-lt c (x ∷ xs) h = crc_tail-lt (u32 (hw.crc32qi c x)) xs (omega arith)

  pub crc32c-lt : (c : ℕ) (xs : List ℕ) → c < 2 ^ 32 → crc32c hw c xs < 2 ^ 32
  unfolding crc32c
  crc32c-lt c [] h = h
  crc32c-lt c (x ∷ xs) h = omega arith

  -- Taking eight bytes at a time computes the byte-wise fold.
  pub crc_loop-eq-crc_tail :
      (c : ℕ) (xs : List ℕ) → IsCrcUnit hw → All IsByte xs → crc_loop hw c xs ≡ crc_tail hw c xs
  unfolding crc_loop
  crc_loop-eq-crc_tail c (b0 ∷ b1 ∷ b2 ∷ b3 ∷ b4 ∷ b5 ∷ b6 ∷ b7 ∷ bs) v
        (h0, (h1, (h2, (h3, (h4, (h5, (h6, (h7, hs)))))))) =
      crc_loop-eq-crc_tail (u32 (hw.crc32di c (of_le (b0 ∷ b1 ∷ b2 ∷ b3 ∷ b4 ∷ b5 ∷ b6 ∷ b7 ∷ []))))
        bs v hs
      ∙ ap (λ c'. crc_tail hw c' bs)
          (v.by_bytes c b0 b1 b2 b3 b4 b5 b6 b7 (h0, (h1, (h2, (h3, (h4, (h5, (h6, (h7, tt)))))))))
      ∙ sym (crc_tail-append c (b0 ∷ b1 ∷ b2 ∷ b3 ∷ b4 ∷ b5 ∷ b6 ∷ b7 ∷ []) bs)
  crc_loop-eq-crc_tail c bs v h = refl

  crc32c-bytewise :
      (c : ℕ) (xs : List ℕ)
      → IsCrcUnit hw
      → c < 2 ^ 32
      → All IsByte xs
      → crc32c hw c xs ≡ not32 (crc_tail hw (not32 c) xs)
  unfolding crc32c crc_tail
  crc32c-bytewise c [] v hc h = omega arith
  crc32c-bytewise c (x ∷ xs) v hc h =
      ap (λ (k : ℕ). not32 k) (crc_loop-eq-crc_tail (not32 c) (x ∷ xs) v h)

  -- On a CPU whose 64-bit form folds its eight bytes in order, feeding two chunks of bytes one
  -- after the other gives the checksum of their concatenation, from any running value.
  pub crc32c-append :
      (c : ℕ) (xs ys : List ℕ)
      → IsCrcUnit hw
      → c < 2 ^ 32
      → All IsByte xs
      → All IsByte ys
      → crc32c hw (crc32c hw c xs) ys ≡ crc32c hw c (xs ++ ys)
  crc32c-append c xs ys v hc hx hy =
      let mid = crc_tail hw (not32 c) xs in
      let mid_lt : mid < 2 ^ 32 = crc_tail-lt (not32 c) xs (omega arith) in
      let back : not32 (not32 mid) ≡ mid = omega arith in
      ap (λ (k : ℕ). crc32c hw k ys) (crc32c-bytewise c xs v hc hx)
      ∙ crc32c-bytewise (not32 mid) ys v (omega arith) hy
      ∙ ap (λ (k : ℕ). not32 (crc_tail hw k ys)) back
      ∙ ap (λ (k : ℕ). not32 k) (sym (crc_tail-append (not32 c) xs ys))
      ∙ sym (crc32c-bytewise c (xs ++ ys) v hc (All-append IsByte xs ys hx hy))
