-- ===== src/Core/Crc32c.antt =====
-- src/core/crc32c.c: the checksum of a log record, over the two forms of the CPU's instruction.
pub mod Chunks
pub mod Bitwise
pub mod Examples
use msgsrvd.Prelude.{ℕ, ◌+◌, ◌-◌, ◌%◌, ◌^◌, List, [], ◌∷◌, u32, of_le}

-- What the instruction computes on a running value, in its byte and its 64-bit form. It is the
-- hardware's, so it is a parameter.
pub record CrcUnit : Type 0 where
  pub crc32qi : ℕ → ℕ → ℕ
  pub crc32di : ℕ → ℕ → ℕ

-- `~x` of a uint32_t.
abbrev pub not32 : ℕ → ℕ
not32 x = 2 ^ 32 - 1 - u32 x

module _ (hw : CrcUnit) where
  -- The loop over the tail, a byte at a time.
  pub crc_tail : ℕ → List ℕ → ℕ
  crc_tail c [] = c
  crc_tail c (b ∷ bs) = crc_tail (u32 (hw.crc32qi c b)) bs

  -- Eight bytes at a time while there are eight, then the tail.
  pub crc_loop : ℕ → List ℕ → ℕ
  crc_loop c (b0 ∷ b1 ∷ b2 ∷ b3 ∷ b4 ∷ b5 ∷ b6 ∷ b7 ∷ bs) =
      crc_loop (u32 (hw.crc32di c (of_le (b0 ∷ b1 ∷ b2 ∷ b3 ∷ b4 ∷ b5 ∷ b6 ∷ b7 ∷ [])))) bs
  crc_loop c bs = crc_tail c bs

  -- An empty buffer leaves the running value alone, also its complement.
  pub crc32c : ℕ → List ℕ → ℕ
  crc32c crc [] = crc
  crc32c crc (b ∷ bs) = not32 (crc_loop (not32 crc) (b ∷ bs))
