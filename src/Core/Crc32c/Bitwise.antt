-- ===== src/Core/Crc32c/Bitwise.antt =====
-- A concrete unit for the examples: the Castagnoli polynomial, reflected, bit by bit.
use Prim.Native.Nat.{bit_xor}
use msgsrvd.Prelude.{
  ℕ, zero, suc, ◌/◌, ◌%◌, ◌^◌, ◌<◌, ◌≡◌, refl, ap, ◌∙◌, List, [], ◌∷◌, arith, le-of_le, u32, le,
  ◌==◌, if◌then◌else◌,
}
use msgsrvd.Core.Crc32c.{CrcUnit, crc_tail}
use msgsrvd.Core.Crc32c.Chunks.{IsCrcUnit}

bit_steps : ℕ → ℕ → ℕ
bit_steps zero c = c
bit_steps (suc n) c = bit_steps n (if c % 2 == 1 then bit_xor (c / 2) 0x82f63b78 else c / 2)

qi : ℕ → ℕ → ℕ
qi c b = bit_steps 8 (bit_xor c b)

fold_qi : ℕ → List ℕ → ℕ
fold_qi c [] = c
fold_qi c (b ∷ bs) = fold_qi (u32 (qi c b)) bs

unfoldable pub bitwise_unit : CrcUnit
unfolding qi fold_qi bit_steps
bitwise_unit = record { crc32qi = qi; crc32di = λ c w. fold_qi c (le 8 w) }

fold_qi-lt : (c : ℕ) (bs : List ℕ) → c < 2 ^ 32 → fold_qi c bs < 2 ^ 32
unfolding fold_qi
fold_qi-lt c [] h = h
fold_qi-lt c (b ∷ bs) h = fold_qi-lt (u32 (qi c b)) bs (omega arith)

fold_qi-eq-crc_tail : (c : ℕ) (bs : List ℕ) → fold_qi c bs ≡ crc_tail bitwise_unit c bs
unfolding fold_qi crc_tail bitwise_unit
fold_qi-eq-crc_tail c [] = refl
fold_qi-eq-crc_tail c (b ∷ bs) = fold_qi-eq-crc_tail (u32 (qi c b)) bs

di_lem : (c b : ℕ) (bs : List ℕ) → u32 (fold_qi c (b ∷ bs)) ≡ fold_qi c (b ∷ bs)
unfolding fold_qi
di_lem c b bs = omega (arith, fold_qi-lt (u32 (qi c b)) bs (omega arith))

pub bitwise_unit-IsCrcUnit : IsCrcUnit bitwise_unit
unfolding bitwise_unit
bitwise_unit-IsCrcUnit = record {
  by_bytes = λ c b0 b1 b2 b3 b4 b5 b6 b7 h.
      let bs : List ℕ = b0 ∷ b1 ∷ b2 ∷ b3 ∷ b4 ∷ b5 ∷ b6 ∷ b7 ∷ [] in
      ap (λ (w : List ℕ). u32 (fold_qi c w)) (le-of_le bs 8 h refl)
      ∙ di_lem c b0 (b1 ∷ b2 ∷ b3 ∷ b4 ∷ b5 ∷ b6 ∷ b7 ∷ [])
      ∙ fold_qi-eq-crc_tail c bs;
}
