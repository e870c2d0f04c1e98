-- ===== src/Core/Mem.antt =====
-- src/core/mem.h: byte loops over buffers.
-- A pointer into a buffer is the buffer and an offset.
pub mod Splice
pub mod Examples
use msgsrvd.Prelude.{
  ℕ, zero, suc, ◌+◌, List, [], ◌∷◌, Option, none, some, get_elem?, set, ltb, ◌==◌, if◌then◌else◌,
}

-- `mem_copy(dst + at, src, len)` between two buffers. A read past the end of `src` is undefined in
-- C; the model stops there.
unfoldable pub mem_copy : List ℕ → ℕ → List ℕ → ℕ → List ℕ
mem_copy dst at src zero = dst
mem_copy dst at [] (suc n) = dst
mem_copy dst at (b ∷ bs) (suc n) = mem_copy (set dst at b) (at + 1) bs n

-- `mem_copy(buf + at, buf + from, len)` within one buffer: each byte is read after the writes
-- before it.
unfoldable pub mem_move : List ℕ → ℕ → ℕ → ℕ → List ℕ
mem_move buf at from zero = buf
mem_move buf at from (suc n) = elim (get_elem? buf from) [
  | none ↦ buf
  | some b ↦ mem_move (set buf at b) (at + 1) (from + 1) n
]

-- `mem_set(dst + at, val, len)`.
pub mem_set : List ℕ → ℕ → ℕ → ℕ → List ℕ
mem_set dst at val zero = dst
mem_set dst at val (suc n) = mem_set (set dst at val) (at + 1) val n

pub mem_zero : List ℕ → ℕ → ℕ → List ℕ
mem_zero dst at len = mem_set dst at 0 len

-- The three results of a comparison.
pub data Sign : Type 0 where
  less same greater : Sign

-- The first `len` bytes of two buffers that hold as many.
pub mem_cmp : List ℕ → List ℕ → ℕ → Sign
mem_cmp a b zero = same
mem_cmp [] b (suc n) = same
mem_cmp (x ∷ a) [] (suc n) = same
mem_cmp (x ∷ a) (y ∷ b) (suc n) =
    if x == y then mem_cmp a b n else if ltb x y then less else greater
