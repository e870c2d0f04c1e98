-- ===== src/Prelude/Bytes.antt =====
-- Little-endian integers in memory: a struct's field of k bytes is `le k`.
use Prim.Native.Nat.{ℕ, zero, suc, ◌+◌, ◌*◌, ◌/◌, ◌%◌, ◌^◌, ◌<◌}
use mathlib.Core.Path.{◌≡◌, refl, ap}
use mathlib.Core.List.{List, [], ◌∷◌}
use native.Mathlib.Nat.{pow-suc}
use native.Mathlib.Omega.{arith}
use msgsrvd.Prelude.Lists.{length, All}

abbrev pub le : ℕ → ℕ → List ℕ
le zero v = []
le (suc k) v = v % 256 ∷ le k (v / 256)

abbrev pub of_le : List ℕ → ℕ
of_le [] = 0
of_le (b ∷ bs) = b + 256 * of_le bs

pub length-le : (k v : ℕ) → length (le k v) ≡ k
length-le zero v = refl
length-le (suc k) v = ap suc (length-le k (v / 256))

-- A value that fits k bytes is read back from them.
pub of_le-le : (k v : ℕ) → v < 256 ^ k → of_le (le k v) ≡ v
of_le-le zero v h = omega arith
of_le-le (suc k) v h =
    omega (arith, of_le-le k (v / 256) (omega (arith, pow-suc 256 k)), pow-suc 256 k)

abbrev pub IsByte : ℕ → Type 0
IsByte b = b < 256

-- Bytes are written back from the number that they spell.
pub le-of_le : (bs : List ℕ) (k : ℕ) → All IsByte bs → length bs ≡ k → le k (of_le bs) ≡ bs
le-of_le [] zero h e = refl
le-of_le [] (suc k) h e = absurd (omega arith)
le-of_le (b ∷ bs) zero h e = absurd (omega arith)
le-of_le (b ∷ bs) (suc k) h e =
    let low : (b + 256 * of_le bs) % 256 ≡ b = omega arith in
    let high : (b + 256 * of_le bs) / 256 ≡ of_le bs = omega arith in
    rw (low, high) (ap (◌∷◌ b) (le-of_le bs k h.1 (omega arith)))
