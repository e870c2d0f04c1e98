-- ===== src/Core/Mem/Splice.antt =====
-- What the copy loops leave in the buffer, also where source and destination overlap.
use msgsrvd.Prelude.{
  ℕ, zero, suc, ◌+◌, ◌≤◌, ◌<◌, ◌≡◌, refl, sym, ap, ◌∙◌, List, [], ◌∷◌, ◌++◌, some, arith, length,
  take, drop, set, replicate, get_elem?, length-set, append_assoc, take-append-drop,
}
use msgsrvd.Core.Mem.{mem_copy, mem_move, mem_set}

take-set :
    (dst : List ℕ) (at b : ℕ)
    → at < length dst
    → take (suc at) (set dst at b) ≡ take at dst ++ b ∷ []
take-set [] at b h = absurd (omega arith)
take-set (x ∷ xs) zero b h = refl
take-set (x ∷ xs) (suc at) b h = ap (◌∷◌ x) (take-set xs at b (omega arith))

drop-set : (dst : List ℕ) (at k b : ℕ) → at < k → drop k (set dst at b) ≡ drop k dst
drop-set [] at k b h = refl
drop-set (x ∷ xs) at zero b h = absurd (omega arith)
drop-set (x ∷ xs) zero (suc k) b h = refl
drop-set (x ∷ xs) (suc at) (suc k) b h = drop-set xs at k b (omega arith)

drop-get :
    (buf : List ℕ) (i : ℕ)
    → i < length buf
    → (b : ℕ) × (get_elem? buf i ≡ some b) × (drop i buf ≡ b ∷ drop (suc i) buf)
drop-get [] i h = absurd (omega arith)
drop-get (x ∷ xs) zero h = (x, refl, refl)
drop-get (x ∷ xs) (suc i) h = drop-get xs i (omega arith)

-- One byte written and the rest spliced behind it.
splice-cons :
    (dst : List ℕ) (at n b : ℕ) (xs : List ℕ)
    → at < length dst
    → take (at + 1) (set dst at b) ++ (xs ++ drop (at + 1 + n) (set dst at b))
      ≡ take at dst ++ (b ∷ xs ++ drop (at + suc n) dst)
splice-cons dst at n b xs h =
    let e : at + 1 ≡ suc at = omega arith in
    let f : suc at + n ≡ at + suc n = omega arith in
    rw (e, f, take-set dst at b h, drop-set dst at (at + suc n) b (omega arith))
      (append_assoc (take at dst) (b ∷ []) (xs ++ drop (at + suc n) dst))

pub mem_copy-eq-splice :
    (dst : List ℕ) (at : ℕ) (src : List ℕ) (len : ℕ)
    → at + len ≤ length dst
    → len ≤ length src
    → mem_copy dst at src len ≡ take at dst ++ (take len src ++ drop (at + len) dst)
unfolding mem_copy
mem_copy-eq-splice dst at src zero h k =
    let e : at + zero ≡ at = omega arith in rw e (sym (take-append-drop at dst))
mem_copy-eq-splice dst at [] (suc n) h k = absurd (omega arith)
mem_copy-eq-splice dst at (b ∷ bs) (suc n) h k =
    mem_copy-eq-splice (set dst at b) (at + 1) bs n (omega (arith, length-set dst at b))
      (omega arith)
    ∙ splice-cons dst at n b (take n bs) (omega arith)

-- Moving bytes towards the front of their own buffer gives the bytes that were there before the
-- move, although the loop reads some of them after it has written others.
pub mem_move-eq-splice :
    (buf : List ℕ) (at from len : ℕ)
    → at ≤ from
    → from + len ≤ length buf
    → mem_move buf at from len ≡ take at buf ++ (take len (drop from buf) ++ drop (at + len) buf)
unfolding mem_move
mem_move-eq-splice buf at from zero h k =
    let e : at + zero ≡ at = omega arith in rw e (sym (take-append-drop at buf))
mem_move-eq-splice buf at from (suc n) h k =
    let (b, got, split) = drop-get buf from (omega arith) in
    let e : from + 1 ≡ suc from = omega arith in
    let rest =
      mem_move-eq-splice (set buf at b) (at + 1) (from + 1) n (omega arith)
        (omega (arith, length-set buf at b)) in
    let behind : drop (from + 1) (set buf at b) ≡ drop (suc from) buf =
      rw e (drop-set buf at (suc from) b (omega arith)) in
    rw (got, split, mem_move)
      (rest ∙ rw behind (splice-cons buf at n b (take n (drop (suc from) buf)) (omega arith)))

pub mem_set-eq-splice :
    (dst : List ℕ) (at val len : ℕ)
    → at + len ≤ length dst
    → mem_set dst at val len ≡ take at dst ++ (replicate len val ++ drop (at + len) dst)
unfolding mem_set
mem_set-eq-splice dst at val zero h =
    let e : at + zero ≡ at = omega arith in rw e (sym (take-append-drop at dst))
mem_set-eq-splice dst at val (suc n) h =
    mem_set-eq-splice (set dst at val) (at + 1) val n (omega (arith, length-set dst at val))
    ∙ splice-cons dst at n val (replicate n val) (omega arith)
