-- ===== src/Core/Mem/Examples.antt =====
-- A move over its own source.
use msgsrvd.Prelude.{◌≡◌, [], ◌∷◌, arith}
use msgsrvd.Core.Mem.{mem_move}
use msgsrvd.Core.Mem.Splice.{mem_move-eq-splice}

mem_move-eq-splice_example : mem_move (1 ∷ 2 ∷ 3 ∷ 4 ∷ 5 ∷ []) 0 1 3 ≡ 2 ∷ 3 ∷ 4 ∷ 4 ∷ 5 ∷ []
mem_move-eq-splice_example =
    mem_move-eq-splice (1 ∷ 2 ∷ 3 ∷ 4 ∷ 5 ∷ []) 0 1 3 (omega arith) (omega arith)
