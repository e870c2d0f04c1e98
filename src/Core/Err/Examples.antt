-- ===== src/Core/Err/Examples.antt =====
-- A stack of frames that overflows.
use msgsrvd.Prelude.{ℕ, ◌-◌, ◌≡◌, true, some, List, ◌∷◌, replicate, pos}
use msgsrvd.Core.Err.{Frame, int, storage, err_init, err_has_error, err_frame_at, err_frame_count}
use msgsrvd.Core.Err.Order.{push_all, origin_kept, fifth_first}

abbrev frame : ℕ → Frame
frame n = record { code = some storage; detail = int (pos n) }

abbrev many : List Frame
many = replicate 20 (frame 6)

origin_kept_example :
    (err_has_error (push_all err_init (frame 1 ∷ many)) ≡ true)
    × (err_frame_at
          (push_all err_init (frame 1 ∷ many))
          (pos (err_frame_count (push_all err_init (frame 1 ∷ many)) - 1))
        ≡ some (frame 1))
origin_kept_example = origin_kept (frame 1) many

fifth_first_example :
    err_frame_at
      (push_all err_init (frame 1 ∷ frame 2 ∷ frame 3 ∷ frame 4 ∷ frame 5 ∷ many))
      (pos 0)
    ≡ some (frame 5)
fifth_first_example = fifth_first (frame 1) (frame 2) (frame 3) (frame 4) (frame 5) many
