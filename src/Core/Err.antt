-- ===== src/Core/Err.antt =====
-- src/core/err.h and the results of src/core/types.h. A frame's file, function and line are
-- constants of the place that pushes it and are left out; its code and its detail are kept.
pub mod Order
pub mod Examples
use msgsrvd.Prelude.{
  ℕ, ◌+◌, ◌-◌, ◌/◌, Bool, true, false, ◌||◌, ◌&&◌, Option, none, some, List, [], ◌∷◌, get_elem?,
  set, replicate, ltb, ◌==◌, if◌then◌else◌, ℤ, pos, negsuc,
}

-- The negative codes of a result_t.
pub data ErrCode : Type 0 where
  syscall nomem overflow invalid eof protocol storage again : ErrCode

-- A result_t with what the call returns through its out parameters.
pub data Result {ℓ} (A : Type ℓ) : Type ℓ where
  ok : A → Result A
  err : ErrCode → ℕ → Result A

-- The context of a frame: an errno, a descriptor, an offset, a span or an integer.
pub data Detail : Type 0 where
  no_detail : Detail
  errno offset : ℕ → Detail
  fd : ℤ → Detail
  span : ℤ → ℤ → Detail
  int : ℤ → Detail

-- An empty frame has code none.
pub record Frame : Type 0 where
  pub code : Option ErrCode
  pub detail : Detail

pub record Err : Type 0 where
  pub frames : List Frame
  pub top_count : ℕ
  pub bottom_count : ℕ
  pub dropped : ℕ

abbrev pub err_max_frames : ℕ
err_max_frames = 8

abbrev pub half : ℕ
half = err_max_frames / 2

abbrev pub empty_frame : Frame
empty_frame = record { code = none; detail = no_detail }

unfoldable pub err_init : Err
err_init = record {
  frames = replicate err_max_frames empty_frame;
  top_count = 0;
  bottom_count = 0;
  dropped = 0;
}

unfoldable pub err_push_frame : Err → Frame → Err
err_push_frame e f =
    if e.top_count == 0 && e.bottom_count == 0
    then record e { frames = set e.frames (err_max_frames - 1) f; bottom_count = 1 }
    else if ltb e.bottom_count half
    then record e {
      frames = set e.frames (err_max_frames - 1 - e.bottom_count) f;
      bottom_count = e.bottom_count + 1;
    }
    else if ltb e.top_count half
    then record e { frames = set e.frames e.top_count f; top_count = e.top_count + 1 }
    else record e { frames = set e.frames (half - 1) f; dropped = e.dropped + 1 }

pub err_has_error : Err → Bool
err_has_error e = ltb 0 e.top_count || ltb 0 e.bottom_count

pub err_frame_count : Err → ℕ
err_frame_count e = e.top_count + e.bottom_count

pub err_frame_at : Err → ℤ → Option Frame
err_frame_at e (negsuc i) = none
err_frame_at e (pos i) =
    if ltb i e.top_count
    then get_elem? e.frames i
    else if ltb (i - e.top_count) e.bottom_count
    then get_elem? e.frames (err_max_frames - e.bottom_count + (i - e.top_count))
    else none

-- ERR_PUSH and its variants.
abbrev pub push : Err → ErrCode → Detail → Err
push e code detail = err_push_frame e (record { code = some code; detail = detail })
