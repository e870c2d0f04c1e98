-- ===== src/Core/Err/Order.antt =====
-- Which frames the stack keeps and where it shows them.
use msgsrvd.Prelude.{
  ◌+◌, ◌-◌, ◌≤◌, ◌≡◌, refl, some, List, [], ◌∷◌, arith, length, get_elem?, length-set,
  get_elem?-set_ne, pos, true,
}
use msgsrvd.Core.Err.{
  Err, Frame, err_init, err_push_frame, err_frame_at, err_frame_count, err_has_error,
  err_max_frames, half,
}

-- Frames pushed one after the other.
pub push_all : Err → List Frame → Err
push_all e [] = e
push_all e (f ∷ fs) = push_all (err_push_frame e f) fs

-- The counts stay in their halves and the origin in the last slot.
record IsStack (origin : Frame) (e : Err) : Type 0 where
  size : length e.frames ≡ err_max_frames
  bottom_low : 1 ≤ e.bottom_count
  bottom_high : e.bottom_count ≤ half
  top_high : e.top_count ≤ half
  kept : get_elem? e.frames 7 ≡ some origin

err_push_frame-IsStack :
    (origin f : Frame) (e : Err) → IsStack origin e → IsStack origin (err_push_frame e f)
unfolding err_push_frame
err_push_frame-IsStack origin f e s = record {
  size = ground (
    arith,
    length-set e.frames (7 - e.bottom_count) f,
    length-set e.frames e.top_count f,
    length-set e.frames 3 f,
  );
  bottom_low = ground arith;
  bottom_high = ground arith;
  top_high = ground arith;
  kept = ground (
    arith,
    get_elem?-set_ne e.frames {i = 7 - e.bottom_count} {j = 7} f,
    get_elem?-set_ne e.frames {i = e.top_count} {j = 7} f,
    get_elem?-set_ne e.frames {i = 3} {j = 7} f,
  );
}

push_all-IsStack :
    (origin : Frame) (e : Err) (fs : List Frame) → IsStack origin e → IsStack origin (push_all e fs)
unfolding push_all
push_all-IsStack origin e [] s = s
push_all-IsStack origin e (f ∷ fs) s =
    push_all-IsStack origin (err_push_frame e f) fs (err_push_frame-IsStack origin f e s)

first-IsStack : (f : Frame) → IsStack f (err_push_frame err_init f)
unfolding err_push_frame err_init
first-IsStack f = record {
  size = refl;
  bottom_low = omega arith;
  bottom_high = omega arith;
  top_high = omega arith;
  kept = refl;
}

-- However many frames are pushed onto a fresh stack, the stack reports an error and the last frame
-- it shows is the first that was pushed, the origin.
pub origin_kept :
    (f : Frame) (fs : List Frame)
    → let e = push_all err_init (f ∷ fs) in
      (err_has_error e ≡ true) × (err_frame_at e (pos (err_frame_count e - 1)) ≡ some f)
unfolding push_all err_frame_at err_frame_count err_has_error
origin_kept f fs =
    let e = push_all (err_push_frame err_init f) fs in
    let s = push_all-IsStack f (err_push_frame err_init f) fs (first-IsStack f) in
    let last : err_max_frames - e.bottom_count + (e.top_count + e.bottom_count - 1 - e.top_count)
        ≡ 7 =
      omega (arith, s.bottom_low, s.bottom_high) in
    (ground (arith, s.bottom_low), ground (arith, last, s.bottom_low, s.kept))

record IsDeep (fifth : Frame) (e : Err) : Type 0 where
  size : length e.frames ≡ err_max_frames
  bottom : e.bottom_count ≡ half
  top_low : 1 ≤ e.top_count
  top_high : e.top_count ≤ half
  front : get_elem? e.frames 0 ≡ some fifth

err_push_frame-IsDeep :
    (fifth f : Frame) (e : Err) → IsDeep fifth e → IsDeep fifth (err_push_frame e f)
unfolding err_push_frame
err_push_frame-IsDeep fifth f e s = record {
  size = ground (arith, length-set e.frames e.top_count f, length-set e.frames 3 f);
  bottom = ground arith;
  top_low = ground arith;
  top_high = ground arith;
  front = ground (
    arith,
    get_elem?-set_ne e.frames {i = e.top_count} {j = 0} f,
    get_elem?-set_ne e.frames {i = 3} {j = 0} f,
  );
}

push_all-IsDeep :
    (fifth : Frame) (e : Err) (fs : List Frame) → IsDeep fifth e → IsDeep fifth (push_all e fs)
unfolding push_all
push_all-IsDeep fifth e [] s = s
push_all-IsDeep fifth e (f ∷ fs) s =
    push_all-IsDeep fifth (err_push_frame e f) fs (err_push_frame-IsDeep fifth f e s)

-- Once five frames are pushed, the frame shown at index 0 is the fifth and stays so: every later
-- frame, the most recent one among them, is shown behind it or not at all.
pub fifth_first :
    (f1 f2 f3 f4 f5 : Frame) (fs : List Frame)
    → err_frame_at (push_all err_init (f1 ∷ f2 ∷ f3 ∷ f4 ∷ f5 ∷ fs)) (pos 0) ≡ some f5
unfolding push_all err_frame_at
fifth_first f1 f2 f3 f4 f5 fs =
    let base = push_all err_init (f1 ∷ f2 ∷ f3 ∷ f4 ∷ f5 ∷ []) in
    let s = push_all-IsDeep f5 base fs (
      unfold push_all err_push_frame err_init in
      record {
        size = refl;
        bottom = refl;
        top_low = omega arith;
        top_high = omega arith;
        front = refl;
      }) in
    ground (arith, s.top_low, s.front)
