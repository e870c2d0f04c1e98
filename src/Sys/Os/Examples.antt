-- ===== src/Sys/Os/Examples.antt =====
-- A disk with one file that serves any read at most seven bytes at a time.
use msgsrvd.Prelude.{
  ℕ, ℤ, pos, ◌+◌, ◌≡◌, refl, sym, ap, ◌∙◌, List, [], ◌∷◌, ◌++◌, arith, length, take, drop, min,
  length-take, take-take-min, take-le,
}
use msgsrvd.Core.Err.{ok, err_init}
use msgsrvd.Sys.Os.{Kernel, Answer, done, failed, Os, os_pread_full}
use msgsrvd.Sys.Os.Bounded.{IsBounded}
use msgsrvd.Sys.Os.Full.{IsReader, os_pread_full_exact}

abbrev pub slow_disk : Kernel
slow_disk = record {
  World = List ℕ;
  openat = λ w _ _ _ _. (w, done (pos 3));
  close = λ w _. (w, done tt);
  fsync = λ w _. (w, done tt);
  fdatasync = λ w _. (w, done tt);
  fallocate = λ w _ _ _ _. (w, done tt);
  unlinkat = λ w _ _ _. (w, done tt);
  pread = λ w _ count off. (w, done (take (min 7 count) (drop off w)));
  pwrite =
      λ w _ bytes off. (take off w ++ (bytes ++ drop (off + length bytes) w), done (length bytes));
  getdents64 = λ w _ _. (w, done []);
}

pub take-length : (n : ℕ) (xs : List ℕ) → take n xs ≡ take (length (take n xs)) xs
take-length n xs =
    ap (take n) (sym (take-le (length xs) xs (omega arith)))
    ∙ take-take-min n (length xs) xs
    ∙ ap (λ j. take j xs) (sym (length-take n xs))

pub length_zero : (xs : List ℕ) → length xs ≡ 0 → xs ≡ []
length_zero [] h = refl
length_zero (x ∷ xs) h = absurd (omega arith)

abbrev pub slow_disk-IsReader : IsReader slow_disk
slow_disk-IsReader = record {
  file = λ w d. w;
  IsReadable = λ d. Unit;
  pread_answers = λ w d count off _.
      let n = length-take (min 7 count) (drop off w) in
      (
        take (min 7 count) (drop off w),
        refl,
        take-length (min 7 count) (drop off w),
        omega arith,
        λ z some_asked. length_zero (drop off w) (omega arith),
      );
  pread_keeps = λ w d count off j. refl;
}

abbrev pub fresh_os : List ℕ → Os slow_disk
fresh_os file = record { world = file; errors = err_init }

abbrev ten : List ℕ
ten = 0 ∷ 1 ∷ 2 ∷ 3 ∷ 4 ∷ 5 ∷ 6 ∷ 7 ∷ 8 ∷ 9 ∷ []

os_pread_full_exact_example :
    let r = os_pread_full slow_disk (fresh_os ten) (pos 3) 20 1 in
    (r.1 ≡ ok (drop 1 ten)) × (r.0.errors ≡ err_init) × ((j : ℤ) → r.0.world ≡ ten)
os_pread_full_exact_example =
    os_pread_full_exact slow_disk slow_disk-IsReader (fresh_os ten) (pos 3) 20 1 tt

answered : Answer (List ℕ) → ℕ
answered (done bs) = length bs
answered (failed n) = 0

pub slow_disk-IsBounded : IsBounded slow_disk
unfolding answered
slow_disk-IsBounded w d count off bs e =
    omega (arith, length-take (min 7 count) (drop off w), ap answered e)
