-- ===== src/Sys/Os/Bounded.antt =====
-- A full read never answers more bytes than it is asked for.
use msgsrvd.Prelude.{
  ℕ, ℤ, zero, suc, ◌+◌, ◌-◌, ◌≤◌, ◌≡◌, refl, true, false, List, [], arith, length, ◌==◌, Bool-cases,
  inl, inr, length-append,
}
use msgsrvd.Core.Err.{ok, err, fd}
use msgsrvd.Sys.Os.{
  Kernel, Answer, done, failed, Os, Ran, finish, read_before, os_pread, pread_loop, os_pread_full,
}

-- What pread(2) documents: it returns at most the bytes asked for.
abbrev pub IsBounded : Kernel → Type 0
IsBounded k =
    (w : k.World) (d : ℤ) (count off : ℕ) (bs : List ℕ)
    → (k.pread w d count off).1 ≡ done bs
    → length bs ≤ count

module _ (k : Kernel) where
  abbrev pub AtMost : ℕ → Ran k (List ℕ) → Type 0
  AtMost n (o, ok bs) = length bs ≤ n
  AtMost n (o, err code detail) = Unit

  finish-AtMost :
      (o : Os k) (d : ℤ) (n : ℕ) (a : k.World × Answer (List ℕ))
      → ((bs : List ℕ) → a.1 ≡ done bs → length bs ≤ n)
      → AtMost n (finish k o.errors (λ _. fd d) a)
  finish-AtMost o d n (w, done bs) h = h bs refl
  finish-AtMost o d n (w, failed e) h = tt

  os_pread-AtMost :
      IsBounded k → (o : Os k) (d : ℤ) (n offset : ℕ) → AtMost n (os_pread k o d n offset)
  unfolding os_pread
  os_pread-AtMost v o d n offset =
      finish-AtMost o d n (k.pread o.world d n offset) (λ bs e. v o.world d n offset bs e)

  read_before-AtMost :
      (bs : List ℕ) (n left : ℕ) (r : Ran k (List ℕ))
      → AtMost n r
      → length bs + n ≤ left
      → AtMost left (read_before k bs r)
  read_before-AtMost bs n left (o, ok rest) h fits = omega (arith, h, length-append bs rest)
  read_before-AtMost bs n left (o, err code detail) h fits = tt

  pread_loop-AtMost :
      (rounds : ℕ)
      → IsBounded k
      → (o : Os k) (d : ℤ) (left offset : ℕ) → AtMost left (pread_loop k rounds o d left offset)
  unfolding pread_loop
  pread_loop-AtMost zero v o d left offset = omega arith
  pread_loop-AtMost (suc rounds) v o d left offset = elim (Bool-cases (left == 0)) [
    | inl none_left ↦ rw (pread_loop, none_left) (omega arith)
    | inr some_left ↦
        rw (pread_loop, some_left)
          (go (os_pread k o d left offset) (os_pread-AtMost v o d left offset)
            (λ o' n off. pread_loop-AtMost rounds v o' d n off))
  ]
    where
      go :
          (r : Ran k (List ℕ))
          → AtMost left r
          → ((o' : Os k) (n off : ℕ) → AtMost n (pread_loop k rounds o' d n off))
          → AtMost left (elim r.1 as (λ _. Ran k (List ℕ)) [
            | err code detail ↦ (r.0, err code detail)
            | ok bs ↦ elim (length bs == 0) [
              | true ↦ (r.0, ok [])
              | false ↦
                  read_before k bs
                    (pread_loop k rounds r.0 d (left - length bs) (offset + length bs))
            ]
          ])
      go (o', err code detail) h next = tt
      go (o', ok bs) h next = elim (Bool-cases (length bs == 0)) [
        | inl empty ↦ rw empty (omega arith)
        | inr some_bytes ↦ rw some_bytes (
            read_before-AtMost bs (left - length bs) left _
              (next o' (left - length bs) (offset + length bs)) (omega (arith, h)))
      ]

  pub os_pread_full-AtMost :
      IsBounded k → (o : Os k) (d : ℤ) (n offset : ℕ) → AtMost n (os_pread_full k o d n offset)
  unfolding os_pread_full
  os_pread_full-AtMost v o d n offset = pread_loop-AtMost n v o d n offset
