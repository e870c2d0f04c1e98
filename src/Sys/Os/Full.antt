-- ===== src/Sys/Os/Full.antt =====
-- The full read and write against a disk that may serve any call in part.
use msgsrvd.Prelude.{
  ℕ, ℤ, zero, suc, ◌+◌, ◌-◌, ◌≤◌, ◌<◌, ◌≡◌, refl, sym, ap, ◌∙◌, List, [], ◌++◌, arith, length, take,
  drop, ◌==◌, Bool-cases, inl, inr, take-append-take, take-nil, subst,
}
use msgsrvd.Core.Err.{ok, err, fd}
use msgsrvd.Sys.Os.{
  Kernel, Answer, done, failed, Os, Ran, finish, read_before, os_pread, pread_loop, os_pread_full,
}

-- What pread(2) documents of a file that reads without an error: it returns some of the bytes asked
-- for, none only at the end of the file, and changes no file.
pub record IsReader (k : Kernel) : Type 1 where
  pub file : k.World → ℤ → List ℕ
  pub IsReadable : ℤ → Type 0
  pub pread_answers :
      (w : k.World) (d : ℤ) (count off : ℕ)
      → IsReadable d
      → (bs : List ℕ) × ((k.pread w d count off).1 ≡ done bs)
        × (bs ≡ take (length bs) (drop off (file w d)))
        × (length bs ≤ count)
        × (length bs ≡ 0 → 0 < count → drop off (file w d) ≡ [])
  pub pread_keeps :
      (w : k.World) (d : ℤ) (count off : ℕ) (j : ℤ) → file (k.pread w d count off).0 j ≡ file w j

module _ (k : Kernel) (v : IsReader k) where
  -- A read with these bytes, which kept the files and the error stack.
  abbrev pub IsRead : Os k → Ran k (List ℕ) → List ℕ → Type 0
  IsRead o r bs =
      (r.1 ≡ ok bs) × (r.0.errors ≡ o.errors) × ((j : ℤ) → v.file r.0.world j ≡ v.file o.world j)

  os_pread_lem :
      (o : Os k) (d : ℤ) (count off : ℕ)
      → v.IsReadable d
      → (bs : List ℕ) × IsRead o (os_pread k o d count off) bs
        × (bs ≡ take (length bs) (drop off (v.file o.world d)))
        × (length bs ≤ count)
        × (length bs ≡ 0 → 0 < count → drop off (v.file o.world d) ≡ [])
  unfolding os_pread
  os_pread_lem o d count off here =
      let (bs, answer, same, short, last) = v.pread_answers o.world d count off here in
      let keeps = v.pread_keeps o.world d count off in
      (bs, go (k.pread o.world d count off) answer keeps, same, short, last)
    where
      go :
          {bs : List ℕ} (a : k.World × Answer (List ℕ))
          → a.1 ≡ done bs
          → ((j : ℤ) → v.file a.0 j ≡ v.file o.world j)
          → IsRead o (finish k o.errors (λ _. fd d) a) bs
      go (w, done bs) e keeps = (cc e, refl, keeps)
      go (w, failed n) e keeps = absurd (cc e)

  read_before-IsRead :
      (o o' : Os k) (r : Ran k (List ℕ)) (bs rest : List ℕ)
      → IsRead o' r rest
      → o'.errors ≡ o.errors
      → ((j : ℤ) → v.file o'.world j ≡ v.file o.world j)
      → IsRead o (read_before k bs r) (bs ++ rest)
  read_before-IsRead o o' (p, ok ys) bs rest h e keeps =
      (ap (λ zs. ok (bs ++ zs)) (cc (h.0)), h.1 ∙ e, λ j. h.2 j ∙ keeps j)
  read_before-IsRead o o' (p, err code detail) bs rest h e keeps = absurd (cc (h.0))

  pread_loop_lem :
      (rounds : ℕ) (o : Os k) (d : ℤ) (left off : ℕ)
      → v.IsReadable d
      → left ≤ rounds
      → IsRead o (pread_loop k rounds o d left off) (take left (drop off (v.file o.world d)))
  unfolding pread_loop
  pread_loop_lem zero o d left off here h =
      let z : left ≡ 0 = omega arith in rw z (refl, refl, λ j. refl)
  pread_loop_lem (suc rounds) o d left off here h = elim (Bool-cases (left == 0)) [
    | inl t ↦ let z : left ≡ 0 = ground arith in rw (z, pread_loop) (refl, refl, λ j. refl)
    | inr t ↦
        let (bs, r, same, short, last) = os_pread_lem o d left off here in
        let o' = (os_pread k o d left off).0 in
        elim (Bool-cases (length bs == 0)) [
          | inl z ↦
              let file_ends = last (ground arith) (ground arith) in
              rw (pread_loop, t, r.0, z, file_ends, take-nil {A = ℕ} left) (refl, r.1, r.2)
          | inr z ↦
              let next =
                pread_loop_lem rounds o' d (left - length bs) (off + length bs) here
                  (ground arith) in
              let all : left ≡ length bs + (left - length bs) = omega arith in
              let whole : bs ++ take (left - length bs) (drop (off + length bs) (v.file o'.world d))
                  ≡ take left (drop off (v.file o.world d)) =
                ap
                  (λ zs. zs ++ take (left - length bs) (drop (off + length bs) (v.file o'.world d)))
                  same
                ∙ take-append-take (length bs) (left - length bs) off (v.file o.world d) _
                    (rw (r.2 d) refl)
                ∙ ap (λ n. take n (drop off (v.file o.world d))) (sym all) in
              rw (pread_loop, t, r.0, z)
                (subst (IsRead o _) whole (read_before-IsRead o o' _ bs _ next r.1 r.2))
        ]
  ]

  -- Of a kernel whose reads answer as pread(2) documents, in pieces of any size: a full read returns
  -- exactly the bytes of the file from the offset on, `count` of them or all that the file has, and
  -- leaves the files and the error stack as they were.
  pub os_pread_full_exact :
      (o : Os k) (d : ℤ) (count off : ℕ)
      → v.IsReadable d
      → let r = os_pread_full k o d count off in
        (r.1 ≡ ok (take count (drop off (v.file o.world d))))
        × (r.0.errors ≡ o.errors)
        × ((j : ℤ) → v.file r.0.world j ≡ v.file o.world j)
  unfolding os_pread_full
  os_pread_full_exact o d count off here = pread_loop_lem count o d count off here (omega arith)
