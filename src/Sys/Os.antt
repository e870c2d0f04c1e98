-- ===== src/Sys/Os.antt =====
-- src/sys/os.h: the typed file operations, over the kernel's system calls.
-- The kernel is a parameter. Counts and offsets are the natural numbers that the callers pass, so
-- the checks for a negative count or offset do not arise.
pub mod Full
pub mod Bounded
pub mod Examples
use msgsrvd.Prelude.{
  ℕ, zero, suc, ◌+◌, ◌-◌, Bool, true, false, ℤ, List, [], ◌++◌, length, drop, ◌==◌, if◌then◌else◌,
}
use msgsrvd.Core.Err.{Err, ErrCode, syscall, storage, Result, ok, err, Detail, errno, fd, push}

-- What a system call answers.
pub data Answer {ℓ} (A : Type ℓ) : Type ℓ where
  done : A → Answer A
  failed : ℕ → Answer A

-- The system calls on a world of files. A path is its bytes, without the final NUL.
pub record Kernel : Type 1 where
  pub World : Type 0
  pub openat : World → ℤ → List ℕ → ℕ → ℕ → World × Answer ℤ
  pub close : World → ℤ → World × Answer (Unit {0})
  pub fsync : World → ℤ → World × Answer (Unit {0})
  pub fdatasync : World → ℤ → World × Answer (Unit {0})
  pub fallocate : World → ℤ → ℕ → ℕ → ℕ → World × Answer (Unit {0})
  pub unlinkat : World → ℤ → List ℕ → ℕ → World × Answer (Unit {0})
  pub pread : World → ℤ → ℕ → ℕ → World × Answer (List ℕ)
  pub pwrite : World → ℤ → List ℕ → ℕ → World × Answer ℕ
  pub getdents64 : World → ℤ → ℕ → World × Answer (List ℕ)

module _ (k : Kernel) where
  -- The world and the caller's error stack, which every operation is handed.
  pub record Os : Type 0 where
    pub world : k.World
    pub errors : Err

  abbrev pub Ran {ℓ} : Type ℓ → Type ℓ
  Ran A = Os × Result A

  -- A failed call pushes a frame and returns ERR_SYSCALL with the errno.
  abbrev pub finish {ℓ} : {A : Type ℓ} → Err → (ℕ → Detail) → k.World × Answer A → Ran A
  finish e detail (w, done a) = (record { world = w; errors = e }, ok a)
  finish e detail (w, failed n) =
      (record { world = w; errors = push e syscall (detail n) }, err syscall n)

  abbrev pub os_push : Os → ErrCode → Detail → Os
  os_push o code detail = record o { errors = push o.errors code detail }

  unfoldable pub os_openat : Os → ℤ → List ℕ → ℕ → ℕ → Ran ℤ
  os_openat o dir path flags mode =
      finish o.errors (λ n. errno n) (k.openat o.world dir path flags mode)

  unfoldable pub os_close : Os → ℤ → Ran (Unit {0})
  os_close o d = finish o.errors (λ _. fd d) (k.close o.world d)

  unfoldable pub os_fsync : Os → ℤ → Ran (Unit {0})
  os_fsync o d = finish o.errors (λ _. fd d) (k.fsync o.world d)

  unfoldable pub os_fdatasync : Os → ℤ → Ran (Unit {0})
  os_fdatasync o d = finish o.errors (λ _. fd d) (k.fdatasync o.world d)

  unfoldable pub os_fallocate : Os → ℤ → ℕ → ℕ → ℕ → Ran (Unit {0})
  os_fallocate o d mode offset len =
      finish o.errors (λ _. fd d) (k.fallocate o.world d mode offset len)

  unfoldable pub os_unlinkat : Os → ℤ → List ℕ → ℕ → Ran (Unit {0})
  os_unlinkat o dir path flags = finish o.errors (λ n. errno n) (k.unlinkat o.world dir path flags)

  unfoldable pub os_getdents64 : Os → ℤ → ℕ → Ran (List ℕ)
  os_getdents64 o d count = finish o.errors (λ _. fd d) (k.getdents64 o.world d count)

  unfoldable pub os_pread : Os → ℤ → ℕ → ℕ → Ran (List ℕ)
  os_pread o d count offset = finish o.errors (λ _. fd d) (k.pread o.world d count offset)

  -- The system call in `os_pwrite_full`, its failure pushed.
  abbrev pub os_pwrite : Os → ℤ → List ℕ → ℕ → Ran ℕ
  os_pwrite o d bytes offset = finish o.errors (λ _. fd d) (k.pwrite o.world d bytes offset)

  -- Bytes read before those of the rest of the loop.
  abbrev pub read_before : List ℕ → Ran (List ℕ) → Ran (List ℕ)
  read_before bs (o, ok rest) = (o, ok (bs ++ rest))
  read_before bs (o, err code detail) = (o, err code detail)

  -- The loop of `os_pread_full`, with `left` bytes to go. Each round reads a byte at least, so as
  -- many rounds as bytes are enough.
  unfoldable pub pread_loop : ℕ → Os → ℤ → ℕ → ℕ → Ran (List ℕ)
  pread_loop zero o d left offset = (o, ok [])
  pread_loop (suc rounds) o d left offset = elim (left == 0) [
    | true ↦ (o, ok [])
    | false ↦
        let (o', answer) = os_pread o d left offset in
        elim answer [
          | err code detail ↦ (o', err code detail)
          | ok bs ↦ elim (length bs == 0) [
            | true ↦ (o', ok [])
            | false ↦
                read_before bs (pread_loop rounds o' d (left - length bs) (offset + length bs))
          ]
        ]
  ]

  -- The bytes placed in the buffer; their number is `n_out`.
  unfoldable pub os_pread_full : Os → ℤ → ℕ → ℕ → Ran (List ℕ)
  unfolding pread_loop
  os_pread_full o d count offset = pread_loop count o d count offset

  -- The loop of `os_pwrite_full` over the bytes still to write. Each round writes a byte at least
  -- or ends.
  pub pwrite_loop : ℕ → Os → ℤ → List ℕ → ℕ → Ran (Unit {0})
  pwrite_loop zero o d bytes offset = (o, ok tt)
  pwrite_loop (suc rounds) o d bytes offset = elim (length bytes == 0) [
    | true ↦ (o, ok tt)
    | false ↦
        let (o', answer) = os_pwrite o d bytes offset in
        elim answer [
          | err code detail ↦ (o', err code detail)
          | ok n ↦ elim (n == 0) [
            | true ↦ (os_push o' storage (fd d), err storage 0)
            | false ↦ pwrite_loop rounds o' d (drop n bytes) (offset + n)
          ]
        ]
  ]

  unfoldable pub os_pwrite_full : Os → ℤ → List ℕ → ℕ → Ran (Unit {0})
  unfolding pwrite_loop
  os_pwrite_full o d bytes offset = pwrite_loop (length bytes) o d bytes offset
