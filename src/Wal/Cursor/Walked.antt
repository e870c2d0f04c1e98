-- ===== src/Wal/Cursor/Walked.antt =====
-- The walk of a seek over the records of a file.
use msgsrvd.Prelude.{
  ltb→lt, ℕ, zero, suc, ◌+◌, ◌-◌, ◌^◌, ◌≤◌, ◌<◌, ◌≡◌, inl, inr, refl, true, false, ◌||◌, not, none,
  some, List, [], ◌∷◌, arith, length, ltb, ◌==◌, Bool-cases, Option-cases, int32, u64, ℤ, take,
  drop, sym, ◌∙◌, subst, Option, if-cases,
}
use msgsrvd.Core.Crc32c.{CrcUnit}
use msgsrvd.Core.Err.{Result, ok, err}
use msgsrvd.Sys.Os.{Kernel, Os, Ran, os_pread_full}
use msgsrvd.Sys.Os.Full.{IsReader, os_pread_full_exact}
use msgsrvd.Wal.Record.Codec.{rec_decode-take}
use msgsrvd.Wal.Record.{Rec, rec_decode, rec_size, rec_is_end, rec_header_size}
use msgsrvd.Wal.Cursor.{Cursor, seek_loop, seek_fails, step_over, header_of}

-- Records one behind another in a file from `off` on, numbered from `next` on, and where they end.
abbrev pub IsChain : List ℕ → ℕ → ℕ → List Rec → ℕ → Type 0
IsChain file off next [] end = end ≡ off
IsChain file off next (r ∷ rs) end =
    (rec_decode (drop off file) ≡ some r)
    × (r.seq ≡ next)
    × (rec_is_end r ≡ false)
    × (0 < rec_size (int32 r.len))
    × IsChain file (off + rec_size (int32 r.len)) (suc next) rs end

-- The header that was read is the record that stands there.
header_at :
    (k : Kernel) (hw : CrcUnit) (file : List ℕ) (off : ℕ) (r : Rec)
    → header_of k hw (take rec_header_size (drop off file)) ≡ some r
    → rec_decode (drop off file) ≡ some r
header_at k hw file off r e =
    let got = take rec_header_size (drop off file) in
    sym (rec_decode-take rec_header_size (drop off file) (omega arith))
    ∙ if-cases (λ (o : Option Rec). o ≡ some r → rec_decode got ≡ some r)
        (ltb (length got) rec_header_size) (λ _ missing. absurd (cc missing)) (λ _ found. found) e

module _ (k : Kernel) (hw : CrcUnit) (v : IsReader k) where
  -- From the cursor `c` a walk has come to `seq`, over the records between.
  abbrev pub IsWalked : Os k → Cursor → ℕ → Os k × Cursor × Result (Unit {0}) → Type 0
  IsWalked o c seq (o', c', status) =
      (c'.fd ≡ c.fd)
      × (c'.seg_base ≡ c.seg_base)
      × (c'.next_seq ≡ seq)
      × ((j : ℤ) → v.file o'.world j ≡ v.file o.world j)
      × (recs : List Rec) × IsChain (v.file o.world c.fd) c.off c.next_seq recs c'.off
      × (c.next_seq + length recs ≡ seq)

  IsWalked-none :
      (o : Os k) (c : Cursor) (seq : ℕ) → c.next_seq ≡ seq → IsWalked o c seq (o, c, ok tt)
  IsWalked-none o c seq e = (refl, refl, e, λ j. refl, [], refl, omega arith)

  IsWalked-cons :
      (o o1 : Os k) (c : Cursor) (seq : ℕ) (r : Rec) (a : Os k × Cursor × Result (Unit {0}))
      → ((j : ℤ) → v.file o1.world j ≡ v.file o.world j)
      → rec_decode (drop c.off (v.file o.world c.fd)) ≡ some r
      → rec_is_end r || (rec_size (int32 r.len) == 0 || not (r.seq == c.next_seq)) ≡ false
      → c.next_seq < 2 ^ 64 - 1
      → IsWalked o1 (step_over k hw c (rec_size (int32 r.len))) seq a
      → IsWalked o c seq a
  IsWalked-cons o o1 c seq r (o', c', status) kept found good small h =
      let (same_fd, same_base, there, files, recs, chain, count) = h in
      let size = rec_size (int32 r.len) in
      let wrap : u64 (c.next_seq + 1) ≡ suc c.next_seq = omega arith in
      (
        same_fd,
        same_base,
        there,
        λ j. files j ∙ kept j,
        r ∷ recs,
        (
          found,
          ground arith,
          ground arith,
          ground arith,
          subst (λ (xs : List ℕ). IsChain xs (c.off + size) (suc c.next_seq) recs c'.off)
              (kept c.fd)
              (subst (λ (n : ℕ). IsChain (v.file o1.world c.fd) (c.off + size) n recs c'.off) wrap
                chain),
        ),
        omega (arith, count, wrap),
      )

  pub seek_loop_lem :
      (turns : ℕ) (o : Os k) (c : Cursor) (seq : ℕ)
      → v.IsReadable c.fd
      → seq < 2 ^ 64
      → c.next_seq ≤ seq
      → seq ≤ turns + c.next_seq
      → (seek_loop k hw turns o c seq).2 ≡ ok tt
      → IsWalked o c seq (seek_loop k hw turns o c seq)
  unfolding seek_loop
  seek_loop_lem zero o c seq here fits below enough = λ _. IsWalked-none o c seq (omega arith)
  seek_loop_lem (suc turns) o c seq here fits below enough =
      elim (Bool-cases (ltb c.next_seq seq)) [
        | inl behind ↦
            let behind_by : c.next_seq < seq = ltb→lt c.next_seq seq behind in
            let wrap : u64 (c.next_seq + 1) ≡ c.next_seq + 1 = omega arith in
            let (got, _, kept) = os_pread_full_exact k v o c.fd rec_header_size c.off here in
            rw (seek_loop, behind)
              (go (os_pread_full k o c.fd rec_header_size c.off) got kept (omega arith) (λ o1 size.
                seek_loop_lem turns o1 (step_over k hw c size) seq here fits (omega arith)
                  (omega arith)))
        | inr there ↦ rw (seek_loop, there) (λ _. IsWalked-none o c seq (ground arith))
      ]
    where
      go :
          (read : Ran k (List ℕ))
          → read.1 ≡ ok (take rec_header_size (drop c.off (v.file o.world c.fd)))
          → ((j : ℤ) → v.file read.0.world j ≡ v.file o.world j)
          → c.next_seq < 2 ^ 64 - 1
          → ((o1 : Os k) (size : ℕ)
              → (seek_loop k hw turns o1 (step_over k hw c size) seq).2 ≡ ok tt
              → IsWalked o1
                  (step_over k hw c size)
                  seq
                  (seek_loop k hw turns o1 (step_over k hw c size) seq))
          → let r = elim read.1 as (λ _. Os k × Cursor × Result (Unit {0})) [
            | err code detail ↦ (read.0, c, err code detail)
            | ok got ↦ elim (header_of k hw got) [
              | none ↦ seek_fails k hw read.0 c
              | some r ↦
                  let size = rec_size (int32 r.len) in
                  elim (rec_is_end r || (size == 0 || not (r.seq == c.next_seq))) [
                    | true ↦ seek_fails k hw read.0 c
                    | false ↦ seek_loop k hw turns read.0 (step_over k hw c size) seq
                  ]
            ]
          ] in
            r.2 ≡ ok tt → IsWalked o c seq r
      go (o1, err code detail) e kept small next = λ stopped. absurd (cc stopped)
      go (o1, ok got) e kept small next = elim (Option-cases (header_of k hw got)) [
        | inl missing ↦ rw missing (λ stopped. absurd (cc stopped))
        | inr (r, found) ↦
            let bytes : got ≡ take rec_header_size (drop c.off (v.file o.world c.fd)) = cc e in
            let there =
              header_at k hw (v.file o.world c.fd) c.off r
                (subst (λ (xs : List ℕ). header_of k hw xs ≡ some r) bytes found) in
            let size = rec_size (int32 r.len) in
            elim (Bool-cases (rec_is_end r || (size == 0 || not (r.seq == c.next_seq)))) [
              | inl bad ↦ rw (found, bad) (λ stopped. absurd (cc stopped))
              | inr good ↦
                  rw (found, good)
                    (λ stopped.
                      IsWalked-cons o o1 c seq r
                        (seek_loop k hw turns o1 (step_over k hw c size) seq) kept there good small
                        (next o1 size stopped))
            ]
      ]
