-- ===== src/Wal/Log/Table.antt =====
-- The table of segments and what retention removes from it.
use msgsrvd.Prelude.{
  ℕ, ℤ, zero, suc, ◌≤◌, ◌<◌, ◌≡◌, ◌⊎◌, inl, inr, refl, ap, List, [], ◌∷◌, arith, length, take, drop,
  get_or, leb, leb→le, ◌==◌, Bool-cases, All, subst, length-take,
}
use msgsrvd.Core.Err.{Result, ok, err}
use msgsrvd.Core.Crc32c.{CrcUnit}
use msgsrvd.Sys.Os.{Kernel, Os, Ran, os_unlinkat, os_fsync}
use msgsrvd.Wal.Segment.{seg_name}
use msgsrvd.Wal.Log.{Wal, retain_count, unlink_all, after_flush, after_unlink, wal_retain}

-- Strictly ascending, as the bases of segments are.
abbrev pub IsAscending : List ℕ → Type 0
IsAscending [] = Unit
IsAscending (b ∷ bs) = All (λ x. b < x) bs × IsAscending bs

abbrev pub Has : ℕ → List ℕ → Type 0
Has x [] = ⊥
Has x (b ∷ bs) = (x ≡ b) ⊎ Has x bs

below_suc :
    (keep_from b b' n : ℕ) (bs : List ℕ)
    → b' ≤ keep_from
    → ((i : ℕ) → i < n → get_or (b' ∷ bs) (suc i) 0 ≤ keep_from)
    → (i : ℕ) → i < suc n
    → get_or (b ∷ b' ∷ bs) (suc i) 0 ≤ keep_from
below_suc keep_from b b' n bs h below zero k = h
below_suc keep_from b b' n bs h below (suc i) k = below i (omega arith)

-- Every base up to the last that is dropped has its successor at or below the line, and the pass
-- stops before the last segment or at a successor above the line.
retain_count_lem :
    (keep_from : ℕ) (b : ℕ) (bs : List ℕ)
    → let n = retain_count keep_from (b ∷ bs) in
      (n ≤ length bs)
      × ((i : ℕ) → i < n → get_or (b ∷ bs) (suc i) 0 ≤ keep_from)
      × ((n ≡ length bs) ⊎ (keep_from < get_or (b ∷ bs) (suc n) 0))
unfolding retain_count
retain_count_lem keep_from b [] = (omega arith, λ i h. absurd (omega arith), inl refl)
retain_count_lem keep_from b (b' ∷ bs) =
    let (small, below, stops) = retain_count_lem keep_from b' bs in
    elim (Bool-cases (leb b' keep_from)) [
      | inl keep ↦
          rw (retain_count, keep)
            (
              omega arith,
              below_suc keep_from b b' _ bs (leb→le b' keep_from keep) below,
              elim stops [ inl e ↦ inl (ap suc e) | inr e ↦ inr e ],
            )
      | inr high ↦
          rw (retain_count, high) (omega arith, λ i h. absurd (omega arith), inr (ground arith))
    ]

abbrev Stops : ℕ → List ℕ → ℕ → Type 0
Stops keep_from bs n = (suc n ≡ length bs) ⊎ (keep_from < get_or bs (suc n) 0)

retain_table :
    (keep_from : ℕ) (bs : List ℕ)
    → 0 < length bs
    → let n = retain_count keep_from bs in
      (n < length bs) × ((i : ℕ) → i < n → get_or bs (suc i) 0 ≤ keep_from) × Stops keep_from bs n
retain_table keep_from [] h = absurd (omega arith)
retain_table keep_from (b ∷ bs) h =
    let (small, below, stops) = retain_count_lem keep_from b bs in
    (omega arith, below, elim stops [ inl e ↦ inl (ap suc e) | inr e ↦ inr e ])

module _ (k : Kernel) (hw : CrcUnit) where
  unlink_all_lem :
      (o : Os k) (dir_fd : ℤ) (bs : List ℕ)
      → let r = unlink_all k hw o dir_fd bs in (r.1 ≤ length bs) × (r.2 ≡ ok tt → r.1 ≡ length bs)
  unfolding unlink_all
  unlink_all_lem o dir_fd [] = (omega arith, λ _. refl)
  unlink_all_lem o dir_fd (b ∷ bs) =
      go (os_unlinkat k o dir_fd (seg_name b) 0) (λ o1. unlink_all_lem o1 dir_fd bs)
    where
      go :
          (a : Ran k (Unit {0}))
          → ((o1 : Os k)
              → ((unlink_all k hw o1 dir_fd bs).1 ≤ length bs)
                × ((unlink_all k hw o1 dir_fd bs).2 ≡ ok tt
                    → (unlink_all k hw o1 dir_fd bs).1 ≡ length bs))
          → let r = elim a.1 as (λ _. Os k × ℕ × Result (Unit {0})) [
            | err code detail ↦ (a.0, 0, err code detail)
            | ok _ ↦
                let (o2, removed, status) = unlink_all k hw a.0 dir_fd bs in
                (o2, suc removed, status)
          ] in
            (r.1 ≤ suc (length bs)) × (r.2 ≡ ok tt → r.1 ≡ suc (length bs))
      go (o1, err code detail) next = (omega arith, λ e. absurd (cc e))
      go (o1, ok _) next = let (a, b) = next o1 in (omega arith, λ e. ap suc (b e))

  -- What retention leaves, where it would drop `n`.
  abbrev IsRetained : Wal → ℕ → Os k × Wal × ℕ × Result (Unit {0}) → Type 0
  IsRetained w keep_from (o', w', removed, status) =
      (n : ℕ) × (w' ≡ record w { seg_base = drop n w.seg_base })
      × (n < length w.seg_base)
      × ((i : ℕ) → i < n → get_or w.seg_base (suc i) 0 ≤ keep_from)
      × (status ≡ ok tt → (removed ≡ n) × Stops keep_from w.seg_base n)

  after_flush_lem :
      (w : Wal) (n keep_from : ℕ) (a : Ran k (Unit {0}))
      → n < length w.seg_base
      → ((i : ℕ) → i < n → get_or w.seg_base (suc i) 0 ≤ keep_from)
      → Stops keep_from w.seg_base n
      → IsRetained w keep_from (after_flush k hw (record w { seg_base = drop n w.seg_base }) n a)
  after_flush_lem w n keep_from (o, err code detail) inside below stops =
      (n, refl, inside, below, λ e. absurd (cc e))
  after_flush_lem w n keep_from (o, ok _) inside below stops =
      (n, refl, inside, below, λ _. (refl, stops))

  after_unlink_lem :
      (w : Wal) (n keep_from : ℕ) (a : Os k × ℕ × Result (Unit {0}))
      → n < length w.seg_base
      → ((i : ℕ) → i < n → get_or w.seg_base (suc i) 0 ≤ keep_from)
      → Stops keep_from w.seg_base n
      → a.1 ≤ n
      → IsRetained w keep_from (after_unlink k hw w n a)
  after_unlink_lem w n keep_from (o, removed, err code detail) inside below stops most =
      (removed, refl, omega arith, λ i h. below i (omega arith), λ e. absurd (cc e))
  after_unlink_lem w n keep_from (o, removed, ok _) inside below stops most =
      after_flush_lem w n keep_from (os_fsync k o w.dir_fd) inside below stops

  -- Of a log with a segment, whatever unlinking and flushing answer: retention drops bases from the
  -- front of the table only and never the last, which is the active segment's; each dropped base's
  -- successor is at or below the line, so no record above it is lost; and where it reports success it
  -- has dropped as many as it reports, all that may go.
  pub wal_retain_drops :
      (o : Os k) (w : Wal) (keep_from : ℕ)
      → 0 < length w.seg_base
      → let (o', w', removed, status) = wal_retain k hw o w keep_from in
        (n : ℕ) × (w' ≡ record w { seg_base = drop n w.seg_base })
        × (n < length w.seg_base)
        × ((i : ℕ) → i < n → get_or w.seg_base (suc i) 0 ≤ keep_from)
        × (status ≡ ok tt
            → (removed ≡ n)
              × ((suc n ≡ length w.seg_base) ⊎ (keep_from < get_or w.seg_base (suc n) 0)))
  unfolding wal_retain
  wal_retain_drops o w keep_from some_segment =
      let (inside, below, stops) = retain_table keep_from w.seg_base some_segment in
      let n = retain_count keep_from w.seg_base in
      let dropped = take n w.seg_base in
      let count : length dropped ≡ n = omega (arith, length-take n w.seg_base) in
      let (most, all) = unlink_all_lem o w.dir_fd dropped in
      elim (Bool-cases (n == 0)) [
        | inl z ↦
            let none_dropped : n ≡ 0 = ground arith in
            rw (wal_retain, z)
              (
                0,
                refl,
                some_segment,
                λ i h. absurd (omega arith),
                λ _. (refl, subst (Stops keep_from w.seg_base) none_dropped stops),
              )
        | inr some_dropped ↦
            rw (wal_retain, some_dropped)
              (after_unlink_lem w n keep_from (unlink_all k hw o w.dir_fd dropped) inside below
                stops (omega arith))
      ]
