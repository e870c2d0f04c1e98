-- ===== src/Wal/Segment/Written.antt =====
-- Recovery of what was written: the records of a segment and nothing else.
use msgsrvd.Prelude.{
  ℕ, suc, ◌+◌, ◌≤◌, ◌<◌, ◌≡◌, inl, inr, refl, sym, ap, ◌∙◌, subst, Bool, true, false, List, [], ◌∷◌,
  ◌++◌, arith, length, take, drop, replicate, u64, pred64, int32, append_assoc, Bool-cases, ltb,
  length-replicate, length-append, drop-append, drop-drop,
}
use msgsrvd.Core.Crc32c.{CrcUnit}
use msgsrvd.Core.Err.{ok}
use msgsrvd.Sys.Os.{Kernel, Os}
use msgsrvd.Sys.Os.Full.{IsReader}
use msgsrvd.Wal.Record.{Rec, rec_header_size, rec_max_size, rec_size, max_payload}
use msgsrvd.Wal.Record.Size.{rec_size_fits}
use msgsrvd.Wal.Record.Bytes.{IsRec}
use msgsrvd.Wal.Record.Codec.{
  sealed, disk_image, length-disk_image, rec_decode-disk_image, rec_verify-disk_image,
  rec_decode-length, rec_decode-zeros,
}
use msgsrvd.Wal.Segment.{Seg, seg_recover}
use msgsrvd.Wal.Segment.Scan.{size_of, advance, IsGood, IsChain, IsEnd}
use msgsrvd.Wal.Segment.Block.{passed}
use msgsrvd.Wal.Segment.Recover.{seg_recover_exact}

behind : (rest : List ℕ) (n a b : ℕ) → n ≡ a + b → drop n rest ≡ drop b (drop a rest)
behind rest n a b e = ap (λ j. drop j rest) e ∙ sym (drop-drop b a rest)

module _ (hw : CrcUnit) where
  good_not_end :
      (e : ℕ) (rest : List ℕ) (r : Rec) (torn : Bool)
      → IsGood hw e rest r
      → IsEnd hw e rest torn
      → ⊥
  good_not_end e rest r true g (s, d, live, bad) = bad r g
  good_not_end e rest r false g (inl short) =
      let d = rec_decode-length rest r g.decoded in omega arith
  good_not_end e rest r false g (inr (s, d, z)) =
      let same : r ≡ s = cc (d, g.decoded) in g.live (ap (λ x. x.seq) same ∙ z)

  torn_not_clean : (e : ℕ) (rest : List ℕ) → IsEnd hw e rest true → IsEnd hw e rest false → ⊥
  torn_not_clean e rest (r, d, live, bad) (inl short) =
      let d' = rec_decode-length rest r d in omega arith
  torn_not_clean e rest (r, d, live, bad) (inr (s, d', z)) =
      let same : r ≡ s = cc (d, d') in live (ap (λ x. x.seq) same ∙ z)

  IsEnd-unique :
      (e : ℕ) (rest : List ℕ) (b c : Bool) → IsEnd hw e rest b → IsEnd hw e rest c → b ≡ c
  IsEnd-unique e rest true true h k = refl
  IsEnd-unique e rest false false h k = refl
  IsEnd-unique e rest true false h k = absurd (torn_not_clean e rest h k)
  IsEnd-unique e rest false true h k = absurd (torn_not_clean e rest k h)

  -- A segment's bytes hold one run of good records up to a place where none stands.
  pub IsChain-unique :
      (e : ℕ) (rest : List ℕ) (xs ys : List Rec) (n m : ℕ) (b c : Bool)
      → IsChain hw e rest xs n
      → IsEnd hw (advance e (length xs)) (drop n rest) b
      → IsChain hw e rest ys m
      → IsEnd hw (advance e (length ys)) (drop m rest) c
      → (xs ≡ ys) × (n ≡ m) × (b ≡ c)
  IsChain-unique e rest [] [] n m b c h i j k = (
    refl,
    h ∙ sym j,
    IsEnd-unique e rest b c (subst (λ a. IsEnd hw e (drop a rest) b) h i)
        (subst (λ a. IsEnd hw e (drop a rest) c) j k),
  )
  IsChain-unique e rest [] (y ∷ ys) n m b c h i (j, _, g, _) k =
      absurd (good_not_end e rest y b g (subst (λ a. IsEnd hw e (drop a rest) b) h i))
  IsChain-unique e rest (x ∷ xs) [] n m b c (_, _, g, _) i j k =
      absurd (good_not_end e rest x c g (subst (λ a. IsEnd hw e (drop a rest) c) j k))
  IsChain-unique e rest (x ∷ xs) (y ∷ ys) n m b c (n', en, g, h) i (m', em, g', j) k =
      let same : y ≡ x = cc (g.decoded, g'.decoded) in
      let em' : m ≡ size_of x + m' = em ∙ ap (λ r. size_of r + m') same in
      let (tail, size, stop) =
        IsChain-unique (u64 (e + 1)) (drop (size_of x) rest) xs ys n' m' b c h
          (subst (λ zs. IsEnd hw (advance e (length (x ∷ xs))) zs b)
            (behind rest n (size_of x) n' en) i)
          (subst (λ r. IsChain hw (u64 (e + 1)) (drop (size_of r) rest) ys m') same j)
          (subst (λ zs. IsEnd hw (advance e (length (y ∷ ys))) zs c)
            (behind rest m (size_of x) m' em') k) in
      (λ i. sym same i ∷ tail i, omega arith, stop)

  -- Records and payloads as the log appends them, numbered from `e`.
  abbrev pub IsLog : ℕ → List (Rec × List ℕ) → Type 0
  IsLog e [] = Unit
  IsLog e ((r, p) ∷ rs) =
      IsRec r
      × (r.len ≤ max_payload)
      × (length p ≡ r.len)
      × (r.seq ≡ e)
      × (0 < e)
      × IsLog (u64 (e + 1)) rs

  abbrev pub log_bytes : List (Rec × List ℕ) → List ℕ
  log_bytes [] = []
  log_bytes ((r, p) ∷ rs) = disk_image hw r p ++ log_bytes rs

  abbrev pub log_records : List (Rec × List ℕ) → List Rec
  log_records [] = []
  log_records ((r, p) ∷ rs) = sealed hw r p ∷ log_records rs

  -- The images of records stand in their file as good records, whatever follows them.
  IsChain-log_bytes :
      (e : ℕ) (rs : List (Rec × List ℕ)) (rest : List ℕ)
      → IsLog e rs
      → IsChain hw e (log_bytes rs ++ rest) (log_records rs) (length (log_bytes rs))
  IsChain-log_bytes e [] rest h = refl
  IsChain-log_bytes e ((r, p) ∷ rs) rest (v, small, whole, numbered, live, h) =
      let n = length-disk_image hw r p small whole in
      let next = IsChain-log_bytes (u64 (e + 1)) rs rest h in
      let split : log_bytes ((r, p) ∷ rs) ++ rest ≡ disk_image hw r p ++ (log_bytes rs ++ rest) =
        append_assoc (disk_image hw r p) (log_bytes rs) rest in
      let sized = rec_size_fits r.len small in
      rw split (
        length (log_bytes rs),
        omega (arith, length-append (disk_image hw r p) (log_bytes rs)),
        record {
          decoded = rec_decode-disk_image hw r p (log_bytes rs ++ rest) v;
          live = λ z. omega arith;
          sized = omega arith;
          fits = omega (arith, length-append (disk_image hw r p) (log_bytes rs ++ rest));
          verified = rec_verify-disk_image hw r p (log_bytes rs ++ rest) small whole;
          in_sequence = numbered;
        },
        subst (λ xs. IsChain hw (u64 (e + 1)) xs (log_records rs) (length (log_bytes rs)))
            (sym
              (drop-append (rec_size (int32 r.len)) (disk_image hw r p) (log_bytes rs ++ rest) n))
            next,
      )

  -- Preallocated space is a clean end.
  IsEnd-replicate : (e j : ℕ) → IsEnd hw e (replicate j 0) false
  IsEnd-replicate e j = elim (Bool-cases (ltb j rec_header_size)) [
    | inl short ↦ inl (ground (arith, length-replicate {A = ℕ} j 0))
    | inr room ↦ inr (rec_decode-zeros j (ground arith))
  ]

  length-log_records : (rs : List (Rec × List ℕ)) → length (log_records rs) ≡ length rs
  length-log_records [] = refl
  length-log_records (r ∷ rs) = ap suc (length-log_records rs)

module _ {ℓ} (k : Kernel) (hw : CrcUnit) (v : IsReader k) {C : Type ℓ} (cb : C → Rec → C) where
  -- For a kernel whose reads answer as pread(2) documents and a scratch buffer that holds the largest
  -- record: where a segment's file holds the images of records that were numbered from its base, and
  -- zeros behind them up to the capacity, recovery gives the callback exactly those records in order,
  -- reports their number and no damage, and leaves the append point behind the last of them with the
  -- sequence that follows.
  pub log_recovered :
      (o : Os k) (s : Seg) (scratch_len : ℕ) (ctx : C) (rs : List (Rec × List ℕ)) (free : ℕ)
      → v.IsReadable s.fd
      → s.capacity ≤ length (v.file o.world s.fd)
      → rec_max_size ≤ scratch_len
      → IsLog hw s.base_seq rs
      → take s.capacity (v.file o.world s.fd) ≡ log_bytes hw rs ++ replicate free 0
      → let (o', s', ctx', found) = seg_recover k hw cb o s scratch_len ctx in
        (ctx' ≡ passed hw cb ctx (log_records hw rs))
        × (found
            ≡ ok (record {
              records = advance 0 (length rs);
              last_seq = pred64 (advance s.base_seq (length rs));
              end_off = length (log_bytes hw rs);
              torn = false;
            }))
        × (s' ≡ record s {
          next_seq = advance s.base_seq (length rs);
          durable_seq = pred64 (advance s.base_seq (length rs));
          write_off = length (log_bytes hw rs);
          synced_off = length (log_bytes hw rs);
        })
  log_recovered o s scratch_len ctx rs free open_for room big log holds =
      let (recs, n, torn, chain, last, passed_on, found, left) =
        seg_recover_exact k hw v cb o s scratch_len ctx open_for room big in
      let count = length-log_records hw rs in
      let written = IsChain-log_bytes hw s.base_seq rs (replicate free 0) log in
      let clean : IsEnd hw (advance s.base_seq (length (log_records hw rs)))
          (drop (length (log_bytes hw rs)) (log_bytes hw rs ++ replicate free 0)) false =
        subst (λ xs. IsEnd hw (advance s.base_seq (length (log_records hw rs))) xs false)
          (sym (drop-append (length (log_bytes hw rs)) (log_bytes hw rs) (replicate free 0) refl))
          (IsEnd-replicate hw (advance s.base_seq (length (log_records hw rs))) free) in
      let (xs, at, b) =
        IsChain-unique hw s.base_seq (log_bytes hw rs ++ replicate free 0) recs (log_records hw rs)
          n (length (log_bytes hw rs)) torn false
          (subst (λ ys. IsChain hw s.base_seq ys recs n) holds chain)
          (subst (λ ys. IsEnd hw (advance s.base_seq (length recs)) (drop n ys) torn) holds last)
          written clean in
      let size = ap (λ ys. length ys) xs ∙ count in
      (
        passed_on ∙ ap (passed hw cb ctx) xs,
        found ∙ rw (size, at, b) refl,
        left ∙ rw (size, at) refl,
      )
