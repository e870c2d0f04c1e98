-- ===== src/Wal/Index/Cover.antt =====
-- The index against the records it was built from.
use msgsrvd.Prelude.{
  ℕ, ◌+◌, ◌^◌, ◌≤◌, ◌<◌, ◌≡◌, ◌≢◌, ◌⊎◌, refl, sym, ap, ◌∙◌, true, false, none, some, List, [], ◌∷◌,
  ◌++◌, arith, length, length-append, All, All-map, All-append, append_assoc, append-nil, ◌==◌, leb,
  Bool-cases, Option-cases, inl, inr, u64,
}
use native.Mathlib.Decide.{ℕ_discrete}
use msgsrvd.Wal.Record.{Rec}
use msgsrvd.Wal.Index.{
  Index, Key, index_init, index_add, index_range, index_complete, find, seen_at, record_seen,
  index_keys,
}
use msgsrvd.Wal.Index.Entries.{
  entry, entry-find-none, entry-seen_at_self, entry-seen_at_ne, length-seen_at, entry-append,
  entry-nil, range_in-some, range_in-none,
}

-- Sequences rise along the list, from above n.
abbrev pub Ascending : ℕ → List Rec → Type 0
Ascending n [] = Unit
Ascending n (r ∷ rs) = (n < r.seq) × Ascending r.seq rs

-- The index of a log: every record added in turn.
unfoldable pub index_of : Index → List Rec → Index
index_of ix [] = ix
index_of ix (r ∷ rs) = index_of (index_add ix r) rs

abbrev Within : Key → ℕ → Rec → Type 0
Within k key r = r.partition_key ≡ key → (k.first ≤ r.seq) × (r.seq ≤ k.last)

abbrev Other : ℕ → Rec → Type 0
Other key r = r.partition_key ≢ key

abbrev AtMost : ℕ → Rec → Type 0
AtMost n r = r.seq ≤ n

-- What the index knows of the records so far, the last of which has sequence n.
record Covers (n : ℕ) (rs : List Rec) (ix : Index) : Type 0 where
  below : All (AtMost n) rs
  few : ix.unknown ≤ length rs
  full : (ix.unknown ≡ 0) ⊎ (index_keys ≤ length ix.keys)
  known : (key : ℕ) (k : Key) → entry ix.keys key ≡ some k → All (Within k key) rs × (k.first ≤ n)
  absent : (key : ℕ) → entry ix.keys key ≡ none → ix.unknown ≡ 0 → All (Other key) rs

module _ (n : ℕ) (rs : List Rec) (ix : Index) (r : Rec) (c : Covers n rs ix)
    (later : n < r.seq) where
  below-snoc : All (AtMost r.seq) (rs ++ r ∷ [])
  below-snoc =
      All-append (AtMost r.seq) rs (r ∷ [])
        (All-map (AtMost n) (AtMost r.seq) rs (λ q h. omega arith) c.below) (omega arith)

  -- An entry of another key serves as before.
  Within-other :
      (key : ℕ) (k : Key)
      → r.partition_key ≢ key
      → All (Within k key) rs
      → All (Within k key) (rs ++ r ∷ [])
  Within-other key k ne h = All-append (Within k key) rs (r ∷ []) h ((λ e. absurd (ne e)), tt)

  Other-snoc :
      (key : ℕ) → r.partition_key ≢ key → All (Other key) rs → All (Other key) (rs ++ r ∷ [])
  Other-snoc key ne h = All-append (Other key) rs (r ∷ []) h (ne, tt)

  -- The key's own entry, once it has seen the record.
  Within-self :
      (k : Key)
      → All (Within k r.partition_key) rs × (k.first ≤ n)
      → All (Within (record_seen k r.seq) r.partition_key) (rs ++ r ∷ [])
  Within-self k (h, first_low) =
      All-append (Within (record_seen k r.seq) r.partition_key) rs (r ∷ []) (raise rs h c.below)
        ((λ e. (omega arith, omega arith)), tt)
    where
      raise :
          (qs : List Rec)
          → All (Within k r.partition_key) qs
          → All (AtMost n) qs
          → All (Within (record_seen k r.seq) r.partition_key) qs
      raise [] w b = tt
      raise (q ∷ qs) w b = ((λ e. ((w.0 e).0, omega arith)), raise qs w.1 b.1)

  length-snoc : length (rs ++ r ∷ []) ≡ length rs + 1
  length-snoc = length-append rs (r ∷ [])

  Covers-seen :
      (i : ℕ)
      → find ix.keys r.partition_key ≡ some i
      → Covers r.seq (rs ++ r ∷ []) (record ix { keys = seen_at ix.keys i r.seq })
  Covers-seen i found =
      let (k, there, after) = entry-seen_at_self ix.keys r.partition_key i r.seq found in
      let other = λ (key : ℕ) (ne : key ≢ r.partition_key).
        entry-seen_at_ne ix.keys r.partition_key key i r.seq found ne in
      record {
        below = below-snoc;
        few = omega (arith, c.few, length-snoc);
        full = omega (arith, c.full, length-seen_at ix.keys i r.seq);
        known = λ key k' e. elim (ℕ_discrete key r.partition_key) [
          | yes same ↦
              let both : some (record_seen k r.seq) ≡ some k' =
                sym after ∙ ap (entry (seen_at ix.keys i r.seq)) (sym same) ∙ e in
              let is : record_seen k r.seq ≡ k' = cc in
              let (h, low) = c.known r.partition_key k there in
              rw (same, ← is) (Within-self k (h, low), omega arith)
          | no ne ↦
              let (h, low) = c.known key k' (sym (other key ne) ∙ e) in
              (Within-other key k' (λ q. ne (sym q)) h, omega arith)
        ];
        absent = λ key e z. elim (ℕ_discrete key r.partition_key) [
          | yes same ↦ cc (sym after ∙ ap (entry (seen_at ix.keys i r.seq)) (sym same) ∙ e)
          | no ne ↦ Other-snoc key (λ q. ne (sym q)) (c.absent key (sym (other key ne) ∙ e) z)
        ];
      }

  -- No room for another key: from here on absence says nothing.
  Covers-full :
      find ix.keys r.partition_key ≡ none
      → index_keys ≤ length ix.keys
      → length rs + 1 < 2 ^ 64
      → Covers r.seq (rs ++ r ∷ []) (record ix { unknown = u64 (ix.unknown + 1) })
  Covers-full missing table_full few = record {
    below = below-snoc;
    few = omega (arith, c.few, length-snoc);
    full = inr table_full;
    known = λ key k e.
        let ne : r.partition_key ≢ key = λ q.
          cc (sym (entry-find-none ix.keys r.partition_key missing) ∙ ap (entry ix.keys) q ∙ e) in
        let (h, low) = c.known key k e in (Within-other key k ne h, omega arith);
    absent = λ key e z. absurd (omega (arith, c.few));
  }

  new_key : Key
  new_key = record { key = r.partition_key; first = r.seq; last = r.seq; count = u64 (0 + 1) }

  -- Where nothing was left out, a key without an entry has no record yet.
  first_records :
      (qs : List Rec) → All (Other r.partition_key) qs → All (Within new_key r.partition_key) qs
  first_records [] h = tt
  first_records (q ∷ qs) h = ((λ e. absurd (h.0 e)), first_records qs h.1)

  Covers-new :
      find ix.keys r.partition_key ≡ none
      → length ix.keys < index_keys
      → Covers r.seq (rs ++ r ∷ []) (record ix { keys = ix.keys ++ new_key ∷ [] })
  unfolding new_key
  Covers-new missing room =
      let nothing = entry-find-none ix.keys r.partition_key missing in
      let all : ix.unknown ≡ 0 = omega (arith, c.full) in
      let keys : List Key = ix.keys ++ new_key ∷ [] in
      let at_self : entry keys r.partition_key ≡ some new_key =
        ground (arith, entry-append ix.keys new_key r.partition_key nothing) in
      let at_other : (key : ℕ) → r.partition_key ≢ key → entry keys key ≡ entry ix.keys key =
        λ key ne. ground (arith, entry-append ix.keys new_key key nothing) in
      record {
        below = below-snoc;
        few = omega (arith, c.few, length-snoc);
        full = inl all;
        known = λ key k e. elim (ℕ_discrete r.partition_key key) [
          | yes same ↦
              let both : some new_key ≡ some k = sym at_self ∙ ap (entry keys) same ∙ e in
              let is : new_key ≡ k = cc in
              rw (← same, ← is)
                (
                  All-append (Within new_key r.partition_key) rs (r ∷ [])
                      (first_records rs (c.absent r.partition_key nothing all))
                      ((λ q. (omega arith, omega arith)), tt),
                  omega arith,
                )
          | no ne ↦
              let (h, low) = c.known key k (sym (at_other key ne) ∙ e) in
              (Within-other key k ne h, omega arith)
        ];
        absent = λ key e z. elim (ℕ_discrete r.partition_key key) [
          | yes same ↦ cc (sym at_self ∙ ap (entry keys) same ∙ e)
          | no ne ↦ Other-snoc key ne (c.absent key (sym (at_other key ne) ∙ e) z)
        ];
      }

  Covers-add : length rs + 1 < 2 ^ 64 → Covers r.seq (rs ++ r ∷ []) (index_add ix r)
  unfolding index_add
  Covers-add few =
      let real : (r.seq == 0) ≡ false = ground arith in
      elim (Option-cases (find ix.keys r.partition_key)) [
        | inr (i, found) ↦ rw (real, found, index_add) (Covers-seen i found)
        | inl missing ↦ elim (Bool-cases (leb index_keys (length ix.keys))) [
          | inl packed ↦
              rw (real, missing, packed, index_add) (Covers-full missing (ground arith) few)
          | inr room ↦
              rw (real, missing, room, index_add)
                (unfold new_key in Covers-new missing (ground arith))
        ]
      ]

Covers-index_of :
    (past : List Rec) (n : ℕ) (ix : Index) (rs : List Rec)
    → Covers n past ix
    → Ascending n rs
    → length past + length rs < 2 ^ 64
    → (m : ℕ) × Covers m (past ++ rs) (index_of ix rs)
unfolding index_of
Covers-index_of past n ix [] c up few = (n, rw (append-nil past) c)
Covers-index_of past n ix (r ∷ rs) c up few =
    let e : (past ++ r ∷ []) ++ rs ≡ past ++ r ∷ rs = append_assoc past (r ∷ []) rs in
    rw (← e) (
      Covers-index_of (past ++ r ∷ []) r.seq (index_add ix r) rs
        (Covers-add n past ix r c up.0 (omega arith)) up.1
        (omega (arith, length-append past (r ∷ []))))

Covers-log :
    (rs : List Rec)
    → Ascending 0 rs
    → length rs < 2 ^ 64
    → (m : ℕ) × Covers m rs (index_of index_init rs)
unfolding index_init
Covers-log rs up few =
    Covers-index_of [] 0 index_init rs
      (record {
        below = tt;
        few = omega arith;
        full = inl refl;
        known = λ key k e. cc (sym (entry-nil key) ∙ e);
        absent = λ key e z. tt;
      })
      up (omega arith)

-- For a log of ascending sequences from 1 on: the range that the index gives a reader after a key
-- starts no earlier than the reader asked, and holds every record of the key at or after that point.
pub index_range_sound :
    (rs : List Rec) (key from : ℕ) {lo hi : ℕ}
    → Ascending 0 rs
    → length rs < 2 ^ 64
    → index_range (index_of index_init rs) key from ≡ some (lo, hi)
    → (from ≤ lo) × All (λ r. r.partition_key ≡ key → from ≤ r.seq → (lo ≤ r.seq) × (r.seq ≤ hi)) rs
unfolding index_range
index_range_sound rs key from {lo} {hi} up few e =
    let ix = index_of index_init rs in
    let (m, c) = Covers-log rs up few in
    let (k, found, low, high) = range_in-some ix.keys key from lo hi e in
    let within = (c.known key k found).0 in
    (
      ground arith,
      All-map (Within k key)
          (λ r. r.partition_key ≡ key → from ≤ r.seq → (lo ≤ r.seq) × (r.seq ≤ hi)) rs
          (λ r w same after. let (above, under) = w same in (ground arith, omega arith)) within,
    )

-- Where the index of such a log is complete and gives no range for a key, no record of the log
-- carries the key.
pub index_complete_sound :
    (rs : List Rec) (key from : ℕ)
    → Ascending 0 rs
    → length rs < 2 ^ 64
    → index_complete (index_of index_init rs) ≡ true
    → index_range (index_of index_init rs) key from ≡ none
    → All (λ r. r.partition_key ≢ key) rs
unfolding index_range index_complete
index_complete_sound rs key from up few whole e =
    let ix = index_of index_init rs in
    let (m, c) = Covers-log rs up few in
    c.absent key (range_in-none ix.keys key from e) (ground arith)
