-- ===== src/Wal/Index/Entries.antt =====
-- The table as a partial function from keys to entries, and what an addition does to it.
use msgsrvd.Prelude.{
  ℕ, zero, suc, ◌≡◌, ◌≢◌, refl, ap, length, Option, none, some, List, [], ◌∷◌, ◌++◌, arith, ◌==◌,
  if◌then◌else◌, ltb, Bool-cases, inl, inr,
}
use msgsrvd.Wal.Index.{Key, find, record_seen, seen_at, range_in}

-- The entry of a key.
pub entry : List Key → ℕ → Option Key
entry [] key = none
entry (k ∷ ks) key = if k.key == key then some k else entry ks key

-- Where `find` fails there is no entry.
pub entry-find-none : (ks : List Key) (key : ℕ) → find ks key ≡ none → entry ks key ≡ none
unfolding find entry
entry-find-none [] key h = refl
entry-find-none (k ∷ ks) key h = ground (arith, entry-find-none ks key)

-- The entry that is updated is the key's own, and the others stay.
pub entry-seen_at_self :
    (ks : List Key) (key i seq : ℕ)
    → find ks key ≡ some i
    → (k : Key) × (entry ks key ≡ some k)
      × (entry (seen_at ks i seq) key ≡ some (record_seen k seq))
unfolding find entry seen_at
entry-seen_at_self [] key i seq h = cc
entry-seen_at_self (k ∷ ks) key zero seq h = (k, ground arith, ground arith)
entry-seen_at_self (k ∷ ks) key (suc i) seq h =
    let (x, there, after) = entry-seen_at_self ks key i seq (ground arith) in
    (x, ground arith, ground arith)

pub entry-seen_at_ne :
    (ks : List Key) (key other i seq : ℕ)
    → find ks key ≡ some i
    → other ≢ key
    → entry (seen_at ks i seq) other ≡ entry ks other
unfolding find entry seen_at
entry-seen_at_ne [] key other i seq h ne = refl
entry-seen_at_ne (k ∷ ks) key other zero seq h ne = ground arith
entry-seen_at_ne (k ∷ ks) key other (suc i) seq h ne =
    let same = entry-seen_at_ne ks key other i seq (ground arith) ne in ground arith

pub length-seen_at : (ks : List Key) (i seq : ℕ) → length (seen_at ks i seq) ≡ length ks
unfolding seen_at
length-seen_at [] i seq = refl
length-seen_at (k ∷ ks) zero seq = refl
length-seen_at (k ∷ ks) (suc i) seq = ap suc (length-seen_at ks i seq)

pub entry-append :
    (ks : List Key) (new : Key) (key : ℕ)
    → entry ks new.key ≡ none
    → entry (ks ++ new ∷ []) key ≡ (if new.key == key then some new else entry ks key)
unfolding entry
entry-append [] new key h = refl
entry-append (k ∷ ks) new key h = ground (arith, entry-append ks new key)

pub entry-nil : (key : ℕ) → entry [] key ≡ none
unfolding entry
entry-nil key = refl

-- The range is read off the entry.
pub range_in-some :
    (ks : List Key) (key from lo hi : ℕ)
    → range_in ks key from ≡ some (lo, hi)
    → (k : Key) × (entry ks key ≡ some k)
      × (lo ≡ (if ltb from k.first then k.first else from))
      × (hi ≡ k.last)
unfolding range_in entry
range_in-some [] key from lo hi e = cc
range_in-some (k ∷ ks) key from lo hi e = elim (Bool-cases (k.key == key)) [
  | inl here ↦ (k, ground arith, ground arith, ground arith)
  | inr there ↦
      let (x, found, low, high) = range_in-some ks key from lo hi (ground arith) in
      (x, ground arith, low, high)
]

pub range_in-none :
    (ks : List Key) (key from : ℕ) → range_in ks key from ≡ none → entry ks key ≡ none
unfolding range_in entry
range_in-none [] key from e = refl
range_in-none (k ∷ ks) key from e = ground (arith, range_in-none ks key from)
