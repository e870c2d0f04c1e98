-- ===== src/Wal/Index.antt =====
-- src/wal/index.h and index.c: where each partition key starts and ends in the log.
-- The array of the source is the list of its entries in use, so `count` is its length.
pub mod Entries
pub mod Cover
pub mod Examples
use msgsrvd.Prelude.{
  ℕ, zero, suc, ◌+◌, ◌%◌, ◌^◌, Bool, true, false, Option, none, some, List, [], ◌∷◌, ◌++◌, length,
  get_elem?, ltb, leb, ◌==◌, if◌then◌else◌, u64, ℤ, pos, negsuc,
}
use msgsrvd.Wal.Record.{Rec}

abbrev pub index_keys : ℕ
index_keys = 1024

pub record Key : Type 0 where
  pub key : ℕ
  pub first : ℕ
  pub last : ℕ
  pub count : ℕ

pub record Index : Type 0 where
  pub keys : List Key
  pub unknown : ℕ

pub index_init : Index
index_init = record { keys = []; unknown = 0 }

-- The position of a key's entry.
pub find : List Key → ℕ → Option ℕ
find [] key = none
find (k ∷ ks) key =
    if k.key == key then some 0 else elim (find ks key) [ none ↦ none | some i ↦ some (suc i) ]

-- The last two assignments of `wal_index_add`, on one entry.
abbrev pub record_seen : Key → ℕ → Key
record_seen k seq = record k { last = seq; count = u64 (k.count + 1) }

pub seen_at : List Key → ℕ → ℕ → List Key
seen_at [] i seq = []
seen_at (k ∷ ks) zero seq = record_seen k seq ∷ ks
seen_at (k ∷ ks) (suc i) seq = k ∷ seen_at ks i seq

-- A key that has no entry yet.
pub add_key : Index → Rec → Index
add_key ix r =
    if leb index_keys (length ix.keys)
    then record ix { unknown = u64 (ix.unknown + 1) }
    else record ix {
      keys =
          ix.keys
          ++ record_seen (record { key = r.partition_key; first = r.seq; last = 0; count = 0 })
              r.seq
            ∷ [];
    }

pub index_add : Index → Rec → Index
unfolding add_key
index_add ix r = if r.seq == 0 then ix else (elim (find ix.keys r.partition_key) [
  | some i ↦ record ix { keys = seen_at ix.keys i r.seq }
  | none ↦ add_key ix r
])

pub range_in : List Key → ℕ → ℕ → Option (ℕ × ℕ)
range_in [] key from = none
range_in (k ∷ ks) key from =
    if k.key == key
    then some ((if ltb from k.first then k.first else from), k.last)
    else range_in ks key from

-- `out_from` and `out_last`, where the key is known.
pub index_range : Index → ℕ → ℕ → Option (ℕ × ℕ)
unfolding range_in
index_range ix key from = range_in ix.keys key from

pub index_complete : Index → Bool
index_complete ix = ix.unknown == 0

pub index_count : Index → ℕ
index_count ix = length ix.keys

pub index_at : Index → ℤ → Option Key
index_at ix (negsuc i) = none
index_at ix (pos i) = get_elem? ix.keys i
