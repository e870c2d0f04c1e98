-- ===== src/Wal/Log/Name.antt =====
-- Segment names, printed and parsed.
use msgsrvd.Prelude.{
  ℕ, zero, suc, ◌+◌, ◌-◌, ◌*◌, ◌/◌, ◌%◌, ◌^◌, ◌≤◌, ◌<◌, ◌≡◌, refl, ap, ◌∙◌, false, ◌||◌, some, List,
  ◌∷◌, ◌++◌, arith, u64, ltb, ◌==◌,
}
use native.Mathlib.Nat.{pow-suc}
use msgsrvd.Wal.Segment.{seg_name, seg_name_digits, seg_digits, seg_suffix}
use msgsrvd.Wal.Log.{parse_digits, seg_name_parse, seg_name_max}

-- One more digit.
digit :
    (j b : ℕ) (behind : List ℕ)
    → b < 2 ^ 64
    → parse_digits (suc j) ((48 + b % 10) ∷ behind) (b / 10) ≡ parse_digits j behind b
unfolding parse_digits
digit j b behind h =
    let v : u64 (b / 10 * 10 + (48 + b % 10 - 48)) ≡ b = omega arith in
    let c : ltb (48 + b % 10) 48 || ltb 57 (48 + b % 10) ≡ false = ground arith in
    let d : ltb ((2 ^ 64 - 1) / 10) (b / 10) ≡ false = ground arith in rw (v, c, d) refl

parse_digits-seg_name_digits :
    (n j b : ℕ) (behind : List ℕ)
    → b < 10 ^ n
    → b < 2 ^ 64
    → parse_digits (n + j) (seg_name_digits n b behind) 0 ≡ parse_digits j behind b
unfolding seg_name_digits
parse_digits-seg_name_digits zero j b behind small h =
    let z : b ≡ 0 = omega arith in let e : zero + j ≡ j = omega arith in rw (z, e) refl
parse_digits-seg_name_digits (suc n) j b behind small h =
    let e : suc n + j ≡ n + suc j = omega arith in
    rw e (
      parse_digits-seg_name_digits n (suc j) (b / 10) ((48 + b % 10) ∷ behind)
        (omega (arith, pow-suc 10 n)) (omega arith)
      ∙ digit j b behind h)

seg_name_digits-append :
    (n b : ℕ) (behind xs : List ℕ)
    → seg_name_digits n b behind ++ xs ≡ seg_name_digits n b (behind ++ xs)
unfolding seg_name_digits
seg_name_digits-append zero b behind xs = refl
seg_name_digits-append (suc n) b behind xs =
    seg_name_digits-append n (b / 10) ((48 + b % 10) ∷ behind) xs

-- For a uint64_t sequence but 0 and an entry of at least a name's length: the name that the segment
-- layer builds, with its NUL, is parsed back to the sequence, whatever bytes follow.
pub seg_name_roundtrip :
    (base max : ℕ) (behind : List ℕ)
    → 0 < base
    → base < 2 ^ 64
    → seg_name_max ≤ max + 1
    → seg_name_parse (seg_name base ++ (0 ∷ behind)) max ≡ some base
unfolding seg_name_parse seg_name parse_digits
seg_name_roundtrip base max behind live h room =
    let parsed =
      ap (λ xs. parse_digits seg_digits xs 0)
        (seg_name_digits-append seg_digits base seg_suffix (0 ∷ behind))
      ∙ parse_digits-seg_name_digits seg_digits 0 base (seg_suffix ++ (0 ∷ behind)) (omega arith)
          h in
    let long : ltb max (seg_name_max - 1) ≡ false = ground arith in
    let some_seq : (base == 0) ≡ false = ground arith in rw (long, parsed, some_seq) refl
