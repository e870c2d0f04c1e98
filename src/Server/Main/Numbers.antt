-- ===== src/Server/Main/Numbers.antt =====
-- Numbers, printed by src/core/fmt.h and read by src/server/main.c.
use msgsrvd.Prelude.{
  ℕ, zero, suc, ◌+◌, ◌-◌, ◌*◌, ◌/◌, ◌%◌, ◌^◌, ◌≤◌, ◌<◌, ◌≡◌, refl, sym, ap, ◌∙◌, true, false, ◌||◌,
  some, List, [], ◌∷◌, ◌++◌, length, arith, u64, ltb, leb, Bool-cases, inl, inr,
}
use native.Mathlib.Nat.{pow-suc}
use msgsrvd.Core.Fmt.{decimal, copy_back, fmt_digits_max, fmt_u64}
use msgsrvd.Server.Main.{parse_number, parse_u64}

digit :
    (v : ℕ) (behind : List ℕ)
    → v < 2 ^ 64
    → parse_number ((48 + v % 10) ∷ behind) (v / 10) ≡ parse_number behind v
unfolding parse_number
digit v behind h =
    let e : u64 (v / 10 * 10 + (48 + v % 10 - 48)) ≡ v = omega arith in
    let c : ltb (48 + v % 10) 48 || ltb 57 (48 + v % 10) ≡ false = ground arith in
    let d : ltb ((2 ^ 64 - 1) / 10) (v / 10) ≡ false = ground arith in rw (e, c, d) refl

-- The digits read from the front.
parse_number-decimal :
    (n v : ℕ) (behind : List ℕ)
    → v < 10 ^ n
    → v < 2 ^ 64
    → parse_number (copy_back (decimal n v) behind) 0 ≡ parse_number behind v
unfolding decimal
parse_number-decimal zero v behind small h = let z : v ≡ 0 = omega arith in rw z refl
parse_number-decimal (suc n) v behind small h = elim (Bool-cases (ltb 0 (v / 10))) [
  | inl more ↦ rw more (
      parse_number-decimal n (v / 10) ((48 + v % 10) ∷ behind)
        (let p : 10 ^ suc n ≡ 10 ^ n * 10 = pow-suc 10 n in omega arith) (omega arith)
      ∙ digit v behind h)
  | inr last ↦
      let z : v / 10 ≡ 0 = ground arith in
      rw last (ap (λ x. parse_number ((48 + v % 10) ∷ behind) x) (sym z) ∙ digit v behind h)
]

length-decimal : (n v : ℕ) → length (decimal n v) ≤ n
unfolding decimal
length-decimal zero v = omega arith
length-decimal (suc n) v =
    let shorter = length-decimal n (v / 10) in
    elim (Bool-cases (ltb 0 (v / 10))) [
      | inl more ↦ rw more (omega (arith, shorter))
      | inr last ↦ rw last (omega arith)
    ]

length-copy_back : (ds text : List ℕ) → length (copy_back ds text) ≡ length ds + length text
length-copy_back [] text = omega arith
length-copy_back (d ∷ ds) text =
    let longer = length-copy_back ds (d ∷ text) in omega (arith, longer)

decimal-some : (v : ℕ) → 0 < length (copy_back (decimal fmt_digits_max v) [])
unfolding decimal
decimal-some v = let e = length-copy_back (decimal fmt_digits_max v) [] in omega (arith, e)

parse_u64-some : (text : List ℕ) → 0 < length text → parse_u64 (some text) ≡ parse_number text 0
unfolding parse_u64
parse_u64-some [] h = ground arith
parse_u64-some (b ∷ bs) h = refl

-- What is read back of a number that was printed.
abbrev pub IsPrinted : ℕ → List ℕ → ℕ → Type 0
IsPrinted size used v =
    (text : List ℕ) × (fmt_u64 size used v ≡ used ++ text)
    × (length text ≤ fmt_digits_max)
    × (parse_u64 (some text) ≡ some v)

-- Where a buffer has room for 20 more digits, a number below 2 ^ 64 is printed whole behind what is
-- there already, in 20 digits at most, and the server's reader of numbers reads the same number
-- from these digits.
pub parse_u64-fmt_u64 :
    (size : ℕ) (used : List ℕ) (v : ℕ)
    → v < 2 ^ 64
    → length used + fmt_digits_max ≤ size
    → IsPrinted size used v
unfolding fmt_u64 parse_number
parse_u64-fmt_u64 size used v small room =
    let digits = decimal fmt_digits_max v in
    let text = copy_back digits [] in
    let short = length-decimal fmt_digits_max v in
    let same = length-copy_back digits [] in
    let fits : leb (length digits) (size - length used) ≡ true = ground (arith, short) in
    (
      text,
      rw fits refl,
      omega (arith, same, short),
      parse_u64-some text (decimal-some v)
          ∙ parse_number-decimal fmt_digits_max v [] (omega arith) small,
    )
