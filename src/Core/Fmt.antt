-- ===== src/Core/Fmt.antt =====
-- src/core/fmt.h: text out of numbers.
-- A buffer and its length are the bytes written so far; a text is its bytes, without the NUL.
use msgsrvd.Prelude.{
  ℕ, zero, suc, ◌+◌, ◌-◌, ◌/◌, ◌%◌, List, [], ◌∷◌, ◌++◌, length, ltb, leb, if◌then◌else◌,
}

unfoldable pub fmt_str : ℕ → List ℕ → List ℕ → List ℕ
fmt_str size used text = if leb (length text) (size - length used) then used ++ text else used

-- The do loop of `fmt_u64`: the decimal digits, the last one first, in at most so many rounds.
unfoldable pub decimal : ℕ → ℕ → List ℕ
decimal zero v = []
decimal (suc rounds) v =
    let rest = decimal rounds (v / 10) in (48 + v % 10) ∷ (if ltb 0 (v / 10) then rest else [])

-- The bytes of `tmp`, taken from its end.
abbrev pub copy_back : List ℕ → List ℕ → List ℕ
copy_back [] text = text
copy_back (d ∷ ds) text = copy_back ds (d ∷ text)

-- `tmp` has room for 20 digits.
abbrev pub fmt_digits_max : ℕ
fmt_digits_max = 20

unfoldable pub fmt_u64 : ℕ → List ℕ → ℕ → List ℕ
unfolding decimal
fmt_u64 size used v =
    let digits = decimal fmt_digits_max v in
    if leb (length digits) (size - length used) then used ++ copy_back digits [] else used

-- The nine digits after the point, written backwards.
abbrev pub fraction : ℕ → ℕ → List ℕ → List ℕ
fraction zero frac text = text
fraction (suc n) frac text = fraction n (frac / 10) ((48 + frac % 10) ∷ text)

unfoldable pub fmt_ns_seconds : ℕ → List ℕ → ℕ → List ℕ
unfolding fmt_str fmt_u64
fmt_ns_seconds size used ns =
    let whole = fmt_str size (fmt_u64 size used (ns / 1000000000)) (46 ∷ []) in
    if ltb (size - length whole) 9 then whole else whole ++ fraction 9 (ns % 1000000000) []
