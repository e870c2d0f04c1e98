-- ===== src/Server/Main.antt =====
-- src/server/main.c: the reading of numbers and addresses on the command line.
-- A text is its bytes, without the NUL, and none for a null pointer.
pub mod Numbers
pub mod Examples
use msgsrvd.Prelude.{
  ℕ, zero, suc, ◌+◌, ◌-◌, ◌*◌, ◌/◌, ◌^◌, Bool, true, false, not, ◌&&◌, ◌||◌, Option, none, some,
  List, [], ◌∷◌, ltb, leb, ◌==◌, if◌then◌else◌, u64, u32,
}
use msgsrvd.Sys.Net.{SockAddr}

unfoldable pub str_eq : List ℕ → List ℕ → Bool
str_eq [] [] = true
str_eq [] (b ∷ bs) = false
str_eq (a ∷ xs) [] = false
str_eq (a ∷ xs) (b ∷ bs) = if a == b then str_eq xs bs else false

-- The loop of `parse_u64`.
unfoldable pub parse_number : List ℕ → ℕ → Option ℕ
parse_number [] v = some v
parse_number (b ∷ bs) v =
    let rest = parse_number bs (u64 (v * 10 + (b - 48))) in
    if ltb b 48 || ltb 57 b then none else if ltb ((2 ^ 64 - 1) / 10) v then none else rest

unfoldable pub parse_u64 : Option (List ℕ) → Option ℕ
unfolding parse_number
parse_u64 none = none
parse_u64 (some []) = none
parse_u64 (some (b ∷ bs)) = parse_number (b ∷ bs) 0

-- The number at the front of a text, as far as it is 255 at most: its value, how many digits it
-- has, and the text after it.
unfoldable pub parse_octet : List ℕ → ℕ → ℕ → Option (ℕ × ℕ × List ℕ)
parse_octet [] v digits = some (v, digits, [])
parse_octet (b ∷ bs) v digits =
    let v1 = u32 (v * 10 + (b - 48)) in
    let rest = parse_octet bs v1 (digits + 1) in
    if leb 48 b && leb b 57 then (if ltb 255 v1 then none else rest) else some (v, digits, b ∷ bs)

-- The text after a byte, where it starts with it.
abbrev pub after_byte : ℕ → List ℕ → Option (List ℕ)
after_byte b [] = none
after_byte b (c ∷ cs) = if c == b then some cs else none

-- So many octets, each but the last with a point after it.
unfoldable pub parse_octets : ℕ → ℕ → List ℕ → Option (ℕ × List ℕ)
unfolding parse_octet
parse_octets zero ip text = some (ip, text)
parse_octets (suc n) ip text = elim (parse_octet text 0 0) [
  | none ↦ none
  | some (v, digits, rest) ↦ elim (digits == 0) [
    | true ↦ none
    | false ↦
        let ip1 = u32 (ip * 256) + v in
        elim n [
          | zero ↦ some (ip1, rest)
          | suc k ↦ elim (after_byte 46 rest) [ none ↦ none | some next ↦ parse_octets n ip1 next ]
        ]
  ]
]

unfoldable pub parse_ip : Option (List ℕ) → Option (ℕ × List ℕ)
unfolding parse_octets
parse_ip none = none
parse_ip (some text) = parse_octets 4 0 text

-- A port that is one.
abbrev pub with_port : ℕ → Option ℕ → Option SockAddr
with_port ip none = none
with_port ip (some port) =
    if port == 0 || ltb 65535 port then none else some (record { sin_port = port; sin_addr = ip })

abbrev pub port_after : Option (ℕ × List ℕ) → Option SockAddr
port_after none = none
port_after (some (ip, rest)) = elim (after_byte 58 rest) [
  | none ↦ none
  | some text ↦ with_port ip (parse_u64 (some text))
]

unfoldable pub parse_addr : Option (List ℕ) → Option SockAddr
unfolding parse_ip parse_u64
parse_addr text = port_after (parse_ip text)
