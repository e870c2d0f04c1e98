-- ===== src/Server/Main/Examples.antt =====
-- The reading of numbers and addresses on concrete inputs.
use msgsrvd.Prelude.{ℕ, ◌≡◌, refl, List, [], ◌∷◌, some, arith}
use msgsrvd.Server.Main.{parse_u64, parse_addr}
use msgsrvd.Server.Main.Numbers.{IsPrinted, parse_u64-fmt_u64}

-- 127.0.0.1:7000
abbrev loopback : List ℕ
loopback = 49 ∷ 50 ∷ 55 ∷ 46 ∷ 48 ∷ 46 ∷ 48 ∷ 46 ∷ 49 ∷ 58 ∷ 55 ∷ 48 ∷ 48 ∷ 48 ∷ []

loopback_read :
    parse_addr (some loopback) ≡ some (record { sin_port = 7000; sin_addr = 2130706433 })
unfolding parse_addr
loopback_read = refl

-- 18446744073709551616 is 2 ^ 64.
abbrev too_large : List ℕ
too_large =
    49 ∷ 56 ∷ 52 ∷ 52 ∷ 54 ∷ 55 ∷ 52 ∷ 52 ∷ 48 ∷ 55 ∷ 51 ∷ 55 ∷ 48 ∷ 57 ∷ 53 ∷ 53 ∷ 49 ∷ 54 ∷ 49
    ∷ 54 ∷ []

too_large_read : parse_u64 (some too_large) ≡ some 0
unfolding parse_u64
too_large_read = refl

parse_u64-fmt_u64_example : IsPrinted 32 (58 ∷ []) 4096
parse_u64-fmt_u64_example = parse_u64-fmt_u64 32 (58 ∷ []) 4096 (omega arith) (omega arith)
