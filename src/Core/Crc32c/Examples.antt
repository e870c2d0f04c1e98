-- ===== src/Core/Crc32c/Examples.antt =====
-- The checksum at concrete inputs.
use msgsrvd.Prelude.{◌≡◌, refl, [], ◌∷◌, arith}
use msgsrvd.Core.Crc32c.{crc_tail, crc_loop, crc32c}
use msgsrvd.Core.Crc32c.Chunks.{crc32c-append}
use msgsrvd.Core.Crc32c.Bitwise.{bitwise_unit, bitwise_unit-IsCrcUnit}

-- The published check value of CRC32C.
check_value :
    crc32c bitwise_unit 0 (0x31 ∷ 0x32 ∷ 0x33 ∷ 0x34 ∷ 0x35 ∷ 0x36 ∷ 0x37 ∷ 0x38 ∷ 0x39 ∷ [])
    ≡ 0xe306_9283
unfolding crc32c crc_loop crc_tail bitwise_unit
check_value = refl

crc32c-append_example :
    crc32c bitwise_unit (crc32c bitwise_unit 0 (1 ∷ 2 ∷ [])) (3 ∷ 4 ∷ [])
    ≡ crc32c bitwise_unit 0 (1 ∷ 2 ∷ 3 ∷ 4 ∷ [])
crc32c-append_example =
    crc32c-append bitwise_unit 0 (1 ∷ 2 ∷ []) (3 ∷ 4 ∷ []) bitwise_unit-IsCrcUnit (omega arith)
      (omega arith) (omega arith)
