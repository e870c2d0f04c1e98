-- ===== src/Wal/Record/Examples.antt =====
-- Records at concrete inputs.
use msgsrvd.Prelude.{
  ◌+◌, ◌%◌, ◌≤◌, ◌⊎◌, none, Option, length, ℕ, ◌-◌, ◌^◌, ◌<◌, ◌≡◌, ◌↔◌, refl, some, true, List, [],
  ◌∷◌, arith, take, drop, replicate, int32,
}
use msgsrvd.Core.Crc32c.Bitwise.{bitwise_unit}
use msgsrvd.Wal.Record.{
  Rec, rec_encode, rec_decode, rec_verify, rec_size, rec_header_size, rec_max_size, max_payload,
}
use msgsrvd.Wal.Record.Size.{rec_size_gate, rec_size_fits, rec_size_bounds}
use msgsrvd.Wal.Record.Bytes.{IsRec}
use msgsrvd.Wal.Record.Codec.{rec_encode_roundtrip, rec_encode_refuses}

abbrev pub three_bytes : Rec
three_bytes = record {
  crc = 9;
  len = 3;
  term = 1;
  seq = 5;
  session = 77;
  client_seq = 2;
  record_type = 0;
  flags = 3;
  pad = 4;
  partition_key = 0x1234_5678_9abc;
}

abbrev pub payload : List ℕ
payload = 10 ∷ 20 ∷ 30 ∷ []

pub three_bytes-IsRec : IsRec three_bytes
three_bytes-IsRec = omega arith

abbrev no_bytes : Option (List ℕ)
no_bytes = none

abbrev blank : List ℕ
blank = replicate 66 255

rec_size_example : (rec_size (int32 (2 ^ 32 - 1)) ≡ 0) ↔ (max_payload < 2 ^ 32 - 1)
rec_size_example = rec_size_gate (2 ^ 32 - 1) (omega arith)

rec_encode_roundtrip_example :
    let e = rec_encode bitwise_unit blank three_bytes (some payload) in
    (e.total ≡ rec_size (int32 3))
    × (rec_decode e.buf ≡ some e.r)
    × (rec_verify bitwise_unit e.buf e.r ≡ true)
    × (take 3 (drop rec_header_size e.buf) ≡ payload)
    × (drop e.total e.buf ≡ drop e.total blank)
    × (e.r ≡ record three_bytes { crc = e.r.crc; pad = 0 })
rec_encode_roundtrip_example =
    rec_encode_roundtrip bitwise_unit blank three_bytes payload three_bytes-IsRec (omega arith) refl
      (rw (rec_size_fits 3 (omega arith)) (omega arith))

rec_size_bounds_example :
    (rec_size (int32 3) ≡ 0)
    ⊎ ((rec_size (int32 3) % 8 ≡ 0)
        × (rec_header_size + 3 ≤ rec_size (int32 3))
        × (rec_size (int32 3) < rec_header_size + 3 + 8)
        × (rec_size (int32 3) ≤ rec_max_size))
rec_size_bounds_example = rec_size_bounds 3

rec_encode_refuses_example :
    ((rec_encode bitwise_unit blank three_bytes no_bytes).total ≡ 0)
    ↔ (((0 < 3) × (no_bytes ≡ none)) ⊎ ((max_payload < 3) ⊎ (length blank < rec_size (int32 3))))
rec_encode_refuses_example =
    rec_encode_refuses bitwise_unit blank three_bytes no_bytes (omega arith)
