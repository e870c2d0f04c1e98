-- ===== src/Proto/Msg/Examples.antt =====
-- A header at concrete values.
use msgsrvd.Prelude.{
  ℕ, ◌≢◌, ◌⊎◌, ◌<◌, ◌≤◌, true, false, none, some, length, ◌-◌, ◌^◌, ◌≡◌, List, [], ◌∷◌, ◌++◌, arith,
  drop, replicate,
}
use msgsrvd.Proto.Op
use msgsrvd.Proto.Msg.{Header, msg_magic, msg_header_size}
use msgsrvd.Proto.Msg.Payload.{
  msg_decode_header, msg_encode_header, Hello, hello_bytes, msg_decode_hello, msg_hello_valid,
  msg_hello_name, hello_payload_roundtrip,
}
use msgsrvd.Proto.Msg.Codec.{IsHeader}
use msgsrvd.Proto.Msg.Encoded.{IsDecoded, msg_decode_header-msg_encode_header}

abbrev raw : List ℕ
raw = replicate 40 200

abbrev ack : Header
ack = record {
  magic = msg_magic;
  version = 2;
  flags = 0;
  op = Op.ack;
  record_type = 3;
  payload_len = 24;
  partition_key = 0x1234;
  sequence = 2 ^ 64 - 1;
}

ack-IsHeader : IsHeader ack
ack-IsHeader = omega arith

msg_decode_header-msg_encode_header_example :
    ((40 < msg_header_size) × (msg_encode_header raw ack ≡ none) × (msg_decode_header raw ≡ none))
    ⊎ ((msg_header_size ≤ 40)
        × (out : List ℕ) × (msg_encode_header raw ack ≡ some out)
        × (length out ≡ 40)
        × (drop msg_header_size out ≡ replicate 8 200)
        × IsDecoded ack (msg_decode_header out))
msg_decode_header-msg_encode_header_example =
    msg_decode_header-msg_encode_header raw ack ack-IsHeader

hello_payload_roundtrip_example :
    let h : Hello = record { session = 77; name_len = 3; pad0 = 0; pad1 = 0 } in
    let payload = hello_bytes h ++ (65 ∷ 66 ∷ 67 ∷ []) in
    (msg_decode_hello (some payload) ≡ some h)
    × (msg_hello_valid h (length payload) ≡ true)
    × (msg_hello_name (some payload) ≡ some (65 ∷ 66 ∷ 67 ∷ []))
    × ((n : ℕ) → n ≢ length payload → msg_hello_valid h n ≡ false)
hello_payload_roundtrip_example =
    hello_payload_roundtrip 77 0 0 (65 ∷ 66 ∷ 67 ∷ []) (omega arith) (omega arith) (omega arith)
      (omega arith) (omega arith)
