-- ===== src/Proto/Msg/Payload.antt =====
-- src/proto/msg.h: the header and payload codecs over a bounded buffer.
-- A buffer is its bytes, `buf_len` of them; a payload pointer that may be null is an Option.
use msgsrvd.Prelude.{
  ℕ, ◌+◌, ◌-◌, ◌^◌, ◌≤◌, ◌<◌, ◌≡◌, ◌≢◌, refl, ap, ◌∙◌, Bool, true, false, not, ◌||◌, Option, none,
  some, List, ◌++◌, arith, length, take, drop, ltb, ◌==◌, if◌then◌else◌, le, of_le-le, ℤ, pos,
  negsuc, int32, u32, lt→ltb, le→ltb, length-append, take-append, drop-append,
}
use msgsrvd.Core.Mem.{mem_copy}
use msgsrvd.Proto.Op
use msgsrvd.Wal.Record.{field_at}
use msgsrvd.Proto.Msg.{
  Header, header_bytes, read_header, msg_magic, msg_version, msg_version_min, msg_header_size,
  msg_max_payload, msg_max_name, msg_max_err_text,
}

unfoldable pub msg_decode_header : List ℕ → Option Header
msg_decode_header buf =
    if ltb (length buf) msg_header_size
    then none
    else (let h = read_header buf in if not (h.magic == msg_magic) then none else some h)

-- The buffer with the header in front, or none where there is not enough space.
unfoldable pub msg_encode_header : List ℕ → Header → Option (List ℕ)
msg_encode_header buf h =
    if ltb (length buf) msg_header_size
    then none
    else some (mem_copy buf 0 (header_bytes h) msg_header_size)

abbrev pub msg_header_new : ℕ → ℕ → ℕ → ℕ → ℕ → ℕ → Header
msg_header_new op record_type flags payload_len partition_key sequence = record {
  magic = msg_magic;
  version = msg_version;
  flags = flags;
  op = op;
  record_type = record_type;
  payload_len = payload_len;
  partition_key = partition_key;
  sequence = sequence;
}

unfoldable pub msg_header_valid : Header → Bool
msg_header_valid h =
    if not (h.magic == msg_magic)
    then false
    else if ltb h.version msg_version_min || ltb msg_version h.version
    then false
    else if ltb h.op Op.lowest || ltb Op.highest h.op
    then false
    else not (ltb msg_max_payload h.payload_len)

-- The total against the bytes that are there.
abbrev pub complete_total : ℤ → ℕ → ℤ
complete_total (negsuc n) len = negsuc n
complete_total (pos total) len = if ltb len total then pos 0 else pos total

-- The sum is an int32_t that is taken to wrap.
unfoldable pub msg_complete_size : List ℕ → ℤ
msg_complete_size buf = elim (msg_decode_header buf) [
  | none ↦ pos 0
  | some h ↦ complete_total (int32 (u32 (msg_header_size + h.payload_len))) (length buf)
]

-- The payload's bytes, or none for NULL.
unfoldable pub msg_payload_ptr : List ℕ → Option (List ℕ)
msg_payload_ptr buf =
    if ltb (length buf) msg_header_size then none else some (drop msg_header_size buf)

-- The bytes that a struct of this size is read from.
abbrev pub msg_payload_get : Option (List ℕ) → ℕ → Option (List ℕ)
msg_payload_get none size = none
msg_payload_get (some buf) size = if ltb (length buf) size then none else some (take size buf)

-- The buffer with the struct's bytes in front.
abbrev pub msg_payload_put : Option (List ℕ) → List ℕ → ℕ → Option (List ℕ)
msg_payload_put none bytes size = none
msg_payload_put (some buf) bytes size =
    if ltb (length buf) size then none else some (mem_copy buf 0 bytes size)

-- The payloads as they lie in memory, with their padding; each reads back its fields.
abbrev pub msg_hello_size : ℕ
msg_hello_size = 16

pub record Hello : Type 0 where
  pub session : ℕ
  pub name_len : ℕ
  pub pad0 : ℕ
  pub pad1 : ℕ

abbrev pub hello_bytes : Hello → List ℕ
hello_bytes h = le 8 h.session ++ (le 2 h.name_len ++ (le 2 h.pad0 ++ le 4 h.pad1))

abbrev pub read_hello : List ℕ → Hello
read_hello buf = record {
  session = field_at 0 8 buf;
  name_len = field_at 8 2 buf;
  pad0 = field_at 10 2 buf;
  pad1 = field_at 12 4 buf;
}

abbrev pub msg_ack_size : ℕ
msg_ack_size = 8

pub record AckPayload : Type 0 where
  pub client_seq : ℕ

abbrev pub ack_bytes : AckPayload → List ℕ
ack_bytes a = le 8 a.client_seq

abbrev pub msg_err_size : ℕ
msg_err_size = 8

pub record ErrPayload : Type 0 where
  pub code : ℕ
  pub text_len : ℕ
  pub pad : ℕ

abbrev pub err_bytes : ErrPayload → List ℕ
err_bytes p = le 2 p.code ++ (le 2 p.text_len ++ le 4 p.pad)

abbrev pub read_err : List ℕ → ErrPayload
read_err buf = record {
  code = field_at 0 2 buf;
  text_len = field_at 2 2 buf;
  pad = field_at 4 4 buf;
}

abbrev pub msg_read_size : ℕ
msg_read_size = 8

pub record ReadRequest : Type 0 where
  pub min_seq : ℕ

abbrev pub msg_subscribe_size : ℕ
msg_subscribe_size = 16

pub record Subscribe : Type 0 where
  pub min_seq : ℕ
  pub from_seq : ℕ

abbrev pub subscribe_bytes : Subscribe → List ℕ
subscribe_bytes r = le 8 r.min_seq ++ le 8 r.from_seq

-- A struct out of the bytes that were got.
abbrev pub got {ℓ} : {A : Type ℓ} → (List ℕ → A) → Option (List ℕ) → Option A
got read none = none
got read (some bytes) = some (read bytes)

abbrev pub msg_decode_hello : Option (List ℕ) → Option Hello
msg_decode_hello buf = got read_hello (msg_payload_get buf msg_hello_size)

abbrev pub msg_encode_hello : Option (List ℕ) → Hello → Option (List ℕ)
msg_encode_hello buf h = msg_payload_put buf (hello_bytes h) msg_hello_size

abbrev pub msg_decode_ack : Option (List ℕ) → Option AckPayload
msg_decode_ack buf =
    got (λ bytes. record { client_seq = field_at 0 8 bytes }) (msg_payload_get buf msg_ack_size)

abbrev pub msg_encode_ack : Option (List ℕ) → AckPayload → Option (List ℕ)
msg_encode_ack buf a = msg_payload_put buf (ack_bytes a) msg_ack_size

abbrev pub msg_decode_err : Option (List ℕ) → Option ErrPayload
msg_decode_err buf = got read_err (msg_payload_get buf msg_err_size)

abbrev pub msg_encode_err : Option (List ℕ) → ErrPayload → Option (List ℕ)
msg_encode_err buf p = msg_payload_put buf (err_bytes p) msg_err_size

abbrev pub msg_decode_read : Option (List ℕ) → Option ReadRequest
msg_decode_read buf =
    got (λ bytes. record { min_seq = field_at 0 8 bytes }) (msg_payload_get buf msg_read_size)

abbrev pub msg_encode_read : Option (List ℕ) → ReadRequest → Option (List ℕ)
msg_encode_read buf r = msg_payload_put buf (le 8 r.min_seq) msg_read_size

abbrev pub msg_decode_subscribe : Option (List ℕ) → Option Subscribe
msg_decode_subscribe buf =
    got (λ bytes. record { min_seq = field_at 0 8 bytes; from_seq = field_at 8 8 bytes })
      (msg_payload_get buf msg_subscribe_size)

abbrev pub msg_encode_subscribe : Option (List ℕ) → Subscribe → Option (List ℕ)
msg_encode_subscribe buf r = msg_payload_put buf (subscribe_bytes r) msg_subscribe_size

unfoldable pub msg_hello_valid : Hello → ℕ → Bool
msg_hello_valid h payload_len =
    if ltb payload_len msg_hello_size
    then false
    else if ltb msg_max_name h.name_len
    then false
    else h.name_len == payload_len - msg_hello_size

-- The bytes behind a fixed part, or none where there are not any.
abbrev pub tail_of : Option (List ℕ) → ℕ → Option (List ℕ)
tail_of none size = none
tail_of (some payload) size = if ltb size (length payload) then some (drop size payload) else none

abbrev pub msg_hello_name : Option (List ℕ) → Option (List ℕ)
msg_hello_name payload = tail_of payload msg_hello_size

unfoldable pub msg_err_valid : ErrPayload → ℕ → Bool
msg_err_valid p payload_len =
    if ltb payload_len msg_err_size
    then false
    else if ltb msg_max_err_text p.text_len
    then false
    else p.text_len == payload_len - msg_err_size

abbrev pub msg_err_text : Option (List ℕ) → Option (List ℕ)
msg_err_text payload = tail_of payload msg_err_size

get-append :
    (size : ℕ) (bytes tail : List ℕ)
    → length bytes ≡ size
    → msg_payload_get (some (bytes ++ tail)) size ≡ some bytes
get-append size bytes tail e =
    let whole : ltb (length (bytes ++ tail)) size ≡ false =
      le→ltb _ _ (omega (arith, length-append bytes tail)) in
    rw whole (ap some (take-append size bytes tail e))

tail_of-append :
    (size : ℕ) (bytes tail : List ℕ)
    → length bytes ≡ size
    → 0 < length tail
    → tail_of (some (bytes ++ tail)) size ≡ some tail
tail_of-append size bytes tail e more =
    let whole : ltb size (length (bytes ++ tail)) ≡ true =
      lt→ltb _ _ (omega (arith, length-append bytes tail)) in
    rw whole (ap some (drop-append size bytes tail e))

-- For a code that fits a uint16_t and a text of 1 to 64 bytes: the ERR payload with the text behind
-- it is decoded to the same code and length, is valid, and gives back the text.
pub err_payload_roundtrip :
    (code pad : ℕ) (text : List ℕ)
    → code < 2 ^ 16
    → pad < 2 ^ 32
    → 0 < length text
    → length text ≤ msg_max_err_text
    → let p : ErrPayload = record { code = code; text_len = length text; pad = pad } in
      let payload = err_bytes p ++ text in
      (msg_decode_err (some payload) ≡ some p)
      × (msg_err_valid p (length payload) ≡ true)
      × (msg_err_text (some payload) ≡ some text)
unfolding msg_err_valid
err_payload_roundtrip code pad text c d some_text fits =
    let p : ErrPayload = record { code = code; text_len = length text; pad = pad } in
    (
      ap (got read_err) (get-append msg_err_size (err_bytes p) text refl) ∙ (λ i. some (record {
        code = of_le-le 2 code c i;
        text_len = of_le-le 2 (length text) (omega arith) i;
        pad = of_le-le 4 pad d i;
      })),
      ground arith,
      tail_of-append msg_err_size (err_bytes p) text refl some_text,
    )

-- For a uint64_t session and a name of 1 to 64 bytes: the HELLO payload with the name behind it is
-- decoded to the same session and length, is valid, and gives back the name; and under any other
-- payload length it is not valid.
pub hello_payload_roundtrip :
    (session pad0 pad1 : ℕ) (name : List ℕ)
    → session < 2 ^ 64
    → pad0 < 2 ^ 16
    → pad1 < 2 ^ 32
    → 0 < length name
    → length name ≤ msg_max_name
    → let h : Hello = record {
      session = session;
      name_len = length name;
      pad0 = pad0;
      pad1 = pad1;
    } in
      let payload = hello_bytes h ++ name in
      (msg_decode_hello (some payload) ≡ some h)
      × (msg_hello_valid h (length payload) ≡ true)
      × (msg_hello_name (some payload) ≡ some name)
      × ((n : ℕ) → n ≢ length payload → msg_hello_valid h n ≡ false)
unfolding msg_hello_valid
hello_payload_roundtrip session pad0 pad1 name s p0 p1 some_name fits =
    let h : Hello = record {
      session = session;
      name_len = length name;
      pad0 = pad0;
      pad1 = pad1;
    } in
    (
      ap (got read_hello) (get-append msg_hello_size (hello_bytes h) name refl) ∙ (λ i.
          some (record {
            session = of_le-le 8 session s i;
            name_len = of_le-le 2 (length name) (omega arith) i;
            pad0 = of_le-le 2 pad0 p0 i;
            pad1 = of_le-le 4 pad1 p1 i;
          })),
      ground arith,
      tail_of-append msg_hello_size (hello_bytes h) name refl some_name,
      λ n other. ground arith,
    )
