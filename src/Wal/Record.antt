-- ===== src/Wal/Record.antt =====
-- src/wal/record.h and record.c: one log record in memory and on disk.
pub mod Size
pub mod Codec
pub mod Bytes
pub mod Examples
use msgsrvd.Prelude.{
  ℕ, ◌+◌, ◌-◌, ◌*◌, ◌/◌, ◌^◌, Bool, true, false, ◌&&◌, ◌||◌, Option, none, some, List, ◌++◌, length,
  take, drop, replicate, ltb, ◌==◌, if◌then◌else◌, le, of_le, ℤ, pos, negsuc, int32, round_up8,
}
use msgsrvd.Core.Crc32c.{CrcUnit, crc32c}

abbrev pub rec_header_size : ℕ
rec_header_size = 56

-- MSG_MAX_PAYLOAD, which WAL_MAX_PAYLOAD repeats.
abbrev pub max_payload : ℕ
max_payload = 1024 * 1024

abbrev pub rec_max_size : ℕ
rec_max_size = rec_header_size + round_up8 max_payload

abbrev pub crc_offset : ℕ
crc_offset = 4

pub record Rec : Type 0 where
  pub crc : ℕ
  pub len : ℕ
  pub term : ℕ
  pub seq : ℕ
  pub session : ℕ
  pub client_seq : ℕ
  pub record_type : ℕ
  pub flags : ℕ
  pub pad : ℕ
  pub partition_key : ℕ

-- The size on disk, or 0 where the length is out of range.
unfoldable pub rec_size : ℤ → ℕ
rec_size (negsuc n) = 0
rec_size (pos n) = if ltb max_payload n then 0 else rec_header_size + round_up8 n

-- The struct as it lies in memory, little-endian and with no gaps.
pub rec_bytes : Rec → List ℕ
rec_bytes r =
    le 4 r.crc
    ++ (le 4 r.len
        ++ (le 8 r.term
            ++ (le 8 r.seq
                ++ (le 8 r.session
                    ++ (le 8 r.client_seq
                        ++ (le 2 r.record_type
                            ++ (le 2 r.flags ++ (le 4 r.pad ++ le 8 r.partition_key))))))))

-- A field of k bytes at an offset.
abbrev pub field_at : ℕ → ℕ → List ℕ → ℕ
field_at off k buf = of_le (take k (drop off buf))

abbrev read_rec : List ℕ → Rec
read_rec buf = record {
  crc = field_at 0 4 buf;
  len = field_at 4 4 buf;
  term = field_at 8 8 buf;
  seq = field_at 16 8 buf;
  session = field_at 24 8 buf;
  client_seq = field_at 32 8 buf;
  record_type = field_at 40 2 buf;
  flags = field_at 42 2 buf;
  pad = field_at 44 4 buf;
  partition_key = field_at 48 8 buf;
}

-- The buffer is the list of the bytes that are there.
unfoldable pub rec_decode : List ℕ → Option Rec
rec_decode buf = if ltb (length buf) rec_header_size then none else some (read_rec buf)

unfoldable pub rec_is_end : Rec → Bool
rec_is_end r = r.seq == 0

-- A null payload pointer where the length is positive.
abbrev pub no_payload : ℤ → Option (List ℕ) → Bool
no_payload (pos n) none = ltb 0 n
no_payload (pos n) (some p) = false
no_payload (negsuc n) payload = false

abbrev pub payload_bytes : Option (List ℕ) → List ℕ
payload_bytes none = List.[]
payload_bytes (some p) = p

-- What the encoder leaves behind: the bytes written, or 0, and the caller's buffer and record.
pub record Encoded : Type 0 where
  pub total : ℕ
  pub buf : List ℕ
  pub r : Rec

module _ (hw : CrcUnit) where
  -- Header, payload and zeroed padding, before the checksum is put in front.
  pub image : Rec → List ℕ → ℕ → List ℕ
  image r p padded = rec_bytes r ++ (take r.len p ++ replicate (padded - r.len) 0)

  encode_into : List ℕ → Rec → List ℕ → ℕ → Encoded
  unfolding image
  encode_into buf r p total =
      let r0 = record r { crc = 0; pad = 0 } in
      let bytes = image r0 p (total - rec_header_size) in
      let sum = crc32c hw 0 (drop crc_offset bytes) in
      record {
        total = total;
        buf = le 4 sum ++ (drop crc_offset bytes ++ drop total buf);
        r = record r0 { crc = sum };
      }

  pub rec_encode : List ℕ → Rec → Option (List ℕ) → Encoded
  unfolding encode_into
  rec_encode buf r payload =
      let len = int32 r.len in
      let total = rec_size len in
      if no_payload len payload || (total == 0 || ltb (length buf) total)
      then record { total = 0; buf = buf; r = r }
      else encode_into buf r (payload_bytes payload) total

  pub rec_verify : List ℕ → Rec → Bool
  rec_verify buf r =
      let total = rec_size (int32 r.len) in
      if total == 0 || ltb (length buf) total
      then false
      else crc32c hw 0 (drop crc_offset (take total buf)) == r.crc
