-- ===== src/Proto/Msg/Codec.antt =====
-- The header's bytes: their number, and the two round trips.
use msgsrvd.Prelude.{
  ℕ, ◌+◌, ◌^◌, ◌≤◌, ◌<◌, ◌≡◌, refl, sym, ap, ◌∙◌, List, ◌++◌, arith, length, take, drop, of_le-le,
  le, of_le, All, All-take, All-drop, IsByte, le-of_le, length-take, length-drop, take-append-take,
  take-drop, take-take,
}
use msgsrvd.Wal.Record.{field_at}
use msgsrvd.Proto.Msg.{Header, header_bytes, read_header, msg_header_size}

-- Each field fits its width.
pub record IsHeader (h : Header) : Type 0 where
  pub magic_fits : h.magic < 2 ^ 32
  pub version_fits : h.version < 2 ^ 16
  pub flags_fits : h.flags < 2 ^ 16
  pub op_fits : h.op < 2 ^ 16
  pub record_type_fits : h.record_type < 2 ^ 16
  pub payload_len_fits : h.payload_len < 2 ^ 32
  pub partition_key_fits : h.partition_key < 2 ^ 64
  pub sequence_fits : h.sequence < 2 ^ 64

pub length-header_bytes : (h : Header) → length (header_bytes h) ≡ msg_header_size
unfolding header_bytes
length-header_bytes h = refl

-- A header whose fields fit their widths is read back from its bytes, whatever follows them.
pub read_header-header_bytes :
    (h : Header) (rest : List ℕ) → IsHeader h → read_header (header_bytes h ++ rest) ≡ h
unfolding read_header header_bytes
read_header-header_bytes h rest v i = record {
  magic = of_le-le 4 h.magic v.magic_fits i;
  version = of_le-le 2 h.version v.version_fits i;
  flags = of_le-le 2 h.flags v.flags_fits i;
  op = of_le-le 2 h.op v.op_fits i;
  record_type = of_le-le 2 h.record_type v.record_type_fits i;
  payload_len = of_le-le 4 h.payload_len v.payload_len_fits i;
  partition_key = of_le-le 8 h.partition_key v.partition_key_fits i;
  sequence = of_le-le 8 h.sequence v.sequence_fits i;
}

-- A field lies within a prefix that reaches past it.
field_at-take :
    (n off k : ℕ) (xs : List ℕ) → off + k ≤ n → field_at off k (take n xs) ≡ field_at off k xs
field_at-take n off k xs h = ap of_le (
    take-drop k off (take n xs)
    ∙ ap (λ (ys : List ℕ). drop off ys) (take-take (off + k) n xs h)
    ∙ sym (take-drop k off xs))

-- Only the first 32 bytes are read.
pub read_header-take : (xs : List ℕ) → read_header (take msg_header_size xs) ≡ read_header xs
unfolding read_header
read_header-take xs i = record {
  magic = field_at-take 32 0 4 xs (omega arith) i;
  version = field_at-take 32 4 2 xs (omega arith) i;
  flags = field_at-take 32 6 2 xs (omega arith) i;
  op = field_at-take 32 8 2 xs (omega arith) i;
  record_type = field_at-take 32 10 2 xs (omega arith) i;
  payload_len = field_at-take 32 12 4 xs (omega arith) i;
  partition_key = field_at-take 32 16 8 xs (omega arith) i;
  sequence = field_at-take 32 24 8 xs (omega arith) i;
}

le-field_at :
    (off k : ℕ) (xs : List ℕ)
    → All IsByte xs
    → off + k ≤ length xs
    → le k (field_at off k xs) ≡ take k (drop off xs)
le-field_at off k xs h fits =
    le-of_le (take k (drop off xs)) k (All-take IsByte k (drop off xs) (All-drop IsByte off xs h))
      (omega (arith, length-take k (drop off xs), length-drop off xs))

-- Writing a header that was read gives back the bytes it was read from.
pub header_bytes-read_header :
    (xs : List ℕ)
    → All IsByte xs
    → msg_header_size ≤ length xs
    → header_bytes (read_header xs) ≡ take msg_header_size xs
unfolding header_bytes read_header
header_bytes-read_header xs h fits =
    (λ i.
      le-field_at 0 4 xs h (omega arith) i
      ++ (le-field_at 4 2 xs h (omega arith) i
          ++ (le-field_at 6 2 xs h (omega arith) i
              ++ (le-field_at 8 2 xs h (omega arith) i
                  ++ (le-field_at 10 2 xs h (omega arith) i
                      ++ (le-field_at 12 4 xs h (omega arith) i
                          ++ (le-field_at 16 8 xs h (omega arith) i
                              ++ le-field_at 24 8 xs h (omega arith) i)))))))
    ∙ take-append-take 4 28 0 xs _ (
        take-append-take 2 26 4 xs _ (
          take-append-take 2 24 6 xs _ (
            take-append-take 2 22 8 xs _ (
              take-append-take 2 20 10 xs _
                (take-append-take 4 16 12 xs _ (take-append-take 8 8 16 xs _ refl))))))
