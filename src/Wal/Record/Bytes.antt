-- ===== src/Wal/Record/Bytes.antt =====
-- The struct's bytes: their number, and reading the fields back.
use msgsrvd.Prelude.{ℕ, ◌^◌, ◌<◌, ◌≡◌, refl, some, List, ◌++◌, arith, length, of_le-le, le→ltb}
use msgsrvd.Wal.Record.{Rec, rec_bytes, rec_decode, rec_header_size}

-- Each field fits its width.
pub record IsRec (r : Rec) : Type 0 where
  pub crc_fits : r.crc < 2 ^ 32
  pub len_fits : r.len < 2 ^ 32
  pub term_fits : r.term < 2 ^ 64
  pub seq_fits : r.seq < 2 ^ 64
  pub session_fits : r.session < 2 ^ 64
  pub client_seq_fits : r.client_seq < 2 ^ 64
  pub record_type_fits : r.record_type < 2 ^ 16
  pub flags_fits : r.flags < 2 ^ 16
  pub pad_fits : r.pad < 2 ^ 32
  pub partition_key_fits : r.partition_key < 2 ^ 64

pub length-rec_bytes : (r : Rec) → length (rec_bytes r) ≡ rec_header_size
unfolding rec_bytes
length-rec_bytes r = refl

-- Decoding the bytes of a header, whatever follows them.
pub rec_decode-rec_bytes :
    (r : Rec) (rest : List ℕ) → IsRec r → rec_decode (rec_bytes r ++ rest) ≡ some r
unfolding rec_decode rec_bytes
rec_decode-rec_bytes r rest v =
    rw (le→ltb (length (rec_bytes r ++ rest)) rec_header_size (omega arith)) (λ i. some (record {
      crc = of_le-le 4 r.crc v.crc_fits i;
      len = of_le-le 4 r.len v.len_fits i;
      term = of_le-le 8 r.term v.term_fits i;
      seq = of_le-le 8 r.seq v.seq_fits i;
      session = of_le-le 8 r.session v.session_fits i;
      client_seq = of_le-le 8 r.client_seq v.client_seq_fits i;
      record_type = of_le-le 2 r.record_type v.record_type_fits i;
      flags = of_le-le 2 r.flags v.flags_fits i;
      pad = of_le-le 4 r.pad v.pad_fits i;
      partition_key = of_le-le 8 r.partition_key v.partition_key_fits i;
    }))
