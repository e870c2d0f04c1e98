-- ===== src/Wal/Record/Size.antt =====
-- `wal_rec_size` as the one gate on a length.
use msgsrvd.Prelude.{ℕ, ◌+◌, ◌%◌, ◌^◌, ◌≤◌, ◌<◌, ◌≡◌, ◌↔◌, ◌⊎◌, arith, int32, round_up8}
use msgsrvd.Wal.Record.{rec_size, max_payload, rec_max_size, rec_header_size}

-- Of the length field of a header, any uint32_t: the size is 0 exactly when the length is above
-- the largest payload, one that the cast to int32_t makes negative included.
pub rec_size_gate : (len : ℕ) → len < 2 ^ 32 → (rec_size (int32 len) ≡ 0) ↔ (max_payload < len)
unfolding rec_size
rec_size_gate len h = ground arith

-- A length in range gives the header and the payload rounded up to 8 bytes.
pub rec_size_fits :
    (len : ℕ) → len ≤ max_payload → rec_size (int32 len) ≡ rec_header_size + round_up8 len
unfolding rec_size
rec_size_fits len h = ground arith

-- Every size but 0 is a multiple of 8, holds the header and the payload with less than 8 bytes of
-- padding, and is at most the largest record, whatever the length field holds.
pub rec_size_bounds :
    (len : ℕ)
    → (rec_size (int32 len) ≡ 0)
      ⊎ ((rec_size (int32 len) % 8 ≡ 0)
          × (rec_header_size + len ≤ rec_size (int32 len))
          × (rec_size (int32 len) < rec_header_size + len + 8)
          × (rec_size (int32 len) ≤ rec_max_size))
unfolding rec_size
rec_size_bounds len = ground arith
