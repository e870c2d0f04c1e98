-- ===== src/Wal/Record/Codec.antt =====
-- What the encoder writes, and that the decoder and the verifier accept it.
use msgsrvd.Prelude.{
  take-take, take-drop-take, take-replicate, ◌≢◌, false, ℕ, ◌+◌, ◌-◌, ◌^◌, ◌≤◌, ◌<◌, ◌≡◌, ◌↔◌, ◌⊎◌,
  refl, sym, ap, ◌∙◌, true, false, ◌||◌, Option, some, none, List, [], ◌++◌, arith, length, take,
  drop, replicate, length-append, length-take, length-replicate, take-append, take-le, drop-append,
  append_assoc, int32, ltb, ◌==◌, le→ltb,
}
use msgsrvd.Core.Crc32c.{CrcUnit, crc32c}
use msgsrvd.Core.Crc32c.Chunks.{crc32c-lt}
use msgsrvd.Wal.Record.{
  Rec, rec_bytes, rec_size, rec_decode, rec_encode, rec_verify, image, encode_into, rec_header_size,
  rec_is_end, max_payload, crc_offset, no_payload,
}
use msgsrvd.Wal.Record.Size.{rec_size_fits, rec_size_gate}
use msgsrvd.Wal.Record.Bytes.{IsRec, length-rec_bytes, rec_decode-rec_bytes}

module _ (hw : CrcUnit) where
  -- The checksum that the encoder computes for a record with this payload.
  pub checksum : Rec → List ℕ → ℕ
  checksum r p = crc32c hw 0 (
      drop crc_offset
        (image hw (record r { crc = 0; pad = 0 }) p (rec_size (int32 r.len) - rec_header_size)))

  -- The record as the encoder leaves it, and its bytes on disk.
  abbrev pub sealed : Rec → List ℕ → Rec
  sealed r p = record r { crc = checksum r p; pad = 0 }

  pub disk_image : Rec → List ℕ → List ℕ
  disk_image r p = image hw (sealed r p) p (rec_size (int32 r.len) - rec_header_size)

  checksum-lt : (r : Rec) (p : List ℕ) → checksum r p < 2 ^ 32
  unfolding checksum
  checksum-lt r p = crc32c-lt hw 0 _ (omega arith)

  pub sealed-IsRec : (r : Rec) (p : List ℕ) → IsRec r → IsRec (sealed r p)
  sealed-IsRec r p v = record {
    crc_fits = checksum-lt r p;
    len_fits = v.len_fits;
    term_fits = v.term_fits;
    seq_fits = v.seq_fits;
    session_fits = v.session_fits;
    client_seq_fits = v.client_seq_fits;
    record_type_fits = v.record_type_fits;
    flags_fits = v.flags_fits;
    pad_fits = omega arith;
    partition_key_fits = v.partition_key_fits;
  }

  pub length-disk_image :
      (r : Rec) (p : List ℕ)
      → r.len ≤ max_payload
      → length p ≡ r.len
      → length (disk_image r p) ≡ rec_size (int32 r.len)
  unfolding disk_image image
  length-disk_image r p small e =
      let padded = rec_size (int32 r.len) - rec_header_size in
      omega (
        arith,
        length-append (rec_bytes (sealed r p)) (take r.len p ++ replicate (padded - r.len) 0),
        length-rec_bytes (sealed r p),
        length-append (take r.len p) (replicate (padded - r.len) 0),
        length-take r.len p,
        length-replicate {A = ℕ} (padded - r.len) 0,
        rec_size_fits r.len small,
      )

  pub rec_decode-disk_image :
      (r : Rec) (p rest : List ℕ)
      → IsRec r
      → rec_decode (disk_image r p ++ rest) ≡ some (sealed r p)
  unfolding disk_image image
  rec_decode-disk_image r p rest v =
      rw (append_assoc (rec_bytes (sealed r p)))
        (rec_decode-rec_bytes (sealed r p) _ (sealed-IsRec r p v))

  pub rec_verify-disk_image :
      (r : Rec) (p rest : List ℕ)
      → r.len ≤ max_payload
      → length p ≡ r.len
      → rec_verify hw (disk_image r p ++ rest) (sealed r p) ≡ true
  unfolding rec_verify
  rec_verify-disk_image r p rest small e =
      let total = rec_size (int32 r.len) in
      let n = length-disk_image r p small e in
      let here = rec_size_fits r.len small in
      let room : total ≤ length (disk_image r p ++ rest) =
        omega (arith, length-append (disk_image r p) rest) in
      let front = take-append total (disk_image r p) rest n in
      let same : crc32c hw 0 (drop crc_offset (disk_image r p)) ≡ checksum r p =
        unfold disk_image checksum image rec_bytes in refl in
      rw (front, same) (ground (arith, here, room))

  -- Where the length is in range, the payload is there and the buffer has room, the encoder
  -- overwrites the front of the buffer with the record's image.
  pub rec_encode-eq-disk_image :
      (buf : List ℕ) (r : Rec) (p : List ℕ)
      → r.len ≤ max_payload
      → rec_size (int32 r.len) ≤ length buf
      → rec_encode hw buf r (some p) ≡ record {
        total = rec_size (int32 r.len);
        buf = disk_image r p ++ drop (rec_size (int32 r.len)) buf;
        r = sealed r p;
      }
  unfolding rec_encode
  rec_encode-eq-disk_image buf r p small room =
      let total = rec_size (int32 r.len) in
      let here = rec_size_fits r.len small in
      let go : no_payload (int32 r.len) (some p) || (total == 0 || ltb (length buf) total) ≡ false =
        ground (arith, here) in
      rw go (unfold encode_into disk_image checksum image rec_bytes in refl)

  drop-disk_image :
      (r : Rec) (p rest : List ℕ)
      → length p ≡ r.len
      → take r.len (drop rec_header_size (disk_image r p ++ rest)) ≡ p
  unfolding disk_image image rec_bytes
  drop-disk_image r p rest e =
      let tail : List ℕ = replicate (rec_size (int32 r.len) - rec_header_size - r.len) 0 in
      let whole : take r.len p ≡ p = take-le r.len p (omega arith) in
      rw (whole, append_assoc p tail rest) (take-append r.len p (tail ++ rest) e)

  -- For a record whose fields fit their widths, a payload of the stated length within the limit and
  -- a buffer with room for the record: the encoder returns the record's size, the decoder reads back
  -- the record that the encoder left with the caller, the verifier accepts it, the payload stands
  -- behind the header, and the rest of the buffer and all of the caller's record but the checksum and
  -- the padding word are unchanged.
  pub rec_encode_roundtrip :
      (buf : List ℕ) (r : Rec) (p : List ℕ)
      → IsRec r
      → r.len ≤ max_payload
      → length p ≡ r.len
      → rec_size (int32 r.len) ≤ length buf
      → let e = rec_encode hw buf r (some p) in
        (e.total ≡ rec_size (int32 r.len))
        × (rec_decode e.buf ≡ some e.r)
        × (rec_verify hw e.buf e.r ≡ true)
        × (take r.len (drop rec_header_size e.buf) ≡ p)
        × (drop e.total e.buf ≡ drop e.total buf)
        × (e.r ≡ record r { crc = e.r.crc; pad = 0 })
  rec_encode_roundtrip buf r p v small e room =
      let total = rec_size (int32 r.len) in
      rw (rec_encode-eq-disk_image buf r p small room) (
        refl,
        rec_decode-disk_image r p (drop total buf) v,
        rec_verify-disk_image r p (drop total buf) small e,
        drop-disk_image r p (drop total buf) e,
        drop-append total (disk_image r p) (drop total buf) (length-disk_image r p small e),
        refl,
      )

  -- For a uint32_t length field, the encoder returns 0 exactly when a payload is missing, the length
  -- is above the limit or the buffer is too short.
  pub rec_encode_refuses :
      (buf : List ℕ) (r : Rec) (payload : Option (List ℕ))
      → r.len < 2 ^ 32
      → ((rec_encode hw buf r payload).total ≡ 0) ↔ (
          ((0 < r.len) × (payload ≡ none))
          ⊎ ((max_payload < r.len) ⊎ (length buf < rec_size (int32 r.len))))
  unfolding rec_encode encode_into
  rec_encode_refuses buf r none h = ground (arith, rec_size_gate r.len h)
  rec_encode_refuses buf r (some p) h = ground (arith, rec_size_gate r.len h)

  -- Where the encoder returns 0 it has changed neither the buffer nor the record.
  pub rec_encode_untouched :
      (buf : List ℕ) (r : Rec) (payload : Option (List ℕ))
      → (rec_encode hw buf r payload).total ≡ 0
      → ((rec_encode hw buf r payload).buf ≡ buf) × ((rec_encode hw buf r payload).r ≡ r)
  unfolding rec_encode encode_into
  rec_encode_untouched buf r payload z = ground arith

-- A header's worth of bytes is decoded, and only those bytes.
pub rec_decode-some :
    (xs : List ℕ) → rec_header_size ≤ length xs → (r : Rec) × (rec_decode xs ≡ some r)
unfolding rec_decode
rec_decode-some xs h = rw (le→ltb (length xs) rec_header_size h) (_, refl)

pub rec_decode-take :
    (n : ℕ) (xs : List ℕ) → rec_header_size ≤ n → rec_decode (take n xs) ≡ rec_decode xs
unfolding rec_decode
rec_decode-take n xs h =
    let same = λ (a : ℕ) (j : ℕ) (k : a + j ≤ n). take-drop-take j a n xs k in
    let short : ltb (length (take n xs)) rec_header_size ≡ ltb (length xs) rec_header_size =
      ground (arith, length-take n xs) in
    rw
      (
        short,
        same 0 4 (omega arith),
        same 4 4 (omega arith),
        same 8 8 (omega arith),
        same 16 8 (omega arith),
        same 24 8 (omega arith),
        same 32 8 (omega arith),
        same 40 2 (omega arith),
        same 42 2 (omega arith),
        same 44 4 (omega arith),
        same 48 8 (omega arith),
      )
      refl

pub rec_is_end-true : (r : Rec) → rec_is_end r ≡ true → r.seq ≡ 0
unfolding rec_is_end
rec_is_end-true r h = ground arith

pub rec_is_end-false : (r : Rec) → rec_is_end r ≡ false → r.seq ≢ 0
unfolding rec_is_end
rec_is_end-false r h e = ground arith

-- The verifier reads no byte behind the record.
pub rec_verify-take :
    (hw : CrcUnit) (n : ℕ) (xs : List ℕ) (r : Rec)
    → rec_size (int32 r.len) ≤ n
    → rec_verify hw (take n xs) r ≡ rec_verify hw xs r
unfolding rec_verify
rec_verify-take hw n xs r h =
    let total = rec_size (int32 r.len) in
    let short : ltb (length (take n xs)) total ≡ ltb (length xs) total =
      ground (arith, length-take n xs) in
    rw (short, take-take total n xs h) refl

pub rec_decode-length :
    (xs : List ℕ) (r : Rec) → rec_decode xs ≡ some r → rec_header_size ≤ length xs
unfolding rec_decode
rec_decode-length xs r h = ground arith

-- Preallocated space, which reads as zeros, decodes to the end of the log.
pub rec_decode-zeros :
    (j : ℕ) → rec_header_size ≤ j → (r : Rec) × (rec_decode (replicate j 0) ≡ some r) × (r.seq ≡ 0)
unfolding rec_decode
rec_decode-zeros j h =
    let fits : rec_header_size ≤ rec_header_size = omega arith in
    let front : take rec_header_size (replicate j 0) ≡ replicate rec_header_size 0 =
      take-replicate rec_header_size j 0 h in
    let same = sym (rec_decode-take rec_header_size (replicate j 0) fits) in
    (_, same ∙ ap rec_decode front, refl)

-- The encoder returns 0 or the record's size, and never changes the sequence.
pub rec_encode_total :
    (hw : CrcUnit) (buf : List ℕ) (r : Rec) (payload : Option (List ℕ))
    → (((rec_encode hw buf r payload).total ≡ 0)
        ⊎ ((rec_encode hw buf r payload).total ≡ rec_size (int32 r.len)))
      × ((rec_encode hw buf r payload).r.seq ≡ r.seq)
unfolding rec_encode encode_into
rec_encode_total hw buf r payload = ground arith

pub rec_decode-nil : rec_decode [] ≡ none
unfolding rec_decode
rec_decode-nil = refl
