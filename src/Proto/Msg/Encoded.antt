-- ===== src/Proto/Msg/Encoded.antt =====
-- The header encoded into a buffer and decoded again, refusals included.
use msgsrvd.Prelude.{
  ℕ, ◌≤◌, ◌<◌, ◌≡◌, ◌≢◌, ◌⊎◌, inl, inr, refl, ap, ◌∙◌, false, none, some, Option, List, ◌++◌, arith,
  length, drop, ltb, ◌==◌, Bool-cases, length-append, length-drop, drop-append, take-le,
}
use msgsrvd.Core.Mem.Splice.{mem_copy-eq-splice}
use msgsrvd.Proto.Msg.{Header, header_bytes, msg_header_size, msg_magic}
use msgsrvd.Proto.Msg.Codec.{IsHeader, length-header_bytes, read_header-header_bytes}
use msgsrvd.Proto.Msg.Payload.{msg_decode_header, msg_encode_header}

-- The header in front of what the buffer held behind it.
abbrev pub headed : List ℕ → Header → List ℕ
headed buf h = header_bytes h ++ drop msg_header_size buf

length-headed :
    (buf : List ℕ) (h : Header) → msg_header_size ≤ length buf → length (headed buf h) ≡ length buf
length-headed buf h fits = omega (
  arith,
  length-header_bytes h,
  length-append (header_bytes h) (drop msg_header_size buf),
  length-drop msg_header_size buf,
)

encoded :
    (buf : List ℕ) (h : Header)
    → msg_header_size ≤ length buf
    → msg_encode_header buf h ≡ some (headed buf h)
unfolding msg_encode_header
encoded buf h fits =
    let room : ltb (length buf) msg_header_size ≡ false = ground arith in
    let size = length-header_bytes h in
    rw room (
      ap some (
        mem_copy-eq-splice buf 0 (header_bytes h) msg_header_size (omega arith)
          (omega (arith, size))
        ∙ ap (λ (xs : List ℕ). xs ++ drop msg_header_size buf)
            (take-le msg_header_size (header_bytes h) (omega (arith, size)))))

-- What decodes of an encoded header: the header itself with the protocol's magic, and nothing with
-- another.
abbrev pub IsDecoded : Header → Option Header → Type 0
IsDecoded h o = ((h.magic ≡ msg_magic) × (o ≡ some h)) ⊎ ((h.magic ≢ msg_magic) × (o ≡ none))

decoded :
    (buf : List ℕ) (h : Header)
    → msg_header_size ≤ length buf
    → IsHeader h
    → IsDecoded h (msg_decode_header (headed buf h))
unfolding msg_decode_header
decoded buf h fits v =
    let long : ltb (length (headed buf h)) msg_header_size ≡ false =
      ground (arith, length-headed buf h fits) in
    let back = read_header-header_bytes h (drop msg_header_size buf) v in
    elim (Bool-cases (h.magic == msg_magic)) [
      | inl same ↦ rw (long, back, same) (inl (ground arith, refl))
      | inr other ↦ rw (long, back, other) (inr (ground arith, refl))
    ]

-- A header whose fields fit their widths, and any buffer: one shorter than a header is refused, by
-- the encoder and by the decoder. In any other the encoder writes the header into the first 32 bytes
-- and leaves the rest and the length as they are; and the decoder gives the header back, or refuses
-- it exactly where its magic is not the protocol's.
pub msg_decode_header-msg_encode_header :
    (buf : List ℕ) (h : Header)
    → IsHeader h
    → ((length buf < msg_header_size)
        × (msg_encode_header buf h ≡ none)
        × (msg_decode_header buf ≡ none))
      ⊎ ((msg_header_size ≤ length buf)
          × (out : List ℕ) × (msg_encode_header buf h ≡ some out)
          × (length out ≡ length buf)
          × (drop msg_header_size out ≡ drop msg_header_size buf)
          × IsDecoded h (msg_decode_header out))
unfolding msg_decode_header msg_encode_header
msg_decode_header-msg_encode_header buf h v = elim (Bool-cases (ltb (length buf) msg_header_size)) [
  | inl short ↦ inl (ground arith, rw short refl, rw short refl)
  | inr room ↦
      let fits : msg_header_size ≤ length buf = ground arith in
      inr (
        fits,
        headed buf h,
        encoded buf h fits,
        length-headed buf h fits,
        drop-append msg_header_size (header_bytes h) (drop msg_header_size buf)
            (length-header_bytes h),
        decoded buf h fits v,
      )
]
