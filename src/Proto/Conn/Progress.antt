-- ===== src/Proto/Conn/Progress.antt =====
-- The parser leaves nothing behind that it could deliver, and never stops for want of space.
use msgsrvd.Prelude.{
  ℕ, zero, suc, ◌+◌, ◌-◌, ◌^◌, ◌≤◌, ◌<◌, ◌≡◌, ◌⊎◌, refl, false, ◌||◌, none, List, [], arith, length,
  Bool-cases, Option-cases, inl, inr, replicate, length-replicate, ltb, ◌==◌,
}
use msgsrvd.Proto.Msg.{msg_header_size}
use msgsrvd.Proto.Conn.{
  Conn, conn_feed, conn_compact, conn_recv_space, feed_loop, refusal, fatal_actions,
}
use msgsrvd.Proto.Conn.Buffer.{IsConn, conn_compact-IsCompacted}
use msgsrvd.Proto.Conn.Feed.{header_at, IsLegal-of_refusal, opened_by, stopped}

-- What stands at the cursor is less than a header, or an acceptable header whose payload is not all
-- there.
abbrev pub Incomplete : Conn → ℕ → Type 0
Incomplete c k =
    (c.buf_len - k < msg_header_size)
    ⊎ ((refusal c (header_at c k) ≡ none)
        × (c.buf_len - k < msg_header_size + (header_at c k).payload_len))

fatal_actions-ne-nil : (room code echo_seq : ℕ) → fatal_actions (suc room) code echo_seq ≡ [] → ⊥
unfolding fatal_actions
fatal_actions-ne-nil zero code echo_seq e = cc
fatal_actions-ne-nil (suc room) code echo_seq e = cc

-- Where the loop stops on an open connection with room to spare, what it has reached is incomplete.
feed_loop-Incomplete :
    (room : ℕ) (c : Conn) (cursor : ℕ)
    → let f = feed_loop room c cursor in
      length f.actions < room → f.conn.closed ≡ false → Incomplete f.conn f.cursor
unfolding feed_loop
feed_loop-Incomplete zero c cursor = λ h alive. absurd (omega arith)
feed_loop-Incomplete (suc room) c cursor =
    let hdr = header_at c cursor in
    let total = msg_header_size + hdr.payload_len in
    elim (Bool-cases (ltb (c.buf_len - cursor) msg_header_size)) [
      | inl e ↦ rw (e, feed_loop) (λ h alive. inl (ground arith))
      | inr e ↦ elim (Option-cases (refusal c hdr)) [
        | inl ok ↦ elim (Bool-cases (ltb (c.buf_len - cursor) total)) [
          | inl short ↦ rw (e, ok, short, feed_loop) (λ h alive. inr (ok, ground arith))
          | inr whole ↦
              rw (e, ok, whole, feed_loop)
                (λ h alive.
                  feed_loop-Incomplete room (opened_by hdr c) (cursor + total) (omega arith) alive)
        ]
        | inr ((code, echo_seq), bad) ↦ rw (e, bad, feed_loop) (λ h alive. cc)
      ]
    ]

-- A run of the parser that leaves its connection open and the caller's array not full has
-- delivered every whole frame: what is left unread is less than a header, or an acceptable header
-- whose payload has not all arrived.
pub conn_feed-Incomplete :
    (c : Conn) (out_cap : ℕ)
    → c.closed ≡ false
    → length (conn_feed c out_cap).actions < out_cap
    → (conn_feed c out_cap).conn.closed ≡ false
    → Incomplete (conn_feed c out_cap).conn (conn_feed c out_cap).conn.buf_off
unfolding conn_feed
conn_feed-Incomplete c out_cap alive = elim (Bool-cases (c.closed || out_cap == 0)) [
  | inl e ↦ rw e (λ h open_after. absurd (ground arith))
  | inr e ↦ rw e (λ h open_after.
      let go = feed_loop-Incomplete out_cap c c.buf_off h open_after in unfold refusal in go)
]

-- A run that emits nothing has changed nothing, and what is left is less than the buffer.
feed_loop_silent :
    (room : ℕ) (c : Conn) (cursor : ℕ)
    → msg_header_size ≤ c.buf_cap
    → c.buf_cap < 2 ^ 31
    → (feed_loop (suc room) c cursor).actions ≡ []
    → (feed_loop (suc room) c cursor ≡ stopped c cursor) × (c.buf_len - cursor < c.buf_cap)
unfolding feed_loop
feed_loop_silent room c cursor low high =
    let hdr = header_at c cursor in
    let total = msg_header_size + hdr.payload_len in
    elim (Bool-cases (ltb (c.buf_len - cursor) msg_header_size)) [
      | inl e ↦ rw (e, feed_loop) (λ h. (refl, ground arith))
      | inr e ↦ elim (Option-cases (refusal c hdr)) [
        | inl ok ↦ elim (Bool-cases (ltb (c.buf_len - cursor) total)) [
          | inl short ↦
              let body : List ℕ = replicate hdr.payload_len 0 in
              let fits =
                (IsLegal-of_refusal c hdr body low high ok
                  (length-replicate {A = ℕ} hdr.payload_len 0)).fits in
              rw (e, ok, short, feed_loop) (λ h. (refl, ground (arith, fits)))
          | inr whole ↦ rw (e, ok, whole, feed_loop) (λ h. cc)
        ]
        | inr ((code, echo_seq), bad) ↦
            rw (e, bad, feed_loop) (λ h. absurd (fatal_actions-ne-nil room code echo_seq h))
      ]
    ]

space :
    (c : Conn) → IsConn c → c.buf_len - c.buf_off < c.buf_cap → 0 < conn_recv_space (conn_compact c)
unfolding conn_recv_space
space c v small = let k = conn_compact-IsCompacted c v in omega (arith, k.len_lem, k.cap_lem)

-- A run that has nothing to deliver to a caller with room leaves space to receive into, once the
-- buffer is compacted: a frame that is refused is refused before it could fill the buffer.
pub conn_feed_progress :
    (c : Conn) (out_cap : ℕ)
    → IsConn c
    → msg_header_size ≤ c.buf_cap
    → c.buf_cap < 2 ^ 31
    → c.closed ≡ false
    → 0 < out_cap
    → (conn_feed c out_cap).actions ≡ []
    → 0 < conn_recv_space (conn_compact (conn_feed c out_cap).conn)
unfolding conn_feed
conn_feed_progress c zero v low high alive room = absurd (omega arith)
conn_feed_progress c (suc n) v low high alive room = elim (Bool-cases (c.closed || suc n == 0)) [
  | inl e ↦ absurd (ground arith)
  | inr e ↦ rw e (λ h.
      let (same, small) = feed_loop_silent n c c.buf_off low high h in rw same (space c v small))
]
