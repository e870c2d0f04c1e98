-- ===== src/Proto/Conn/Feed.antt =====
-- One run of the parse loop: what it consumed is the wire image of the frames that it emitted.
use msgsrvd.Prelude.{
  ℕ, zero, suc, ◌+◌, ◌-◌, ◌^◌, ◌≤◌, ◌<◌, ◌≡◌, refl, sym, ap, ◌∙◌, true, false, none, some, List, [],
  ◌∷◌, ◌++◌, arith, length, take, drop, length-take, length-drop, take-drop, take-take, drop-drop,
  take-append-drop, append_assoc, All, All-drop, IsByte, Bool-cases, Option-cases, inl, inr, ap₂,
  lt→ltb, ltb, if◌then◌else◌,
}
use msgsrvd.Proto.Msg.{Header, read_header, header_bytes, msg_header_size}
use msgsrvd.Proto.Msg.Codec.{read_header-take, header_bytes-read_header}
use msgsrvd.Proto.Conn.{Conn, Fed, feed_loop, refusal, fatal_actions, frame_at, opens}
use msgsrvd.Proto.Conn.Events.{events, payload_of, wire, view, IsLegal, Legal, opened_after}
use msgsrvd.Proto.Conn.Buffer.{IsConn}

-- A header that the checks let through is legal, but for the payload behind it. The capacity is one
-- that holds a header and fits int32_t.
pub IsLegal-of_refusal :
    (c : Conn) (h : Header) (p : List ℕ)
    → msg_header_size ≤ c.buf_cap
    → c.buf_cap < 2 ^ 31
    → refusal c h ≡ none
    → length p ≡ h.payload_len
    → IsLegal c.buf_cap c.mode c.opened h p
unfolding refusal
IsLegal-of_refusal c h p low high ok e = record {
  magic = ground arith;
  version_low = ground arith;
  version_high = ground arith;
  op_low = ground arith;
  op_high = ground arith;
  small = ground arith;
  fits = ground arith;
  whole = e;
  order = ground arith;
}

-- Bytes that are all received are the same in the buffer and in the view of it.
take-view :
    (c : Conn) (cursor n : ℕ)
    → cursor + n ≤ c.buf_len
    → take n (view c cursor) ≡ take n (drop cursor c.buf)
take-view c cursor n h =
    take-drop n cursor (take c.buf_len c.buf)
    ∙ ap (λ (x : List ℕ). drop cursor x) (take-take (cursor + n) c.buf_len c.buf h)
    ∙ sym (take-drop n cursor c.buf)

length-view : (c : Conn) (cursor : ℕ) → IsConn c → length (view c cursor) ≡ c.buf_len - cursor
length-view c cursor v = omega (
  arith,
  length-drop cursor (take c.buf_len c.buf),
  length-take c.buf_len c.buf,
  v.len_le,
  v.size,
)

abbrev pub header_at : (c : Conn) (cursor : ℕ) → Header
header_at c cursor = read_header (drop cursor c.buf)

-- The bytes of a header at the cursor.
header_bytes-view :
    (c : Conn) (cursor : ℕ)
    → IsConn c
    → All IsByte (view c cursor)
    → cursor + msg_header_size ≤ c.buf_len
    → header_bytes (header_at c cursor) ≡ take msg_header_size (view c cursor)
header_bytes-view c cursor v b h =
    let same : read_header (drop cursor c.buf) ≡ read_header (view c cursor) =
      sym (read_header-take (drop cursor c.buf))
      ∙ ap read_header (sym (take-view c cursor msg_header_size h))
      ∙ read_header-take (view c cursor) in
    rw same (header_bytes-read_header (view c cursor) b (omega (arith, length-view c cursor v)))

payload_at : (c : Conn) (cursor n : ℕ) → List ℕ
payload_at c cursor n =
    payload_of c.buf (if ltb 0 n then some (cursor + msg_header_size) else none) n

payload_at-eq-take :
    (c : Conn) (cursor n : ℕ)
    → payload_at c cursor n ≡ take n (drop (cursor + msg_header_size) c.buf)
unfolding payload_at
payload_at-eq-take c cursor zero = refl
payload_at-eq-take c cursor (suc n) = rw (lt→ltb 0 (suc n) (omega arith))

length-payload_at :
    (c : Conn) (cursor n : ℕ)
    → IsConn c
    → cursor + (msg_header_size + n) ≤ c.buf_len
    → length (payload_at c cursor n) ≡ n
length-payload_at c cursor n v h = rw (payload_at-eq-take c cursor n) (
    omega (
      arith,
      length-take n (drop (cursor + msg_header_size) c.buf),
      length-drop (cursor + msg_header_size) c.buf,
      v.len_le,
      v.size,
    ))

-- A whole frame at the cursor is its header's bytes, its payload and what follows.
view-split :
    (c : Conn) (cursor : ℕ)
    → IsConn c
    → All IsByte (view c cursor)
    → let n = (header_at c cursor).payload_len in
      cursor + (msg_header_size + n) ≤ c.buf_len
      → view c cursor
        ≡ header_bytes (header_at c cursor)
          ++ (payload_at c cursor n ++ view c (cursor + (msg_header_size + n)))
view-split c cursor v b h =
    let n = (header_at c cursor).payload_len in
    let head = header_bytes-view c cursor v b (omega arith) in
    let behind : drop msg_header_size (view c cursor) ≡ view c (cursor + msg_header_size) =
      drop-drop msg_header_size cursor (take c.buf_len c.buf) in
    let body : take n (view c (cursor + msg_header_size)) ≡ payload_at c cursor n =
      take-view c (cursor + msg_header_size) n (omega arith)
      ∙ sym (payload_at-eq-take c cursor n) in
    let end : drop n (view c (cursor + msg_header_size)) ≡ view c (cursor + (msg_header_size + n)) =
      drop-drop n (cursor + msg_header_size) (take c.buf_len c.buf)
      ∙ ap (λ (k : ℕ). view c k) (omega arith) in
    let tail : view c (cursor + msg_header_size)
        ≡ payload_at c cursor n ++ view c (cursor + (msg_header_size + n)) =
      sym (take-append-drop n (view c (cursor + msg_header_size))) ∙ ap₂ ◌++◌ body end in
    sym (take-append-drop msg_header_size (view c cursor)) ∙ ap₂ ◌++◌ (sym head) (behind ∙ tail)

-- What a run of the loop from a cursor leaves. `lost` is what is unread behind the frames; a fatal
-- error throws it away.
pub record IsParse (c : Conn) (cursor : ℕ) (f : Fed) : Type 0 where
  pub buf_lem : f.conn.buf ≡ c.buf
  pub len_lem : f.conn.buf_len ≡ c.buf_len
  pub cap_lem : f.conn.buf_cap ≡ c.buf_cap
  pub mode_lem : f.conn.mode ≡ c.mode
  pub forward : cursor ≤ f.cursor
  pub within : f.cursor ≤ c.buf_len
  pub lost : List ℕ
  pub split : view c cursor ≡ wire (events c.buf f.actions) ++ lost
  pub kept : f.conn.closed ≡ false → lost ≡ view c f.cursor
  pub legal : Legal c.buf_cap c.mode c.opened (events c.buf f.actions)
  pub opened_lem : f.conn.opened ≡ opened_after c.opened (events c.buf f.actions)

events-fatal_actions :
    (buf : List ℕ) (room code echo_seq : ℕ) → events buf (fatal_actions room code echo_seq) ≡ []
unfolding fatal_actions
events-fatal_actions buf zero code echo_seq = refl
events-fatal_actions buf (suc zero) code echo_seq = refl
events-fatal_actions buf (suc (suc room)) code echo_seq = refl

abbrev pub stopped : Conn → ℕ → Fed
stopped c cursor = record { conn = c; actions = []; cursor = cursor }

IsParse-stop : (c : Conn) (cursor : ℕ) → cursor ≤ c.buf_len → IsParse c cursor (stopped c cursor)
IsParse-stop c cursor h = record {
  buf_lem = refl;
  len_lem = refl;
  cap_lem = refl;
  mode_lem = refl;
  forward = omega arith;
  within = h;
  lost = view c cursor;
  split = refl;
  kept = λ _. refl;
  legal = tt;
  opened_lem = refl;
}

abbrev failed : Conn → ℕ → ℕ → ℕ → Fed
failed c room code echo_seq = record {
  conn = record c { closed = true };
  actions = fatal_actions (suc room) code echo_seq;
  cursor = c.buf_len;
}

IsParse-fatal :
    (c : Conn) (cursor room code echo_seq : ℕ)
    → cursor ≤ c.buf_len
    → IsParse c cursor (failed c room code echo_seq)
IsParse-fatal c cursor room code echo_seq h =
    let silent = events-fatal_actions c.buf (suc room) code echo_seq in
    record {
      buf_lem = refl;
      len_lem = refl;
      cap_lem = refl;
      mode_lem = refl;
      forward = h;
      within = omega arith;
      lost = view c cursor;
      split = rw silent;
      kept = λ e. cc;
      legal = rw silent tt;
      opened_lem = rw silent;
    }

abbrev pub opened_by : Header → Conn → Conn
opened_by h c = record c { opened = if opens h then true else c.opened }

abbrev prefixed : Conn → ℕ → Fed → Fed
prefixed c cursor f = record f { actions = frame_at (header_at c cursor) cursor ∷ f.actions }

IsParse-frame :
    (c : Conn) (cursor : ℕ) (f : Fed)
    → IsConn c
    → All IsByte (view c cursor)
    → msg_header_size ≤ c.buf_cap
    → c.buf_cap < 2 ^ 31
    → refusal c (header_at c cursor) ≡ none
    → let total = msg_header_size + (header_at c cursor).payload_len in
      cursor + total ≤ c.buf_len
      → IsParse (opened_by (header_at c cursor) c) (cursor + total) f
      → IsParse c cursor (prefixed c cursor f)
IsParse-frame c cursor f v b low high ok fits r =
    let h = header_at c cursor in
    let p = payload_at c cursor h.payload_len in
    record {
      buf_lem = r.buf_lem;
      len_lem = r.len_lem;
      cap_lem = r.cap_lem;
      mode_lem = r.mode_lem;
      forward = omega (arith, r.forward);
      within = r.within;
      lost = r.lost;
      split =
          unfold payload_at in
          (view-split c cursor v b fits
            ∙ ap (λ (x : List ℕ). header_bytes h ++ (p ++ x)) r.split
            ∙ ap (λ (x : List ℕ). header_bytes h ++ x)
                (sym (append_assoc p (wire (events c.buf f.actions)) r.lost))
            ∙ sym (append_assoc (header_bytes h) (p ++ wire (events c.buf f.actions)) r.lost));
      kept = r.kept;
      legal =
          unfold payload_at in
          (
            IsLegal-of_refusal c h p low high ok (length-payload_at c cursor h.payload_len v fits),
            r.legal,
          );
      opened_lem = r.opened_lem;
    }

pub view-IsByte :
    (c : Conn) (cursor n : ℕ) → All IsByte (view c cursor) → All IsByte (view c (cursor + n))
view-IsByte c cursor n b =
    rw (← drop-drop n cursor (take c.buf_len c.buf)) (All-drop IsByte n (view c cursor) b)

-- The loop, from any cursor within the received bytes of an open connection.
pub feed_loop-IsParse :
    (room : ℕ) (c : Conn) (cursor : ℕ)
    → IsConn c
    → All IsByte (view c cursor)
    → msg_header_size ≤ c.buf_cap
    → c.buf_cap < 2 ^ 31
    → cursor ≤ c.buf_len
    → IsParse c cursor (feed_loop room c cursor)
unfolding feed_loop
feed_loop-IsParse zero c cursor v b low high h = IsParse-stop c cursor h
feed_loop-IsParse (suc room) c cursor v b low high h =
    let hdr = header_at c cursor in
    let total = msg_header_size + hdr.payload_len in
    elim (Bool-cases (ltb (c.buf_len - cursor) msg_header_size)) [
      | inl e ↦ rw (e, feed_loop) (IsParse-stop c cursor h)
      | inr e ↦ elim (Option-cases (refusal c hdr)) [
        | inl ok ↦ elim (Bool-cases (ltb (c.buf_len - cursor) total)) [
          | inl short ↦ rw (e, ok, short, feed_loop) (IsParse-stop c cursor h)
          | inr whole ↦
              let fits : cursor + total ≤ c.buf_len = ground arith in
              rw (e, ok, whole, feed_loop)
                (IsParse-frame c cursor _ v b low high ok fits (
                  feed_loop-IsParse room (opened_by hdr c) (cursor + total)
                    (record { off_le = v.off_le; len_le = v.len_le; size = v.size })
                    (view-IsByte c cursor total b) low high fits))
        ]
        | inr ((code, echo_seq), bad) ↦
            rw (e, bad, feed_loop) (IsParse-fatal c cursor room code echo_seq h)
      ]
    ]
