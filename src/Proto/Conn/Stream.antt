-- ===== src/Proto/Conn/Stream.antt =====
-- A connection over its life: any interleaving of receiving, compacting and parsing.
use msgsrvd.Prelude.{
  ℕ, ◌+◌, ◌-◌, ◌^◌, ◌≤◌, ◌<◌, ◌≡◌, refl, sym, ap, ◌∙◌, Bool, false, ◌||◌, List, [], ◌++◌, arith,
  length, take, drop, append_assoc, append-nil, All, All-take, All-append, IsByte, Bool-cases, inl,
  inr, ◌==◌,
}
use msgsrvd.Proto.Msg.{msg_header_size}
use msgsrvd.Proto.Conn.{
  Conn, Mode, conn_init, conn_compact, conn_recv_append, conn_recv_commit, conn_feed, feed_loop,
}
use msgsrvd.Proto.Conn.Events.{
  Event, events, wire, view, unread, Legal, Legal-append, opened_after, opened_after-append,
  wire-append,
}
use msgsrvd.Proto.Conn.Buffer.{
  filled, IsConn, IsReceived, conn_init-IsConn, conn_compact-IsCompacted,
  conn_recv_append-IsReceived, conn_recv_commit-IsReceived,
}
use msgsrvd.Proto.Conn.Feed.{feed_loop-IsParse, view-IsByte}

-- A history of a connection: the bytes that it accepted so far and the frames that it delivered.
pub data Run (buf : List ℕ) (cap : ℕ) (mode : Mode) : Conn → List ℕ → List Event → Type 0 where
  start : Run buf cap mode (conn_init buf cap mode) [] []
  append :
      {c : Conn} {bs : List ℕ} {es : List Event} (src : List ℕ) (n : ℕ)
      → n ≤ length src
      → All IsByte src
      → Run buf cap mode c bs es
      → Run buf cap mode
          (conn_recv_append c src n).conn
          (bs ++ take (conn_recv_append c src n).taken src)
          es
  commit :
      {c : Conn} {bs : List ℕ} {es : List Event} (src : List ℕ)
      → c.buf_len + length src ≤ c.buf_cap
      → All IsByte src
      → Run buf cap mode c bs es
      → Run buf cap mode
          (conn_recv_commit (filled c src) (length src)).conn
          (bs ++ take (conn_recv_commit (filled c src) (length src)).taken src)
          es
  compact :
      {c : Conn} {bs : List ℕ} {es : List Event}
      → Run buf cap mode c bs es
      → Run buf cap mode (conn_compact c) bs es
  feed :
      {c : Conn} {bs : List ℕ} {es : List Event} (out_cap : ℕ)
      → Run buf cap mode c bs es
      → Run buf cap mode
          (conn_feed c out_cap).conn
          bs
          (es ++ events c.buf (conn_feed c out_cap).actions)

-- The accepted bytes are the wire image of the delivered frames and a rest, which on an open
-- connection is what is unread; and the frames are legal in their order.
pub record IsStream (cap : ℕ) (mode : Mode) (c : Conn) (bs : List ℕ) (es : List Event)
    : Type 0 where
  pub valid : IsConn c
  pub cap_lem : c.buf_cap ≡ cap
  pub mode_lem : c.mode ≡ mode
  pub bytes : All IsByte (unread c)
  pub rest : List ℕ
  pub split : bs ≡ wire es ++ rest
  pub kept : c.closed ≡ false → rest ≡ unread c
  pub legal : Legal cap mode false es
  pub opened_lem : c.opened ≡ opened_after false es

module _ {cap : ℕ} {mode : Mode} (low : msg_header_size ≤ cap) (high : cap < 2 ^ 31) where
  IsStream-received :
      (c d : Conn) (bs : List ℕ) (es : List Event) (new : List ℕ)
      → IsStream cap mode c bs es
      → IsReceived c d new
      → All IsByte new
      → IsStream cap mode d (bs ++ new) es
  IsStream-received c d bs es new s r b = record {
    valid = r.valid;
    cap_lem = r.cap_lem ∙ s.cap_lem;
    mode_lem = r.mode_lem ∙ s.mode_lem;
    bytes = rw r.grows (All-append IsByte (unread c) new s.bytes b);
    rest = s.rest ++ new;
    split = ap (λ (x : List ℕ). x ++ new) s.split ∙ append_assoc (wire es) s.rest new;
    kept = λ e. ap (λ (x : List ℕ). x ++ new) (s.kept (sym r.closed_lem ∙ e)) ∙ sym r.grows;
    legal = s.legal;
    opened_lem = r.opened_lem ∙ s.opened_lem;
  }

  IsStream-compact :
      (c : Conn) (bs : List ℕ) (es : List Event)
      → IsStream cap mode c bs es
      → IsStream cap mode (conn_compact c) bs es
  IsStream-compact c bs es s =
      let k = conn_compact-IsCompacted c s.valid in
      record {
        valid = k.valid;
        cap_lem = k.cap_lem ∙ s.cap_lem;
        mode_lem = k.mode_lem ∙ s.mode_lem;
        bytes = rw k.kept s.bytes;
        rest = s.rest;
        split = s.split;
        kept = λ e. s.kept (sym k.closed_lem ∙ e) ∙ sym k.kept;
        legal = s.legal;
        opened_lem = k.opened_lem ∙ s.opened_lem;
      }

  IsStream-idle :
      (c : Conn) (bs : List ℕ) (es : List Event)
      → IsStream cap mode c bs es
      → IsStream cap mode c bs (es ++ [])
  IsStream-idle c bs es s = rw (append-nil es) s

  IsStream-parsed :
      (c : Conn) (bs : List ℕ) (es : List Event) (out_cap : ℕ)
      → IsStream cap mode c bs es
      → c.closed ≡ false
      → let f = feed_loop out_cap c c.buf_off in
        IsStream cap mode (record f.conn { buf_off = f.cursor }) bs (es ++ events c.buf f.actions)
  IsStream-parsed c bs es out_cap s alive =
      let f = feed_loop out_cap c c.buf_off in
      let r =
        feed_loop-IsParse out_cap c c.buf_off s.valid s.bytes (rw s.cap_lem low) (rw s.cap_lem high)
          s.valid.off_le in
      let new = events c.buf f.actions in
      let same : (k : ℕ) → drop k (take f.conn.buf_len f.conn.buf) ≡ view c k =
        λ k. rw (r.buf_lem, r.len_lem) in
      let step : c.buf_off + (f.cursor - c.buf_off) ≡ f.cursor = omega (arith, r.forward) in
      record {
        valid = record {
          off_le = omega (arith, r.within, r.len_lem);
          len_le = omega (arith, r.len_lem, r.cap_lem, s.valid.len_le);
          size = ap length r.buf_lem ∙ s.valid.size ∙ sym r.cap_lem;
        };
        cap_lem = r.cap_lem ∙ s.cap_lem;
        mode_lem = r.mode_lem ∙ s.mode_lem;
        bytes =
            rw (same f.cursor)
              (rw step at (view-IsByte c c.buf_off (f.cursor - c.buf_off) s.bytes));
        rest = r.lost;
        split =
            s.split
            ∙ ap (λ (x : List ℕ). wire es ++ x) (s.kept alive ∙ r.split)
            ∙ sym (append_assoc (wire es) (wire new) r.lost)
            ∙ ap (λ (x : List ℕ). x ++ r.lost) (sym (wire-append es new));
        kept = λ e. r.kept e ∙ sym (same f.cursor);
        legal =
            Legal-append cap mode false es new s.legal
              (rw (← s.cap_lem, ← s.mode_lem, ← s.opened_lem) r.legal);
        opened_lem =
            r.opened_lem
            ∙ ap (λ (o : Bool). opened_after o new) s.opened_lem
            ∙ sym (opened_after-append false es new);
      }

  IsStream-feed :
      (c : Conn) (bs : List ℕ) (es : List Event) (out_cap : ℕ)
      → IsStream cap mode c bs es
      → IsStream cap mode
          (conn_feed c out_cap).conn
          bs
          (es ++ events c.buf (conn_feed c out_cap).actions)
  unfolding conn_feed
  IsStream-feed c bs es out_cap s = elim (Bool-cases (c.closed || out_cap == 0)) [
    | inl e ↦ rw e (IsStream-idle c bs es s)
    | inr e ↦ rw e (IsStream-parsed c bs es out_cap s (ground arith))
  ]

  -- In a buffer that holds a header: however the bytes arrive, by copy or by a read into the free
  -- space, in whatever pieces, and however often and with however much room for actions the parser
  -- runs in between, the bytes accepted so far are the wire image of the frames delivered so far
  -- followed by a rest, which while the connection is open is exactly what is unread. The frames
  -- delivered have a valid header, the payload that it announces and that fits, and on a client
  -- connection an opening frame is delivered exactly at the start.
  pub Run-IsStream :
      {buf : List ℕ} {c : Conn} {bs : List ℕ} {es : List Event}
      → length buf ≡ cap
      → Run buf cap mode c bs es
      → IsStream cap mode c bs es
  Run-IsStream {buf = buf} e start =
      unfold conn_init in
      record {
        valid = conn_init-IsConn buf cap mode e;
        cap_lem = refl;
        mode_lem = refl;
        bytes = tt;
        rest = [];
        split = refl;
        kept = λ _. refl;
        legal = tt;
        opened_lem = refl;
      }
  Run-IsStream e (append {c = c} {bs = bs} {es = es} src n fits b r) =
      let s = Run-IsStream e r in
      IsStream-received c _ bs es _ s (conn_recv_append-IsReceived c src n s.valid fits).0
        (All-take IsByte _ src b)
  Run-IsStream e (commit {c = c} {bs = bs} {es = es} src fits b r) =
      let s = Run-IsStream e r in
      IsStream-received c _ bs es _ s (conn_recv_commit-IsReceived c src s.valid fits).0
        (All-take IsByte _ src b)
  Run-IsStream e (compact {c = c} {bs = bs} {es = es} r) =
      IsStream-compact c bs es (Run-IsStream e r)
  Run-IsStream e (feed {c = c} {bs = bs} {es = es} out_cap r) =
      IsStream-feed c bs es out_cap (Run-IsStream e r)
