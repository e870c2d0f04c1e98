-- ===== src/Proto/Conn/Buffer.antt =====
-- The receive buffer: its bounds, and that compacting and appending keep the unread bytes.
use msgsrvd.Prelude.{
  ℕ, ◌+◌, ◌-◌, ◌≤◌, ◌<◌, ◌≡◌, ◌⊎◌, refl, sym, ap, ◌∙◌, true, false, List, [], ◌++◌, arith, length,
  take, drop, min, length-append, length-take, length-drop, take-append, take-append_add,
  drop-append_le, take-drop, append-nil, Bool-cases, inl, inr, ltb, ◌==◌, ◌||◌, if◌then◌else◌,
  drop-le,
}
use msgsrvd.Core.Mem.{mem_copy, mem_move}
use msgsrvd.Core.Mem.Splice.{mem_copy-eq-splice, mem_move-eq-splice}
use msgsrvd.Proto.Conn.{
  Conn, Mode, Taken, conn_init, conn_compact, append_to, conn_recv_append, conn_recv_commit,
}
use msgsrvd.Proto.Conn.Events.{unread}

-- The bounds of the buffer, and that its memory is `buf_cap` bytes.
pub record IsConn (c : Conn) : Type 0 where
  pub off_le : c.buf_off ≤ c.buf_len
  pub len_le : c.buf_len ≤ c.buf_cap
  pub size : length c.buf ≡ c.buf_cap

pub conn_init-IsConn :
    (buf : List ℕ) (cap : ℕ) (m : Mode) → length buf ≡ cap → IsConn (conn_init buf cap m)
unfolding conn_init
conn_init-IsConn buf cap m e = record { off_le = omega arith; len_le = omega arith; size = e }

-- The move to the front, written out.
compacted :
    (c : Conn) (n : ℕ)
    → IsConn c
    → n ≡ c.buf_len - c.buf_off
    → mem_move c.buf 0 c.buf_off n ≡ take n (drop c.buf_off c.buf) ++ drop n c.buf
compacted c n v e =
    let z : 0 + n ≡ n = omega arith in
    mem_move-eq-splice c.buf 0 c.buf_off n (omega arith) (omega (arith, v.off_le, v.len_le, v.size))
    ∙ rw z

-- The unread bytes stand at the front of what a move leaves.
compacted-view :
    (c : Conn) (n : ℕ)
    → IsConn c
    → n ≡ c.buf_len - c.buf_off
    → take n (mem_move c.buf 0 c.buf_off n) ≡ unread c
compacted-view c n v e =
    let piece : length (take n (drop c.buf_off c.buf)) ≡ n = omega (
      arith,
      length-take n (drop c.buf_off c.buf),
      length-drop c.buf_off c.buf,
      v.off_le,
      v.len_le,
      v.size,
    ) in
    let whole : c.buf_off + n ≡ c.buf_len = omega (arith, v.off_le) in
    rw (compacted c n v e) (
      take-append n (take n (drop c.buf_off c.buf)) (drop n c.buf) piece
      ∙ take-drop n c.buf_off c.buf
      ∙ ap (λ (k : ℕ). drop c.buf_off (take k c.buf)) whole)

length-compacted :
    (c : Conn) (n : ℕ)
    → IsConn c
    → n ≡ c.buf_len - c.buf_off
    → length (mem_move c.buf 0 c.buf_off n) ≡ c.buf_cap
length-compacted c n v e = rw (compacted c n v e) (
    omega (
      arith,
      length-append (take n (drop c.buf_off c.buf)) (drop n c.buf),
      length-take n (drop c.buf_off c.buf),
      length-drop c.buf_off c.buf,
      length-drop n c.buf,
      v.off_le,
      v.len_le,
      v.size,
    ))

-- What compacting does: the unread bytes move to the front and nothing else changes.
pub record IsCompacted (c d : Conn) : Type 0 where
  pub valid : IsConn d
  pub off_zero : d.buf_off ≡ 0
  pub len_lem : d.buf_len ≡ c.buf_len - c.buf_off
  pub kept : unread d ≡ unread c
  pub cap_lem : d.buf_cap ≡ c.buf_cap
  pub mode_lem : d.mode ≡ c.mode
  pub closed_lem : d.closed ≡ c.closed
  pub opened_lem : d.opened ≡ c.opened

pub conn_compact-IsCompacted : (c : Conn) → IsConn c → IsCompacted c (conn_compact c)
unfolding conn_compact
conn_compact-IsCompacted c v = elim (Bool-cases (c.buf_off == 0)) [
  | inl e ↦ rw e (record {
    valid = v;
    off_zero = ground arith;
    len_lem = ground arith;
    kept = refl;
    cap_lem = refl;
    mode_lem = refl;
    closed_lem = refl;
    opened_lem = refl;
  })
  | inr e ↦ elim (Bool-cases (ltb 0 (c.buf_len - c.buf_off))) [
    | inl m ↦
        rw (e, m)
          (record {
            valid = record {
              off_le = omega arith;
              len_le = omega (arith, v.len_le);
              size = length-compacted c _ v refl;
            };
            off_zero = refl;
            len_lem = refl;
            kept = compacted-view c _ v refl;
            cap_lem = refl;
            mode_lem = refl;
            closed_lem = refl;
            opened_lem = refl;
          })
    | inr m ↦
        let none_left : c.buf_len - c.buf_off ≡ 0 = ground arith in
        rw (e, m)
          (record {
            valid = record {
              off_le = omega arith;
              len_le = omega (arith, v.len_le);
              size = v.size;
            };
            off_zero = refl;
            len_lem = refl;
            kept = rw none_left (
                sym (
                  drop-le c.buf_off (take c.buf_len c.buf)
                    (omega (arith, length-take c.buf_len c.buf))));
            cap_lem = refl;
            mode_lem = refl;
            closed_lem = refl;
            opened_lem = refl;
          })
  ]
]

-- Bytes written behind the received ones and accounted for.
grown : Conn → List ℕ → ℕ → Conn
grown c src k = record c { buf = mem_copy c.buf c.buf_len src k; buf_len = c.buf_len + k }

module _ (c : Conn) (src : List ℕ) (k : ℕ) (v : IsConn c) (fits : c.buf_len + k ≤ c.buf_cap)
    (there : k ≤ length src) where
  written :
      mem_copy c.buf c.buf_len src k
      ≡ take c.buf_len c.buf ++ (take k src ++ drop (c.buf_len + k) c.buf)
  written = mem_copy-eq-splice c.buf c.buf_len src k (omega (arith, v.size)) there

  front : length (take c.buf_len c.buf) ≡ c.buf_len
  front = omega (arith, length-take c.buf_len c.buf, v.len_le, v.size)

  grown-IsConn : IsConn (grown c src k)
  unfolding grown
  grown-IsConn = record {
    off_le = omega (arith, v.off_le);
    len_le = fits;
    size = rw written (
        omega (
          arith,
          front,
          length-append (take c.buf_len c.buf) (take k src ++ drop (c.buf_len + k) c.buf),
          length-append (take k src) (drop (c.buf_len + k) c.buf),
          length-take k src,
          length-drop (c.buf_len + k) c.buf,
          v.size,
        ));
  }

  -- The unread bytes grow by what was written.
  unread-grown : unread (grown c src k) ≡ unread c ++ take k src
  unfolding grown
  unread-grown = rw written (
      ap (drop c.buf_off) (
        take-append_add c.buf_len k (take c.buf_len c.buf)
          (take k src ++ drop (c.buf_len + k) c.buf) front
        ∙ ap (◌++◌ (take c.buf_len c.buf)) (
            take-append k (take k src) (drop (c.buf_len + k) c.buf)
              (omega (arith, length-take k src))))
      ∙ drop-append_le c.buf_off (take c.buf_len c.buf) (take k src)
          (omega (arith, front, v.off_le)))

-- What a call that receives bytes leaves: the unread bytes have grown by those taken.
pub record IsReceived (c d : Conn) (bytes : List ℕ) : Type 0 where
  pub valid : IsConn d
  pub grows : unread d ≡ unread c ++ bytes
  pub cap_lem : d.buf_cap ≡ c.buf_cap
  pub mode_lem : d.mode ≡ c.mode
  pub closed_lem : d.closed ≡ c.closed
  pub opened_lem : d.opened ≡ c.opened

IsReceived-none : (c : Conn) → IsConn c → IsReceived c c []
IsReceived-none c v = record {
  valid = v;
  grows = sym (append-nil (unread c));
  cap_lem = refl;
  mode_lem = refl;
  closed_lem = refl;
  opened_lem = refl;
}

IsReceived-compacted :
    (c d : Conn) (bytes : List ℕ)
    → IsConn c
    → IsReceived (conn_compact c) d bytes
    → IsReceived c d bytes
IsReceived-compacted c d bytes v r =
    let k = conn_compact-IsCompacted c v in
    record {
      valid = r.valid;
      grows = r.grows ∙ ap (λ (x : List ℕ). x ++ bytes) k.kept;
      cap_lem = r.cap_lem ∙ k.cap_lem;
      mode_lem = r.mode_lem ∙ k.mode_lem;
      closed_lem = r.closed_lem ∙ k.closed_lem;
      opened_lem = r.opened_lem ∙ k.opened_lem;
    }

IsReceived-grown :
    (c : Conn) (src : List ℕ) (k : ℕ)
    → IsConn c
    → c.buf_len + k ≤ c.buf_cap
    → k ≤ length src
    → IsReceived c (grown c src k) (take k src)
unfolding grown
IsReceived-grown c src k v fits there = record {
  valid = grown-IsConn c src k v fits there;
  grows = unread-grown c src k v fits there;
  cap_lem = refl;
  mode_lem = refl;
  closed_lem = refl;
  opened_lem = refl;
}

append_to-IsReceived :
    (c : Conn) (src : List ℕ) (n : ℕ)
    → IsConn c
    → n ≤ length src
    → let t = append_to c src n in
      IsReceived c t.conn (take t.taken src) × (t.taken ≡ min n (c.buf_cap - c.buf_len))
unfolding append_to
append_to-IsReceived c src n v there =
    let k = min n (c.buf_cap - c.buf_len) in
    elim (Bool-cases (k == 0)) [
      | inl z ↦ rw z (IsReceived-none c v, ground arith)
      | inr p ↦
          rw p (
            unfold grown in IsReceived-grown c src k v (omega (arith, v.len_le)) (omega arith),
            refl,
          )
    ]

pub length-unread : (c : Conn) → IsConn c → length (unread c) ≡ c.buf_len - c.buf_off
length-unread c v = omega (
  arith,
  length-drop c.buf_off (take c.buf_len c.buf),
  length-take c.buf_len c.buf,
  v.len_le,
  v.size,
)

-- What appending up to n bytes does: nothing on a closed connection or for no bytes, and otherwise
-- the unread bytes stand at the front of the buffer, followed by as many of the n as then fit.
abbrev pub IsAppended : Conn → ℕ → Taken → Type 0
IsAppended c n t =
    ((((c.closed ≡ true) ⊎ (n ≡ 0)) × (t.conn ≡ c) × (t.taken ≡ 0)))
    ⊎ ((c.closed ≡ false)
        × (0 < n)
        × (t.conn.buf_off ≡ 0)
        × (t.conn.buf_len ≡ length (unread c) + t.taken)
        × (t.taken ≡ min n (c.buf_cap - length (unread c))))

append_to-front :
    (c : Conn) (src : List ℕ) (n : ℕ)
    → let t = append_to c src n in
      (t.conn.buf_off ≡ c.buf_off) × (t.conn.buf_len ≡ c.buf_len + t.taken)
unfolding append_to
append_to-front c src n = (ground arith, ground arith)

-- From a valid connection, given a source that holds the n bytes: a closed connection, and one that
-- is given no bytes, is left exactly as it is. Any other moves the unread bytes to the front of the
-- buffer and puts behind them as many of the n bytes as then fit, the first of the source; the
-- connection stays valid, and its mode, its capacity and whether it is opened or closed stay.
pub conn_recv_append-IsReceived :
    (c : Conn) (src : List ℕ) (n : ℕ)
    → IsConn c
    → n ≤ length src
    → let t = conn_recv_append c src n in IsReceived c t.conn (take t.taken src) × IsAppended c n t
unfolding conn_recv_append
conn_recv_append-IsReceived c src n v there =
    let k = conn_compact-IsCompacted c v in
    let (received, count) = append_to-IsReceived (conn_compact c) src n k.valid there in
    let (off, filled_to) = append_to-front (conn_compact c) src n in
    let size = length-unread c v in
    elim (Bool-cases (c.closed || n == 0)) [
      | inl e ↦ rw e (IsReceived-none c v, inl (ground arith, refl, refl))
      | inr e ↦ rw e (
        IsReceived-compacted c _ _ v received,
        inr (
          ground arith,
          ground arith,
          off ∙ k.off_zero,
          omega (arith, filled_to, k.len_lem, size),
          omega (arith, count, k.cap_lem, k.len_lem, size),
        ),
      )
    ]

-- What a read into the free space leaves in the buffer, before it is accounted for.
abbrev pub filled : Conn → List ℕ → Conn
filled c src = record c { buf = mem_copy c.buf c.buf_len src (length src) }

-- Bytes behind the received ones that are not accounted for are not seen.
IsReceived-unfilled :
    (c : Conn) (src : List ℕ)
    → IsConn c
    → c.buf_len + length src ≤ c.buf_cap
    → IsReceived c (filled c src) []
IsReceived-unfilled c src v fits =
    let g : length (mem_copy c.buf c.buf_len src (length src)) ≡ c.buf_cap =
      unfold grown in (grown-IsConn c src (length src) v fits (omega arith)).size in
    record {
      valid = record { off_le = v.off_le; len_le = v.len_le; size = g };
      grows = rw (written c src (length src) v fits (omega arith)) (
          ap (drop c.buf_off) (
            take-append c.buf_len (take c.buf_len c.buf) _
              (front c src (length src) v fits (omega arith)))
          ∙ sym (append-nil (unread c)));
      cap_lem = refl;
      mode_lem = refl;
      closed_lem = refl;
      opened_lem = refl;
    }

-- Committing n bytes that stand in the buffer behind the received ones, the n of a read that was
-- given the free space, makes them the last of the unread bytes; a closed connection takes none.
pub conn_recv_commit-IsReceived :
    (c : Conn) (src : List ℕ)
    → IsConn c
    → c.buf_len + length src ≤ c.buf_cap
    → let t = conn_recv_commit (filled c src) (length src) in
      IsReceived c t.conn (take t.taken src) × (t.taken ≡ (if c.closed then 0 else length src))
unfolding conn_recv_commit
conn_recv_commit-IsReceived c src v fits =
    let all : min (length src) (c.buf_cap - c.buf_len) ≡ length src = omega (arith, v.len_le) in
    elim (Bool-cases (c.closed || length src == 0)) [
      | inl e ↦ rw e (IsReceived-unfilled c src v fits, ground arith)
      | inr e ↦
          rw (e, all)
            (unfold grown in IsReceived-grown c src (length src) v fits (omega arith), ground arith)
    ]
