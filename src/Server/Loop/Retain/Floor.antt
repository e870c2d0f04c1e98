-- ===== src/Server/Loop/Retain/Floor.antt =====
-- The floor of retention, and that a pass stays below it.
use msgsrvd.Prelude.{
  ℕ, suc, ◌+◌, ◌^◌, ◌≤◌, ◌<◌, ◌≡◌, ◌⊎◌, inl, inr, refl, ◌∙◌, ◌-◌, true, false, ◌&&◌, ◌||◌, List, [],
  ◌∷◌, arith, length, drop, get_or, ltb, leb, ◌==◌, if◌then◌else◌, All, Bool-cases,
}
use msgsrvd.Core.Err.{Result, ok, err}
use msgsrvd.Sys.Os.{Os}
use msgsrvd.Wal.Log.{Wal, wal_retain, wal_retain_mark}
use msgsrvd.Wal.Log.Table.{wal_retain_drops}
use msgsrvd.Wal.Cursor.{wal_first_seq, wal_segments}
use msgsrvd.Server.Loop.{Peer, Machine, Node, Retention, fresh}
use msgsrvd.Server.Loop.Retain.{
  floor_walk, retain_floor_update, retain_line, after_retain, retain_try, retain_pass,
}

-- A replica that is live has confirmed the sequence.
abbrev pub HasConfirmed : ℕ → Peer → Type 0
HasConfirmed s p = p.live ≡ true → s ≤ p.durable

-- How many replicas are live.
abbrev pub count_live : List Peer → ℕ
count_live [] = 0
count_live (p ∷ ps) = if p.live then suc (count_live ps) else count_live ps

floor_walk_lem :
    (ps : List Peer) (lowest live : ℕ)
    → let (low, n) = floor_walk ps lowest live in
      (n ≡ live + count_live ps) × All (HasConfirmed low) ps × (0 < live → low ≤ lowest)
unfolding floor_walk
floor_walk_lem [] lowest live = (omega arith, tt, λ _. omega arith)
floor_walk_lem (p ∷ ps) lowest live =
    let next = if p.live && (live == 0 || ltb p.durable lowest) then p.durable else lowest in
    let (count, rest, below) = floor_walk_lem ps next (if p.live then suc live else live) in
    (ground arith, (λ on. ground (arith, on), rest), λ some_live. ground arith)

module _ {m : Machine} where
  -- In any state: an update of the floor never lowers it, and raises it only where as many replicas
  -- are live as are wanted and every live one has confirmed the new floor; it changes nothing else.
  pub retain_floor_update_lem :
      (nd : Node m)
      → let nd' = retain_floor_update nd in
        (nd.retain.floor ≤ nd'.retain.floor)
        × (nd' ≡ record nd { retain = record nd.retain { floor = nd'.retain.floor } })
        × ((nd'.retain.floor ≡ nd.retain.floor)
            ⊎ ((nd.retain.replicas_want ≤ count_live nd.peers)
                × All (HasConfirmed nd'.retain.floor) nd.peers))
  unfolding retain_floor_update
  retain_floor_update_lem nd =
      let (count, all, _) = floor_walk_lem nd.peers 0 0 in
      elim (Bool-cases (nd.retain.replicas_want == 0)) [
        | inl none_wanted ↦ rw (retain_floor_update, none_wanted) (omega arith, refl, inl refl)
        | inr some_wanted ↦
            elim (Bool-cases (ltb (floor_walk nd.peers 0 0).1 nd.retain.replicas_want)) [
              | inl short ↦
                  rw (retain_floor_update, some_wanted, short) (omega arith, refl, inl refl)
              | inr full ↦ elim (Bool-cases (ltb nd.retain.floor (floor_walk nd.peers 0 0).0)) [
                | inl rises ↦
                    rw (retain_floor_update, some_wanted, full, rises)
                      (ground arith, refl, inr (ground arith, all))
                | inr stays ↦
                    rw (retain_floor_update, some_wanted, full, stays) (omega arith, refl, inl refl)
              ]
            ]
      ]

retain_line_lem :
    (t : Retention) (mark : ℕ)
    → t.floor < 2 ^ 64 - 1
    → (retain_line t mark ≤ mark) × (0 < t.replicas_want → retain_line t mark ≤ t.floor + 1)
unfolding retain_line
retain_line_lem t mark top =
    let f = t.floor in let want = t.replicas_want in (ground arith, λ some_wanted. ground arith)

-- What retention leaves of the log: bases dropped from the front, each with a successor below the
-- mark and, where replicas are wanted, at most one above the floor.
abbrev pub IsTrimmed : Wal → Retention → Wal → Type 0
IsTrimmed w t w' =
    (n : ℕ) × (w' ≡ record w { seg_base = drop n w.seg_base })
    × (n < length w.seg_base)
    × ((i : ℕ) → i < n → get_or w.seg_base (suc i) 0 ≤ wal_retain_mark w t.segments)
    × (0 < t.replicas_want → (i : ℕ) → i < n → get_or w.seg_base (suc i) 0 ≤ t.floor + 1)

module _ (m : Machine) where
  IsTrimmed-none : (w : Wal) (t : Retention) → 0 < length w.seg_base → IsTrimmed w t w
  IsTrimmed-none w t some_segment =
      (0, refl, some_segment, λ i h. absurd (omega arith), λ _ i h. absurd (omega arith))

  after_retain-wal :
      (nd : Node m) (text : List ℕ) (a : Os m.kernel × Wal × ℕ × Result (Unit {0}))
      → (after_retain m nd text a).wal ≡ a.1
  after_retain-wal nd text (o, w, removed, ok _) = refl
  after_retain-wal nd text (o, w, removed, err code detail) = refl

  retain_try-IsTrimmed :
      (nd : Node m) (text : List ℕ)
      → 0 < length nd.wal.seg_base
      → nd.retain.floor < 2 ^ 64 - 1
      → IsTrimmed nd.wal nd.retain (retain_try m nd text).wal
  unfolding retain_try
  retain_try-IsTrimmed nd text some_segment top =
      let mark = wal_retain_mark nd.wal nd.retain.segments in
      let line = retain_line nd.retain mark in
      let (low, held) = retain_line_lem nd.retain mark top in
      elim (Bool-cases (mark == 0)) [
        | inl none_marked ↦
            rw (retain_try, none_marked) (IsTrimmed-none nd.wal nd.retain some_segment)
        | inr marked ↦ elim (Bool-cases (leb line (wal_first_seq nd.wal))) [
          | inl held_back ↦
              rw (retain_try, marked, held_back) (IsTrimmed-none nd.wal nd.retain some_segment)
          | inr goes ↦
              let (n, same, inside, below, _) =
                wal_retain_drops m.kernel m.crc (fresh nd) nd.wal line some_segment in
              rw (retain_try, marked, goes)
                (
                  n,
                  after_retain-wal nd text (wal_retain m.kernel m.crc (fresh nd) nd.wal line)
                      ∙ same,
                  inside,
                  λ i h. omega (arith, below i h, low),
                  λ wanted i h. omega (arith, below i h, held wanted),
                )
        ]
      ]

  -- Of a log with a segment, with the floor below the largest sequence, whatever unlinking and
  -- flushing answer: a pass of retention only drops bases from the front of the table and never the
  -- last; each one dropped has its successor at or below the mark that keeps the newest segments; and
  -- where replicas are wanted, no record above the floor is dropped.
  pub retain_pass_trims :
      (nd : Node m) (text : List ℕ)
      → 0 < length nd.wal.seg_base
      → nd.retain.floor < 2 ^ 64 - 1
      → IsTrimmed nd.wal nd.retain (retain_pass m nd text).wal
  unfolding retain_pass
  retain_pass_trims nd text some_segment top = elim (Bool-cases (nd.retain.segments == 0)) [
    | inl off ↦ rw (retain_pass, off) (IsTrimmed-none nd.wal nd.retain some_segment)
    | inr on ↦ elim (Bool-cases (nd.retain.failed && wal_segments nd.wal == nd.retain.seen_segs)) [
      | inl held ↦ rw (retain_pass, on, held) (IsTrimmed-none nd.wal nd.retain some_segment)
      | inr free ↦
          rw (retain_pass, on, free)
            (retain_try-IsTrimmed
              (record nd {
                retain = record nd.retain { failed = false; seen_segs = wal_segments nd.wal };
              })
              text some_segment top)
    ]
  ]
