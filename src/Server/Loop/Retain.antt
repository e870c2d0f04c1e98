-- ===== src/Server/Loop/Retain.antt =====
-- src/server/loop.c: which segments retention may delete.
pub mod Floor
use msgsrvd.Prelude.{
  ℕ, zero, suc, ◌+◌, Bool, true, false, ◌&&◌, ◌||◌, List, [], ◌∷◌, ltb, leb, ◌==◌, if◌then◌else◌,
  u64, pos, negsuc, ℤ, min,
}
use msgsrvd.Core.Err.{Result, ok, err}
use msgsrvd.Sys.Os.{Os}
use msgsrvd.Sys.Net.{os_write_raw}
use msgsrvd.Wal.Log.{Wal, wal_retain, wal_retain_mark}
use msgsrvd.Wal.Cursor.{wal_first_seq, wal_segments}
use msgsrvd.Server.Loop.{Peer, Machine, Node, Retention, counting, fresh, loop_max_replicas}

-- The lowest mark of the live replicas, with their number.
pub floor_walk : List Peer → ℕ → ℕ → ℕ × ℕ
floor_walk [] lowest live = (lowest, live)
floor_walk (p ∷ ps) lowest live =
    floor_walk ps (if p.live && (live == 0 || ltb p.durable lowest) then p.durable else lowest)
      (if p.live then suc live else live)

abbrev pub raise_floor : Retention → ℕ × ℕ → Retention
raise_floor t (lowest, live) =
    if ltb live t.replicas_want
    then t
    else if ltb t.floor lowest
    then record t { floor = lowest }
    else t

-- The arguments are int32_t, and below 0 count as 0.
abbrev pub at_least_zero : ℤ → ℕ
at_least_zero (pos n) = n
at_least_zero (negsuc n) = 0

-- The line below which a pass may delete.
unfoldable pub retain_line : Retention → ℕ → ℕ
retain_line t mark =
    let next = u64 (t.floor + 1) in if ltb 0 t.replicas_want && ltb next mark then next else mark

module _ {m : Machine} where
  unfoldable pub retain_floor_update : Node m → Node m
  unfolding floor_walk
  retain_floor_update nd =
      if nd.retain.replicas_want == 0
      then nd
      else record nd { retain = raise_floor nd.retain (floor_walk nd.peers 0 0) }

  unfoldable pub loop_set_retention : Node m → ℤ → ℤ → Node m
  loop_set_retention nd keep_segments replicas = record nd {
    retain = record {
      segments = at_least_zero keep_segments;
      replicas_want = min (at_least_zero replicas) loop_max_replicas;
      floor = 0;
      seen_segs = 0;
      failed = false;
    };
  }

module _ (m : Machine) where
  -- Write a line to the journal.
  abbrev pub say : Node m → List ℕ → Node m
  say nd text = record nd { world = os_write_raw m.kernel m.net nd.world (pos 2) text }

  -- What the pass does with the answer of `wal_retain`. The text of the line is an argument.
  abbrev pub after_retain : Node m → List ℕ → Os m.kernel × Wal × ℕ × Result (Unit {0}) → Node m
  after_retain nd text (o, w, removed, ok _) =
      counting (record nd { world = o.world; wal = w })
        (λ k. record k { retain_removed = u64 (k.retain_removed + removed) })
  after_retain nd text (o, w, removed, err code detail) =
      counting
        (say (record nd { world = o.world; wal = w; retain = record nd.retain { failed = true } })
          text)
        (λ k. record k {
          retain_removed = u64 (k.retain_removed + removed);
          retain_errors = u64 (k.retain_errors + 1);
        })

  -- The pass, once it is not held back by a failure.
  unfoldable pub retain_try : Node m → List ℕ → Node m
  unfolding retain_line
  retain_try nd text =
      let mark = wal_retain_mark nd.wal nd.retain.segments in
      let line = retain_line nd.retain mark in
      if mark == 0
      then nd
      else if leb line (wal_first_seq nd.wal)
      then nd
      else after_retain nd text (wal_retain m.kernel m.crc (fresh nd) nd.wal line)

  unfoldable pub retain_pass : Node m → List ℕ → Node m
  unfolding retain_try
  retain_pass nd text =
      let segments = wal_segments nd.wal in
      if nd.retain.segments == 0
      then nd
      else if nd.retain.failed && segments == nd.retain.seen_segs
      then nd
      else retain_try
          (record nd { retain = record nd.retain { failed = false; seen_segs = segments } }) text
