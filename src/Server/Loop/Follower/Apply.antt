-- ===== src/Server/Loop/Follower/Apply.antt =====
-- What a follower takes of the bytes that it was sent.
use msgsrvd.Prelude.{ℕ, ◌≡◌, ◌⊎◌, true, List, length}
use msgsrvd.Wal.Record.{Rec}
use msgsrvd.Wal.Segment.Scan.{IsChain, advance}
use msgsrvd.Wal.Cursor.{wal_next_seq}
use msgsrvd.Server.Loop.{Machine, Node}

module _ (m : Machine) where
  -- The bytes begin with these records, whole, with their checksums and numbered on from the log's
  -- next sequence; the log is numbered behind them, they are counted, and they are all of the bytes
  -- where the stream is not given up.
  abbrev pub IsApplied : Node m → List ℕ → Node m → Type 0
  IsApplied nd bytes nd' =
      (recs : List Rec) × (n : ℕ) × IsChain m.crc (wal_next_seq nd.wal) bytes recs n
      × (wal_next_seq nd'.wal ≡ advance (wal_next_seq nd.wal) (length recs))
      × (nd'.counters.repl_records ≡ advance nd.counters.repl_records (length recs))
      × ((nd'.stream.closing ≡ true) ⊎ (n ≡ length bytes))
