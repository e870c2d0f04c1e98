-- ===== src/Server/Loop/Clients/Writes.antt =====
-- A write is taken once.
use msgsrvd.Prelude.{ℕ, ◌+◌, ◌≤◌, ◌≡◌, ◌⊎◌, Bool, not, ◌&&◌, Option, List, has, u64}
use msgsrvd.Proto.Flag
use msgsrvd.Proto.Msg.{Header}
use msgsrvd.Server.Session.Slot.{marked}
use msgsrvd.Server.Loop.{ConnSlot, Machine, Node}
use msgsrvd.Server.Loop.Acks.{repl_live}
use msgsrvd.Server.Loop.Clients.{handle_write}

module _ {m : Machine} where
  -- The log, the sessions and the number of writes are as before.
  abbrev pub IsIdle : Node m → Node m → Type 0
  IsIdle nd nd' =
      (nd'.wal ≡ nd.wal) × (nd'.sessions ≡ nd.sessions) × (nd'.counters.writes ≡ nd.counters.writes)

module _ (m : Machine) where
  -- What a write may leave behind: everything as it was but for the log's own state, where no record
  -- was taken; or one write counted and the session marked with its sequence.
  abbrev pub IsWrite : Node m → ℕ → ℕ → Node m → Type 0
  IsWrite nd i client_seq nd' =
      ((nd'.sessions ≡ nd.sessions) × (nd'.counters.writes ≡ nd.counters.writes))
      ⊎ ((nd'.sessions ≡ marked nd.sessions i client_seq)
          × (nd'.counters.writes ≡ u64 (nd.counters.writes + 1)))

  -- A REPLICATED write that no replica can confirm and that does not allow one copy.
  abbrev is_alone : Node m → Header → Bool
  is_alone nd h =
      has Flag.replicated h.flags && (not (repl_live nd) && not (has Flag.allow_degraded h.flags))

  -- The write was not taken; or it was, and no write up to its sequence is taken again.
  abbrev pub IsOnce : Node m → ConnSlot → Header → Node m → Type 0
  IsOnce nd c h nd1 =
      ((nd1.sessions ≡ nd.sessions) × (nd1.counters.writes ≡ nd.counters.writes))
      ⊎ ((nd1.counters.writes ≡ u64 (nd.counters.writes + 1))
          × ((c' : ConnSlot) (h' : Header) (payload' : Option (List ℕ)) (len' : ℕ)
                (scratch' : List ℕ)
              → c'.session ≡ c.session
              → h'.sequence ≤ h.sequence
              → IsIdle nd1 (handle_write m nd1 c' h' payload' len' scratch').0))
