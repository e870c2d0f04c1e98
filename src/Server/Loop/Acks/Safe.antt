-- ===== src/Server/Loop/Acks/Safe.antt =====
-- When an acknowledgement of a second copy is sent.
use msgsrvd.Prelude.{ℕ, ◌≤◌, ◌<◌, ◌≡◌, ◌⊎◌, true, false, none, List, [], ◌∷◌, with_bit}
use msgsrvd.Proto.Flag
use msgsrvd.Proto.Refusal
use msgsrvd.Server.Loop.{Ack, ConnSlot, Peer, no_ack}
use msgsrvd.Server.Loop.Reply.{reply_ack, stage_err}

-- A live replica has confirmed the sequence.
abbrev pub IsConfirmed : ℕ → List Peer → Type 0
IsConfirmed s [] = ⊥
IsConfirmed s (p ∷ ps) = ((p.live ≡ true) × (s ≤ p.durable)) ⊎ IsConfirmed s ps

-- Some replica is live.
abbrev pub HasLive : List Peer → Type 0
HasLive [] = ⊥
HasLive (p ∷ ps) = (p.live ≡ true) ⊎ HasLive ps

-- The local acknowledgement of a slot: answered where one is due.
abbrev pub IsLocal : ConnSlot → ConnSlot → Type 0
IsLocal c c' =
    let a = c.ack_local in
    ((a.due ≡ false) × (c' ≡ c))
    ⊎ ((a.due ≡ true)
        × (c' ≡ record (reply_ack c a.flags a.wal_seq a.client_seq) { ack_local = no_ack }))

-- Of an acknowledgement `a` that waits for a second copy, when it may be answered and when it may
-- wait, and what then becomes of the slot `c`.
module _ (peers : List Peer) (durable tick : ℕ) (a : Ack) where
  -- The sequence is 0 or a live replica has confirmed it, and this node has flushed it.
  abbrev pub IsHeld : Type 0
  IsHeld = ((a.wal_seq ≡ 0) ⊎ IsConfirmed a.wal_seq peers) × (a.wal_seq ≤ durable)

  abbrev pub CanWait : Type 0
  CanWait = HasLive peers × (tick < a.deadline)

  abbrev pub IsSettled : ConnSlot → ConnSlot → Type 0
  IsSettled c c' =
      (IsHeld × (c' ≡ record (reply_ack c a.flags a.wal_seq a.client_seq) { ack_repl = no_ack }))
      ⊎ ((¬ IsHeld) × CanWait × (c' ≡ c))
      ⊎ ((¬ IsHeld)
          × (¬ CanWait)
          × (a.degradable ≡ true)
          × (c' ≡ record (reply_ack c (with_bit Flag.degraded a.flags) a.wal_seq a.client_seq) {
            ack_repl = no_ack;
          }))
      ⊎ ((¬ IsHeld)
          × (¬ CanWait)
          × (a.degradable ≡ false)
          × (c' ≡ record (stage_err c Refusal.no_replicas a.client_seq none) { ack_repl = no_ack }))

-- The slot over a pass, with `c0` what its local acknowledgement makes of it.
abbrev pub IsEmitted : List Peer → ℕ → ℕ → ConnSlot → ConnSlot → Type 0
IsEmitted peers durable tick c c' =
    ((c.in_use ≡ false) × (c' ≡ c))
    ⊎ ((c.in_use ≡ true)
        × (c0 : ConnSlot) × IsLocal c c0
        × (((c.ack_repl.due ≡ false) × (c' ≡ c0))
            ⊎ ((c.ack_repl.due ≡ true) × IsSettled peers durable tick c.ack_repl c0 c')))
