-- ===== src/Server/Loop/Acks.antt =====
-- src/server/loop.c: acknowledgements owed, and when they are sent.
pub mod Safe
use msgsrvd.Prelude.{
  ℕ, ◌+◌, Bool, true, false, not, ◌&&◌, List, [], ◌∷◌, ltb, leb, if◌then◌else◌, u64, u32, u16, has,
  with_bit, bit_or,
}
use msgsrvd.Proto.Flag
use msgsrvd.Proto.Refusal
use msgsrvd.Wal.Cursor.{wal_durable_seq}
use msgsrvd.Server.Loop.{
  Ack, ConnSlot, Peer, Machine, Node, counting, no_ack, loop_repl_deadline_ticks,
}
use msgsrvd.Server.Loop.Reply.{reply_ack, reply_err}

-- `ack_clear` leaves this.
abbrev pub ack_clear : Ack
ack_clear = no_ack

unfoldable pub ack_stage : Ack → ℕ → Bool → ℕ → ℕ → ℕ → Ack
ack_stage a flags degradable client_seq wal_seq deadline = record {
  client_seq = if ltb a.client_seq client_seq then client_seq else a.client_seq;
  wal_seq = if ltb a.wal_seq wal_seq then wal_seq else a.wal_seq;
  deadline = if a.due then a.deadline else deadline;
  flags = u16 (bit_or a.flags flags);
  due = true;
  degradable = if degradable then true else a.degradable;
}

pub any_live : List Peer → Bool
any_live [] = false
any_live (p ∷ ps) = let rest = any_live ps in if p.live then true else rest

-- The highest of `best` and what the live replicas have confirmed.
pub best_walk : List Peer → ℕ → ℕ
best_walk [] best = best
best_walk (p ∷ ps) best = best_walk ps (if p.live && ltb best p.durable then p.durable else best)

-- The local slot answered.
unfoldable pub local_slot : ConnSlot → ConnSlot
local_slot c =
    let a = c.ack_local in
    if a.due
    then record (reply_ack c a.flags a.wal_seq a.client_seq) { ack_local = ack_clear }
    else c

module _ {m : Machine} where
  abbrev pub repl_live : Node m → Bool
  repl_live nd = any_live nd.peers

  abbrev pub repl_best : Node m → ℕ
  repl_best nd = best_walk nd.peers 0

  unfoldable pub ack_write : Node m → ConnSlot → ℕ → Bool → Bool → ℕ → ℕ → Node m × ConnSlot
  unfolding ack_stage any_live
  ack_write nd c ack_flags wants_repl degradable client_seq wal_seq =
      if not wants_repl
      then (nd, record c { ack_local = ack_stage c.ack_local ack_flags false client_seq wal_seq 0 })
      else if not (repl_live nd)
      then (
        counting nd (λ k. record k { repl_degraded = u64 (k.repl_degraded + 1) }),
        record c {
          ack_local =
              ack_stage c.ack_local (with_bit Flag.degraded ack_flags) true client_seq wal_seq 0;
        },
      )
      else (
        nd,
        record c {
          ack_repl =
              ack_stage c.ack_repl ack_flags degradable client_seq wal_seq
                (u32 (nd.tick + loop_repl_deadline_ticks));
        },
      )

  unfoldable pub ack_count : Node m → ℕ → Node m
  ack_count nd flags =
      if has Flag.replicated flags && not (has Flag.degraded flags)
      then counting nd (λ k. record k { acks_repl = u64 (k.acks_repl + 1) })
      else if has Flag.sync flags
      then counting nd (λ k. record k { acks_sync = u64 (k.acks_sync + 1) })
      else counting nd (λ k. record k { acks_append = u64 (k.acks_append + 1) })

  -- The acknowledgement of the local slot counted.
  unfoldable pub count_local : Node m → ConnSlot → Node m
  unfolding ack_count
  count_local nd c = if c.ack_local.due then ack_count nd c.ack_local.flags else nd

  -- The replicated slot.
  unfoldable pub emit_repl : ℕ → Bool → Node m → ConnSlot → Node m × ConnSlot
  unfolding ack_count
  emit_repl best live nd c =
      let a = c.ack_repl in
      let degraded = with_bit Flag.degraded a.flags in
      if not a.due
      then (nd, c)
      else if leb a.wal_seq best && leb a.wal_seq (wal_durable_seq nd.wal)
      then (
        ack_count nd a.flags,
        record (reply_ack c a.flags a.wal_seq a.client_seq) { ack_repl = ack_clear },
      )
      else if live && ltb nd.tick a.deadline
      then (nd, c)
      else if a.degradable
      then (
        counting (ack_count nd degraded)
            (λ k. record k { repl_degraded = u64 (k.repl_degraded + 1) }),
        record (reply_ack c degraded a.wal_seq a.client_seq) { ack_repl = ack_clear },
      )
      else (let (nd1, c1) = reply_err nd c Refusal.no_replicas a.client_seq in
          (nd1, record c1 { ack_repl = ack_clear }))

  unfoldable pub emit_slot : ℕ → Bool → Node m → ConnSlot → Node m × ConnSlot
  unfolding count_local local_slot emit_repl
  emit_slot best live nd c =
      if not c.in_use then (nd, c) else emit_repl best live (count_local nd c) (local_slot c)

  pub emit_all : ℕ → Bool → Node m → List ConnSlot → Node m × List ConnSlot
  unfolding emit_slot
  emit_all best live nd [] = (nd, [])
  emit_all best live nd (c ∷ cs) =
      let (nd1, c1) = emit_slot best live nd c in
      let (nd2, cs1) = emit_all best live nd1 cs in (nd2, c1 ∷ cs1)

  pub acks_emit : Node m → List ConnSlot → Node m × List ConnSlot
  unfolding emit_all best_walk any_live
  acks_emit nd conns = emit_all (repl_best nd) (repl_live nd) nd conns
