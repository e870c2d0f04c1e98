-- ===== src/Server/Loop/Events/Armed.antt =====
-- src/server/loop.c: what the arm phase leaves of each slot.
use msgsrvd.Prelude.{
  ℕ, suc, ◌<◌, true, false, not, ◌&&◌, ◌⊎◌, inl, inr, List, [], ◌∷◌, leb, if◌then◌else◌, arith,
  if-cases, refl, ◌∙◌, ◌≡◌, subst, sym,
}
use msgsrvd.Proto.Conn.{conn_compact, conn_recv_space}
use msgsrvd.Server.Loop.{ConnSlot, Machine, Node, free_slot}
use msgsrvd.Server.Loop.Slots.{slot_release}
use msgsrvd.Server.Loop.Events.{conn_sent, conn_send, arm_rest, arm_slot, arm_all, arm_conns}
use msgsrvd.Server.Loop.Events.Sent.{
  IsCarried, is_sending, is_broken, send_of, sent_on, IsSent, idle-IsCarried, sent_on-IsCarried,
  conn_sent-IsSent,
}

module _ {m : Machine} where
  abbrev pub IsArmed : Node m → ℕ → ConnSlot → ConnSlot → Type 0
  IsArmed nd i c c1 =
      let sent = send_of nd c in
      let broken = is_sending c && is_broken nd i c sent in
      let space = conn_recv_space (conn_compact c.conn) in
      let on = if is_sending c then sent_on c sent.1 else c in
      ((c.in_use ≡ false) × (c1 ≡ c))
      ⊎ ((c.in_use ≡ true)
          × ((c.closing ≡ true) ⊎ (broken ≡ true) ⊎ (space ≡ 0))
          × (c1 ≡ free_slot))
      ⊎ ((c.in_use ≡ true)
          × (c.closing ≡ false)
          × (broken ≡ false)
          × (0 < space)
          × (c1 ≡ record on { conn = conn_compact c.conn })
          × IsCarried c1)

  -- The slots one after another, each on the node that those before it leave.
  abbrev pub AreArmed : Node m → ℕ → List ConnSlot → List ConnSlot → Type 0
  AreArmed nd i [] [] = Unit
  AreArmed nd i [] (c1 ∷ cs1) = ⊥
  AreArmed nd i (c ∷ cs) [] = ⊥
  AreArmed nd i (c ∷ cs) (c1 ∷ cs1) =
      IsArmed nd i c c1 × AreArmed (arm_slot m nd i c).0 (suc i) cs cs1

-- What the rest of the phase makes of a slot that has nothing to wait for.
abbrev IsRest : ConnSlot → ConnSlot → Type 0
IsRest c c1 =
    let space = conn_recv_space (conn_compact c.conn) in
    (((c.closing ≡ true) ⊎ (space ≡ 0)) × (c1 ≡ free_slot))
    ⊎ ((c.closing ≡ false)
        × (0 < space)
        × (c1 ≡ record c { conn = conn_compact c.conn })
        × IsCarried c1)

module _ {m : Machine} where
  release-free :
      (nd : Node m) (c : ConnSlot) → c.in_use ≡ true → (slot_release m nd c).1 ≡ free_slot
  unfolding slot_release
  release-free nd c used = rw used refl

  arm_rest-IsRest :
      (nd : Node m) (c : ConnSlot) → c.in_use ≡ true → IsCarried c → IsRest c (arm_rest m (nd, c)).1
  arm_rest-IsRest nd c used carried =
      let c2 = record c { conn = conn_compact c.conn } in
      if-cases (λ (r : Node m × ConnSlot). IsRest c r.1) c.closing
        (λ ending. inl (inl ending, release-free nd c used))
        (λ on.
          if-cases (λ (r : Node m × ConnSlot). IsRest c r.1) (leb (conn_recv_space c2.conn) 0)
            (λ none. inl (inr (ground arith), release-free nd (record c2 { closing = true }) used))
            (λ room. inr (on, ground arith, refl, carried)))

  arm_rest-closing :
      (nd : Node m) (c : ConnSlot)
      → c.in_use ≡ true
      → c.closing ≡ true
      → (arm_rest m (nd, c)).1 ≡ free_slot
  arm_rest-closing nd c used ending =
      if-cases (λ (r : Node m × ConnSlot). r.1 ≡ free_slot) c.closing (λ _. release-free nd c used)
        (λ on. absurd (cc))

  arm_rest-idle :
      (nd : Node m) (i : ℕ) (c : ConnSlot)
      → c.in_use ≡ true
      → is_sending c ≡ false
      → IsArmed nd i c (arm_rest m (nd, c)).1
  arm_rest-idle nd i c used idle = elim (arm_rest-IsRest nd c used (idle-IsCarried c idle)) [
    | inl (inl ending, gone) ↦ inr (inl (used, inl ending, gone))
    | inl (inr full, gone) ↦ inr (inl (used, inr (inr full), gone))
    | inr (on, room, same, carried) ↦ rw idle (inr (inr (used, on, refl, room, same, carried)))
  ]

  arm_rest-sent :
      (nd nd1 : Node m) (i : ℕ) (c c1 : ConnSlot)
      → c.in_use ≡ true
      → is_sending c ≡ true
      → IsSent (is_broken nd i c (send_of nd c)) c (send_of nd c).1 c1
      → IsArmed nd i c (arm_rest m (nd1, c1)).1
  arm_rest-sent nd nd1 i c c1 used sends (inl (broken, same, ending)) =
      rw (sends, broken)
        (inr (inl (used, inr (inl refl), arm_rest-closing nd1 c1 (same ∙ used) ending)))
  arm_rest-sent nd nd1 i c c1 used sends (inr (fine, same)) =
      let c2 = sent_on c (send_of nd c).1 in
      subst (λ (x : ConnSlot). IsArmed nd i c (arm_rest m (nd1, x)).1) (sym same)
        (elim (arm_rest-IsRest nd1 c2 used (sent_on-IsCarried c (send_of nd c).1)) [
          | inl (inl ending, gone) ↦ inr (inl (used, inl ending, gone))
          | inl (inr full, gone) ↦ inr (inl (used, inr (inr full), gone))
          | inr (on, room, same, carried) ↦
              rw (sends, fine) (inr (inr (used, on, refl, room, same, carried)))
        ])

  arm_slot-IsArmed : (nd : Node m) (i : ℕ) (c : ConnSlot) → IsArmed nd i c (arm_slot m nd i c).1
  unfolding arm_slot conn_send
  arm_slot-IsArmed nd i c =
      if-cases (λ (r : Node m × ConnSlot). IsArmed nd i c r.1) (not c.in_use)
        (λ free. inl (ground arith, refl))
        (λ e.
          let used : c.in_use ≡ true = ground arith in
          if-cases (λ (r : Node m × ConnSlot). IsArmed nd i c (arm_rest m r).1) (is_sending c)
            (λ sends.
              let s = conn_sent m nd i c (send_of nd c) in
              arm_rest-sent nd s.0 i c s.1 used sends
                (conn_sent-IsSent nd i c (send_of nd c) used sends))
            (λ idle. arm_rest-idle nd i c used idle))

  arm_all-AreArmed :
      (nd : Node m) (i : ℕ) (cs : List ConnSlot) → AreArmed nd i cs (arm_all m nd i cs).1
  unfolding arm_all
  arm_all-AreArmed nd i [] = tt
  arm_all-AreArmed nd i (c ∷ cs) =
      (arm_slot-IsArmed nd i c, arm_all-AreArmed (arm_slot m nd i c).0 (suc i) cs)

  -- Over every slot in turn, each on what those before it leave of the system. A free slot stays as it
  -- is. A slot in use is given up exactly where it was to be closed, where the send of its staged
  -- bytes fails, moves nothing or leaves some for which EPOLLOUT is refused, or where it has no room
  -- to receive into once the parsed bytes are dropped. Any other loses of its staged bytes what the
  -- send took and nothing else, waits for EPOLLOUT where the send left some, and has its receive
  -- buffer compacted; afterwards it has bytes staged only where it waits for EPOLLOUT, if its
  -- descriptor is open.
  pub arm_conns-AreArmed :
      (nd : Node m) (conns : List ConnSlot) → AreArmed nd 0 conns (arm_conns m nd conns).1
  unfolding arm_conns
  arm_conns-AreArmed nd conns = arm_all-AreArmed nd 0 conns
