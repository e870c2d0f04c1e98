-- ===== src/Server/Loop/Slots.antt =====
-- src/server/loop.c: slots taken and given up, and the clock.
-- An event's word has the kind of descriptor in its top byte and the slot in its low bits.
use msgsrvd.Prelude.{
  ℕ, suc, ◌+◌, ◌*◌, ◌/◌, ◌%◌, ◌^◌, false, Option, none, some, List, [], ◌∷◌, get_or, set, leb,
  if◌then◌else◌, u64, ℤ, pos, negsuc,
}
use msgsrvd.Core.Err.{ok, err}
use msgsrvd.Sys.Os.{Os, Ran, os_close}
use msgsrvd.Sys.Net.{
  os_epoll_ctl, os_timerfd, os_timerfd_period, epoll_ctl_add, epoll_ctl_del, epollin, sock_accepted,
}
use msgsrvd.Wal.Cursor.{Cursor, cursor_init, cursor_close}
use msgsrvd.Server.Loop.{
  ConnSlot, Peer, Machine, Node, counting, fresh, free_slot, loop_tick_ns, loop_max_replicas,
}

abbrev pub op_listen : ℕ
op_listen = 1

abbrev pub op_conn : ℕ
op_conn = 2

abbrev pub op_signal : ℕ
op_signal = 3

abbrev pub op_timer : ℕ
op_timer = 4

abbrev pub op_stream : ℕ
op_stream = 5

abbrev pub op_metrics : ℕ
op_metrics = 6

abbrev pub op_scrape : ℕ
op_scrape = 7

abbrev pub ud_make : ℕ → ℕ → ℕ
ud_make op slot = op * 2 ^ 56 + slot

abbrev pub ud_op : ℕ → ℕ
ud_op ud = ud / 2 ^ 56

abbrev pub ud_slot : ℕ → ℕ
ud_slot ud = ud % 2 ^ 32

-- The first free slot.
pub slot_alloc : List ConnSlot → Option ℕ
slot_alloc [] = none
slot_alloc (c ∷ cs) = elim (slot_alloc cs) [
  | none ↦ if c.in_use then none else some 0
  | some i ↦ if c.in_use then some (suc i) else some 0
]

-- A peer that is not live.
abbrev pub free_peer : Peer
free_peer = record { live = false; durable = 0; cursor = cursor_init; ack_ns = 0 }

module _ (m : Machine) where
  -- The world after a call whose answer is not looked at.
  abbrev pub after {ℓ} : {A : Type ℓ} → Node m → Ran m.kernel A → Node m
  after nd r = record nd { world = r.0.world }

  -- The cursor of a peer closed and the peer forgotten, where the index is one.
  abbrev pub replica_release : Node m → ℤ → Node m
  replica_release nd (negsuc n) = nd
  replica_release nd (pos i) =
      if leb loop_max_replicas i
      then nd
      else (let (o, cursor, status) =
            cursor_close m.kernel m.crc (fresh nd) (get_or nd.peers i free_peer).cursor in
          record nd {
            world = o.world;
            peers = set nd.peers i (record free_peer { cursor = cursor });
          })

  -- A cursor that has a descriptor closed.
  abbrev pub close_cursor : Node m → ℤ → Cursor → Node m
  close_cursor nd (negsuc n) cursor = nd
  close_cursor nd (pos n) cursor = record nd {
    world = (cursor_close m.kernel m.crc (fresh nd) cursor).0.world;
  }

  -- A socket taken out of the epoll set and closed, where there is one.
  abbrev pub close_socket : Node m → ℤ → Node m
  close_socket nd (negsuc n) = nd
  close_socket nd (pos n) =
      let (o, ctl) = os_epoll_ctl m.kernel m.net (fresh nd) nd.epoll_fd epoll_ctl_del (pos n) 0 0 in
      after nd (os_close m.kernel o (pos n))

  -- What a slot owns given back.
  unfoldable pub give_back : Node m → ConnSlot → Node m
  give_back nd c =
      close_socket (close_cursor (replica_release nd c.replica) c.sub.cursor.fd c.sub.cursor) c.fd

  unfoldable pub slot_release : Node m → ConnSlot → Node m × ConnSlot
  unfolding give_back
  slot_release nd c =
      if c.in_use
      then (counting (give_back nd c) (λ k. record k { closed = u64 (k.closed + 1) }), free_slot)
      else (nd, c)

  -- A timer that could not be set up is closed again.
  abbrev pub timer_failed : Node m → Os m.kernel → ℤ → Node m
  timer_failed nd o fd = record nd { world = (os_close m.kernel o fd).0.world; timer_fd = negsuc 0 }

  abbrev pub timer_added : Node m → ℤ → Ran m.kernel (Unit {0}) → Node m
  timer_added nd fd (o, err code detail) = timer_failed nd o fd
  timer_added nd fd (o, ok _) = record nd { world = o.world; timer_fd = fd }

  abbrev pub timer_set : Node m → ℤ → Ran m.kernel (Unit {0}) → Node m
  timer_set nd fd (o, err code detail) = timer_failed nd o fd
  timer_set nd fd (o, ok _) =
      timer_added nd fd
        (os_epoll_ctl m.kernel m.net o nd.epoll_fd epoll_ctl_add fd epollin (ud_make op_timer 0))

  abbrev pub timer_made : Node m → Ran m.kernel ℤ → Node m
  timer_made nd (o, err code detail) = record nd { world = o.world; timer_fd = negsuc 0 }
  timer_made nd (o, ok fd) = timer_set nd fd (os_timerfd_period m.kernel m.net o fd loop_tick_ns)

  abbrev pub without_timer : ℤ → Node m → Node m → Node m
  without_timer (pos n) nd armed = nd
  without_timer (negsuc n) nd armed = armed

  unfoldable pub arm_timer_now : Node m → Node m
  arm_timer_now nd =
      without_timer nd.timer_fd nd
        (timer_made nd (os_timerfd m.kernel m.net (fresh nd) sock_accepted))
