-- ===== src/Server/Loop/Events/Sent.antt =====
-- src/server/loop.c: what a send of staged bytes leaves of a slot.
use msgsrvd.Prelude.{
  ℕ, zero, suc, ◌+◌, Bool, true, false, not, ◌&&◌, ◌||◌, ◌⊎◌, inl, inr, List, [], ◌∷◌, length, drop,
  drop-le, ltb, ◌==◌, if◌then◌else◌, ℤ, pos, negsuc, arith, Bool-cases, if-cases, refl, ap, ◌∙◌,
  ◌≡◌, subst, sym,
}
use msgsrvd.Core.Err.{Result, ok, err}
use msgsrvd.Sys.Os.{Answer, done, failed, Ran}
use msgsrvd.Sys.Net.{
  os_epoll_ctl, os_send, eagain, epoll_ctl_mod, epollin, epollout, msg_dontwait, msg_nosignal,
}
use msgsrvd.Server.Loop.{ConnSlot, Machine, Node, fresh}
use msgsrvd.Server.Loop.Slots.{ud_make, op_conn}
use msgsrvd.Server.Loop.Frames.{loop_send_done}
use msgsrvd.Server.Loop.Events.{
  is_open, minus_errno, same_interest, interest, conn_wanting, conn_want_out, conn_sent,
}

-- Nothing staged waits without being waited for.
abbrev pub IsCarried : ConnSlot → Type 0
IsCarried c = (c.staged ≡ []) ⊎ (c.want_out ≡ true) ⊎ (is_open c.fd ≡ false)

-- The phase sends for a slot that has bytes staged and an open descriptor, and does not wait for
-- EPOLLOUT already.
abbrev pub is_sending : ConnSlot → Bool
is_sending c = ltb 0 (length c.staged) && not c.want_out && is_open c.fd

-- What a send leaves of the staged bytes.
abbrev pub left_by : Answer ℕ → List ℕ → List ℕ
left_by (done n) staged = drop n staged
left_by (failed n) staged = staged

-- A send that failed, other than for want of room, or moved nothing.
abbrev pub is_refusing : Answer ℕ → Bool
is_refusing (done n) = n == 0
is_refusing (failed n) = not (n == eagain)

abbrev pub is_failed {ℓ} : {A : Type ℓ} → Result A → Bool
is_failed (ok a) = false
is_failed (err code detail) = true

module _ {m : Machine} where
  abbrev pub send_of : Node m → ConnSlot → m.kernel.World × Answer ℕ
  send_of nd c = os_send m.kernel m.net nd.world c.fd c.staged (msg_nosignal + msg_dontwait)

  -- EPOLLOUT asked for, after the send of these bytes.
  abbrev pub watch_of : Node m → ℕ → ConnSlot → m.kernel.World → Ran m.kernel (Unit {0})
  watch_of nd i c w =
      os_epoll_ctl m.kernel m.net (fresh (record nd { world = w })) nd.epoll_fd epoll_ctl_mod c.fd
        (epollin + epollout) (ud_make op_conn i)

  -- The send fails, or leaves bytes for which EPOLLOUT cannot be had.
  abbrev pub is_broken : Node m → ℕ → ConnSlot → m.kernel.World × Answer ℕ → Bool
  is_broken nd i c (w, a) =
      is_refusing a || (ltb 0 (length (left_by a c.staged)) && is_failed (watch_of nd i c w).1)

-- The slot once the answer to a send is acted on, where it is not broken.
abbrev pub sent_on : ConnSlot → Answer ℕ → ConnSlot
sent_on c a = record c {
  staged = left_by a c.staged;
  want_out = ltb 0 (length (left_by a c.staged));
}

staged-none : (bytes : List ℕ) → ltb 0 (length bytes) ≡ false → bytes ≡ []
staged-none [] e = refl
staged-none (b ∷ bs) e = ground arith

pub idle-IsCarried : (c : ConnSlot) → is_sending c ≡ false → IsCarried c
idle-IsCarried c idle = elim (Bool-cases (ltb 0 (length c.staged))) [
  | inr none ↦ inl (staged-none c.staged none)
  | inl bytes ↦ elim (Bool-cases c.want_out) [
    | inl carried ↦ inr (inl carried)
    | inr free ↦ inr (inr (ground arith))
  ]
]

pub sent_on-IsCarried : (c : ConnSlot) (a : Answer ℕ) → IsCarried (sent_on c a)
sent_on-IsCarried c a = elim (Bool-cases (ltb 0 (length (left_by a c.staged)))) [
  | inl more ↦ inr (inl more)
  | inr none ↦ inl (staged-none (left_by a c.staged) none)
]

-- What `loop_send_done` makes of a send that moved something.
loop_send_done-moved :
    (c : ConnSlot) (n : ℕ)
    → c.in_use ≡ true
    → (n == 0) ≡ false
    → loop_send_done c (pos n) ≡ record c { staged = drop n c.staged }
unfolding loop_send_done
loop_send_done-moved c n used some_moved = elim (Bool-cases (ltb n (length c.staged))) [
  | inl part ↦ rw (used, some_moved, part) refl
  | inr all ↦
      let gone : drop n c.staged ≡ [] = drop-le n c.staged (ground arith) in
      rw (used, some_moved, all, gone) refl
]

loop_send_done-used : (c : ConnSlot) (res : ℤ) → (loop_send_done c res).in_use ≡ c.in_use
unfolding loop_send_done
loop_send_done-used c (negsuc n) = ground arith
loop_send_done-used c (pos n) = ground arith

loop_send_done-none : (c : ConnSlot) → c.in_use ≡ true → (loop_send_done c (pos 0)).closing ≡ true
unfolding loop_send_done
loop_send_done-none c used = rw used refl

loop_send_done-failed :
    (c : ConnSlot) (n : ℕ) → c.in_use ≡ true → (loop_send_done c (minus_errno n)).closing ≡ true
unfolding loop_send_done
loop_send_done-failed c zero used = rw used refl
loop_send_done-failed c (suc n) used = rw used refl

-- What a slot is once its staged bytes were sent as far as they could.
abbrev pub IsSent : Bool → ConnSlot → Answer ℕ → ConnSlot → Type 0
IsSent broken c a c1 =
    ((broken ≡ true) × (c1.in_use ≡ c.in_use) × (c1.closing ≡ true))
    ⊎ ((broken ≡ false) × (c1 ≡ sent_on c a))

module _ {m : Machine} where
  conn_wanting_lem :
      (nd : Node m) (c : ConnSlot) (want : Bool) (r : Ran m.kernel (Unit {0}))
      → (conn_wanting m nd c want r).1
        ≡ (if is_failed r.1 then record c { closing = true } else record c { want_out = want })
  conn_wanting_lem nd c want (o, err code detail) = refl
  conn_wanting_lem nd c want (o, ok u) = refl

  -- A slot that does not wait for EPOLLOUT, when it is to or is not to.
  conn_want_out-none :
      (nd : Node m) (i : ℕ) (c : ConnSlot)
      → c.want_out ≡ false
      → (conn_want_out m nd i c false).1 ≡ c
  unfolding conn_want_out
  conn_want_out-none nd i c idle =
      let e : not (is_open c.fd) || same_interest c.want_out false ≡ true = ground arith in
      rw e refl

  conn_want_out-watch :
      (w : m.kernel.World) (nd : Node m) (i : ℕ) (c : ConnSlot)
      → is_open c.fd ≡ true
      → c.want_out ≡ false
      → let r = watch_of nd i c w in
        (conn_want_out m (record nd { world = w }) i c true).1
        ≡ (if is_failed r.1 then record c { closing = true } else record c { want_out = true })
  unfolding conn_want_out
  conn_want_out-watch w nd i c h idle =
      let e : not (is_open c.fd) || same_interest c.want_out true ≡ false = ground arith in
      rw e (conn_wanting_lem (record nd { world = w }) c true (watch_of nd i c w))

  -- A slot that is to be closed stays so.
  conn_wanting-closing :
      (nd : Node m) (c : ConnSlot) (want : Bool) (r : Ran m.kernel (Unit {0}))
      → c.closing ≡ true
      → let s = (conn_wanting m nd c want r).1 in (s.in_use ≡ c.in_use) × (s.closing ≡ true)
  conn_wanting-closing nd c want (o, err code detail) h = (refl, refl)
  conn_wanting-closing nd c want (o, ok u) h = (refl, h)

  conn_want_out-closing :
      (nd : Node m) (i : ℕ) (c : ConnSlot) (want : Bool)
      → c.closing ≡ true
      → let s = (conn_want_out m nd i c want).1 in (s.in_use ≡ c.in_use) × (s.closing ≡ true)
  unfolding conn_want_out
  conn_want_out-closing nd i c want h =
      if-cases (λ (r : Node m × ConnSlot). (r.1.in_use ≡ c.in_use) × (r.1.closing ≡ true))
        (not (is_open c.fd) || same_interest c.want_out want) (λ _. (refl, h))
        (λ _.
          conn_wanting-closing nd c want
            (os_epoll_ctl m.kernel m.net (fresh nd) nd.epoll_fd epoll_ctl_mod c.fd (interest want)
              (ud_make op_conn i))
            h)

  -- What is left of the bytes is waited for, or the slot is to be closed.
  follow-IsSent :
      (w : m.kernel.World) (nd : Node m) (i : ℕ) (c : ConnSlot) (a : Answer ℕ)
      → is_open c.fd ≡ true
      → c.want_out ≡ false
      → is_refusing a ≡ false
      → let c1 = record c { staged = left_by a c.staged } in
        IsSent
          (is_broken nd i c (w, a))
          c
          a
          (conn_want_out m (record nd { world = w }) i c1 (ltb 0 (length (left_by a c.staged)))).1
  follow-IsSent w nd i c a h idle fine =
      let c1 = record c { staged = left_by a c.staged } in
      elim (Bool-cases (ltb 0 (length (left_by a c.staged)))) [
        | inr none ↦
            rw (none, fine)
              (inr (
                refl,
                conn_want_out-none (record nd { world = w }) i c1 idle
                    ∙ (λ j. record c1 { want_out = idle j }),
              ))
        | inl more ↦
            let e = conn_want_out-watch w nd i c1 h idle in
            elim (Bool-cases (is_failed (watch_of nd i c w).1)) [
              | inl bad ↦
                  rw (more, fine, bad)
                    (inl (
                      refl,
                      ap (λ (x : ConnSlot). x.in_use) e ∙ rw bad refl,
                      ap (λ (x : ConnSlot). x.closing) e ∙ rw bad refl,
                    ))
              | inr good ↦ rw (more, fine, good) (inr (refl, e ∙ rw good refl))
            ]
      ]

  closing-IsSent :
      (w : m.kernel.World) (nd : Node m) (i : ℕ) (c c1 : ConnSlot) (want : Bool) (a : Answer ℕ)
      → c1.in_use ≡ c.in_use
      → c1.closing ≡ true
      → is_refusing a ≡ true
      → IsSent (is_broken nd i c (w, a)) c a (conn_want_out m (record nd { world = w }) i c1 want).1
  closing-IsSent w nd i c c1 want a same h bad =
      let (used, ending) = conn_want_out-closing (record nd { world = w }) i c1 want h in
      rw bad (inl (refl, used ∙ same, ending))

  pub conn_sent-IsSent :
      (nd : Node m) (i : ℕ) (c : ConnSlot) (r : m.kernel.World × Answer ℕ)
      → c.in_use ≡ true
      → is_sending c ≡ true
      → IsSent (is_broken nd i c r) c r.1 (conn_sent m nd i c r).1
  conn_sent-IsSent nd i c (w, done zero) used sends =
      let c1 = loop_send_done c (pos 0) in
      closing-IsSent w nd i c c1 (ltb 0 (length c1.staged)) (done 0) (loop_send_done-used c (pos 0))
        (loop_send_done-none c used) refl
  conn_sent-IsSent nd i c (w, done (suc n)) used sends =
      let e = loop_send_done-moved c (suc n) used (ground arith) in
      subst
        (λ (c1 : ConnSlot).
          IsSent (is_broken nd i c (w, done (suc n))) c (done (suc n))
            (conn_want_out m (record nd { world = w }) i c1 (ltb 0 (length c1.staged))).1)
        (sym e) (follow-IsSent w nd i c (done (suc n)) (ground arith) (ground arith) (ground arith))
  conn_sent-IsSent nd i c (w, failed n) used sends =
      if-cases (λ (r : Node m × ConnSlot). IsSent (is_broken nd i c (w, failed n)) c (failed n) r.1)
        (n == eagain)
        (λ full.
          let more : ltb 0 (length c.staged) ≡ true = ground arith in
          subst
            (λ (want : Bool).
              IsSent (is_broken nd i c (w, failed n)) c (failed n)
                (conn_want_out m (record nd { world = w }) i c want).1)
            more (follow-IsSent w nd i c (failed n) (ground arith) (ground arith) (ground arith)))
        (λ other.
          let c1 = loop_send_done c (minus_errno n) in
          closing-IsSent w nd i c c1 (ltb 0 (length c1.staged)) (failed n)
            (loop_send_done-used c (minus_errno n)) (loop_send_done-failed c n used) (ground arith))
