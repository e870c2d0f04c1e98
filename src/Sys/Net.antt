-- ===== src/Sys/Net.antt =====
-- src/sys/os.h: sockets, readiness, time and randomness, over the kernel's system calls.
use msgsrvd.Prelude.{ℕ, ◌+◌, ◌*◌, ◌/◌, ◌%◌, ℤ, List, length, ◌==◌, if◌then◌else◌, u64, of_le}
use msgsrvd.Core.Err.{errno, fd}
use msgsrvd.Sys.Os.{Kernel, Answer, done, failed, Os, Ran, finish}

abbrev pub eio : ℕ
eio = 5

abbrev pub eagain : ℕ
eagain = 11

abbrev pub einprogress : ℕ
einprogress = 115

abbrev pub epollin : ℕ
epollin = 1

abbrev pub epollout : ℕ
epollout = 4

abbrev pub epollerr : ℕ
epollerr = 8

abbrev pub epollhup : ℕ
epollhup = 16

abbrev pub epoll_ctl_add : ℕ
epoll_ctl_add = 1

abbrev pub epoll_ctl_del : ℕ
epoll_ctl_del = 2

abbrev pub epoll_ctl_mod : ℕ
epoll_ctl_mod = 3

-- SOCK_NONBLOCK | SOCK_CLOEXEC, and the same with SOCK_STREAM.
abbrev pub sock_accepted : ℕ
sock_accepted = 0x80800

abbrev pub sock_stream : ℕ
sock_stream = 0x80801

abbrev pub msg_dontwait : ℕ
msg_dontwait = 0x40

abbrev pub msg_nosignal : ℕ
msg_nosignal = 0x4000

abbrev pub af_inet : ℕ
af_inet = 2

-- An IPv4 socket address, its numbers in host byte order.
pub record SockAddr : Type 0 where
  pub sin_port : ℕ
  pub sin_addr : ℕ

pub record EpollEvent : Type 0 where
  pub events : ℕ
  pub word : ℕ

-- The system calls on sockets, readiness, time and randomness, on the same world as the files. A
-- read answers the bytes that it placed in the buffer, a write their number.
pub record Net (k : Kernel) : Type 0 where
  pub socket : k.World → ℕ → ℕ → ℕ → k.World × Answer ℤ
  pub bind : k.World → ℤ → SockAddr → k.World × Answer (Unit {0})
  pub connect : k.World → ℤ → SockAddr → k.World × Answer (Unit {0})
  pub getsockname : k.World → ℤ → k.World × Answer SockAddr
  pub listen : k.World → ℤ → ℕ → k.World × Answer (Unit {0})
  pub setsockopt : k.World → ℤ → ℕ → ℕ → ℕ → k.World × Answer (Unit {0})
  pub getsockopt : k.World → ℤ → ℕ → ℕ → k.World × Answer ℤ
  pub accept4 : k.World → ℤ → ℕ → k.World × Answer ℤ
  pub recvfrom : k.World → ℤ → ℕ → ℕ → k.World × Answer (List ℕ)
  pub sendto : k.World → ℤ → List ℕ → ℕ → k.World × Answer ℕ
  pub epoll_create1 : k.World → ℕ → k.World × Answer ℤ
  pub epoll_ctl : k.World → ℤ → ℕ → ℤ → EpollEvent → k.World × Answer (Unit {0})
  pub epoll_wait : k.World → ℤ → ℕ → ℤ → k.World × Answer (List EpollEvent)
  pub read : k.World → ℤ → ℕ → k.World × Answer (List ℕ)
  pub write : k.World → ℤ → List ℕ → k.World × Answer ℕ
  pub getrandom : k.World → ℕ → k.World × Answer (List ℕ)
  pub clock_gettime : k.World → k.World × Answer (ℕ × ℕ)
  pub timerfd_create : k.World → ℕ → k.World × Answer ℤ
  pub timerfd_settime : k.World → ℤ → ℕ × ℕ → k.World × Answer (Unit {0})

module _ (k : Kernel) (net : Net k) where
  unfoldable pub os_socket : Os k → ℕ → ℕ → ℕ → Ran k ℤ
  os_socket o domain type protocol =
      finish k o.errors (λ n. errno n) (net.socket o.world domain type protocol)

  unfoldable pub os_bind : Os k → ℤ → SockAddr → Ran k (Unit {0})
  os_bind o d addr = finish k o.errors (λ _. fd d) (net.bind o.world d addr)

  unfoldable pub os_connect : Os k → ℤ → SockAddr → Ran k (Unit {0})
  os_connect o d addr = finish k o.errors (λ _. fd d) (net.connect o.world d addr)

  unfoldable pub os_getsockname : Os k → ℤ → Ran k SockAddr
  os_getsockname o d = finish k o.errors (λ _. fd d) (net.getsockname o.world d)

  unfoldable pub os_listen : Os k → ℤ → ℕ → Ran k (Unit {0})
  os_listen o d backlog = finish k o.errors (λ _. fd d) (net.listen o.world d backlog)

  unfoldable pub os_setsockopt : Os k → ℤ → ℕ → ℕ → ℕ → Ran k (Unit {0})
  os_setsockopt o d level name value =
      finish k o.errors (λ _. fd d) (net.setsockopt o.world d level name value)

  unfoldable pub os_getsockopt_int : Os k → ℤ → ℕ → ℕ → Ran k ℤ
  os_getsockopt_int o d level name =
      finish k o.errors (λ _. fd d) (net.getsockopt o.world d level name)

  unfoldable pub os_accept4 : Os k → ℤ → ℕ → Ran k ℤ
  os_accept4 o d flags = finish k o.errors (λ _. fd d) (net.accept4 o.world d flags)

  -- What the system call answered, with no error pushed.
  unfoldable pub os_recv : k.World → ℤ → ℕ → ℕ → k.World × Answer (List ℕ)
  os_recv w d len flags = net.recvfrom w d len flags

  unfoldable pub os_send : k.World → ℤ → List ℕ → ℕ → k.World × Answer ℕ
  os_send w d bytes flags = net.sendto w d bytes flags

  unfoldable pub os_epoll_create : Os k → ℕ → Ran k ℤ
  os_epoll_create o flags = finish k o.errors (λ n. errno n) (net.epoll_create1 o.world flags)

  unfoldable pub os_epoll_ctl : Os k → ℤ → ℕ → ℤ → ℕ → ℕ → Ran k (Unit {0})
  os_epoll_ctl o epfd op d events word =
      finish k o.errors (λ _. fd d)
        (net.epoll_ctl o.world epfd op d (record { events = events; word = word }))

  unfoldable pub os_epoll_wait : Os k → ℤ → ℕ → ℤ → Ran k (List EpollEvent)
  os_epoll_wait o epfd max timeout =
      finish k o.errors (λ _. fd epfd) (net.epoll_wait o.world epfd max timeout)

  unfoldable pub os_read_raw : k.World → ℤ → ℕ → k.World × Answer (List ℕ)
  os_read_raw w d count = net.read w d count

  unfoldable pub os_write_raw : k.World → ℤ → List ℕ → k.World
  os_write_raw w d bytes = (net.write w d bytes).0

  abbrev pub random_of : k.World × Answer (List ℕ) → k.World × ℕ
  random_of (w, failed n) = (w, 0)
  random_of (w, done bytes) = (w, if length bytes == 8 then of_le bytes else 0)

  unfoldable pub os_random_u64 : k.World → k.World × ℕ
  os_random_u64 w = random_of (net.getrandom w 8)

  abbrev pub ns_of : k.World × Answer (ℕ × ℕ) → k.World × ℕ
  ns_of (w, failed n) = (w, 0)
  ns_of (w, done (sec, nsec)) = (w, u64 (sec * 1000000000 + nsec))

  unfoldable pub os_now_ns : k.World → k.World × ℕ
  os_now_ns w = ns_of (net.clock_gettime w)

  unfoldable pub os_timerfd : Os k → ℕ → Ran k ℤ
  os_timerfd o flags = finish k o.errors (λ n. errno n) (net.timerfd_create o.world flags)

  unfoldable pub os_timerfd_period : Os k → ℤ → ℕ → Ran k (Unit {0})
  os_timerfd_period o d period_ns =
      finish k o.errors (λ n. errno n)
        (net.timerfd_settime o.world d (period_ns / 1000000000, period_ns % 1000000000))
