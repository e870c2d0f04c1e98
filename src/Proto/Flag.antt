-- ===== src/Proto/Flag.antt =====
-- MSG_FLAG_* of src/proto/msg.h: the bits of a header's flags.
use msgsrvd.Prelude.{ℕ}

abbrev pub ack_req : ℕ
ack_req = 1

abbrev pub sync : ℕ
sync = 2

abbrev pub replicated : ℕ
replicated = 4

abbrev pub allow_degraded : ℕ
allow_degraded = 8

abbrev pub degraded : ℕ
degraded = 16

abbrev pub last : ℕ
last = 32

abbrev pub all_keys : ℕ
all_keys = 64
