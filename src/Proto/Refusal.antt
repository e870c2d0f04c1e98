-- ===== src/Proto/Refusal.antt =====
-- MSG_ERR_* of src/proto/msg.h: the codes of an ERR response.
use msgsrvd.Prelude.{ℕ}

abbrev pub bad_magic : ℕ
bad_magic = 1

abbrev pub bad_version : ℕ
bad_version = 2

abbrev pub bad_op : ℕ
bad_op = 3

abbrev pub payload_too_big : ℕ
payload_too_big = 4

abbrev pub not_leader : ℕ
not_leader = 5

abbrev pub behind : ℕ
behind = 6

abbrev pub no_session : ℕ
no_session = 7

abbrev pub session_unknown : ℕ
session_unknown = 8

abbrev pub unsupported : ℕ
unsupported = 9

abbrev pub no_replicas : ℕ
no_replicas = 10

abbrev pub no_history : ℕ
no_history = 11

abbrev pub storage : ℕ
storage = 12
