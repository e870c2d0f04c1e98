-- ===== src/Proto/Op.antt =====
-- MSG_OP_* of src/proto/msg.h: the verbs of the protocol.
use msgsrvd.Prelude.{ℕ}

abbrev pub write : ℕ
write = 1

abbrev pub read : ℕ
read = 2

abbrev pub delete : ℕ
delete = 3

abbrev pub subscribe : ℕ
subscribe = 4

abbrev pub notify : ℕ
notify = 5

abbrev pub ack : ℕ
ack = 6

abbrev pub err : ℕ
err = 7

abbrev pub ping : ℕ
ping = 8

abbrev pub pong : ℕ
pong = 9

abbrev pub hello : ℕ
hello = 10

abbrev pub repl_start : ℕ
repl_start = 11

abbrev pub repl_data : ℕ
repl_data = 12

abbrev pub repl_ack : ℕ
repl_ack = 13

-- MSG_OP_MIN and MSG_OP_MAX.
abbrev pub lowest : ℕ
lowest = write

abbrev pub highest : ℕ
highest = repl_ack
