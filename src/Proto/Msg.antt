-- ===== src/Proto/Msg.antt =====
-- src/proto/msg.h: the wire header and the fixed payloads.
pub mod Codec
pub mod Encoded
pub mod Payload
pub mod Examples
use msgsrvd.Prelude.{
  ℕ, ◌+◌, ◌-◌, ◌*◌, ◌^◌, Bool, true, false, not, Option, none, some, List, ◌++◌, length, take, drop,
  ltb, ◌==◌, if◌then◌else◌, le, of_le, int32, ℤ, pos, negsuc, u16,
}
use msgsrvd.Core.Mem.{mem_copy}
use msgsrvd.Proto.Op
use msgsrvd.Wal.Record.{field_at}

abbrev pub msg_magic : ℕ
msg_magic = 0x4d53_4756

abbrev pub msg_version : ℕ
msg_version = 2

abbrev pub msg_version_min : ℕ
msg_version_min = 2

abbrev pub msg_header_size : ℕ
msg_header_size = 32

abbrev pub msg_max_payload : ℕ
msg_max_payload = 1024 * 1024

abbrev pub msg_max_name : ℕ
msg_max_name = 64

abbrev pub msg_max_err_text : ℕ
msg_max_err_text = 64

pub record Header : Type 0 where
  pub magic : ℕ
  pub version : ℕ
  pub flags : ℕ
  pub op : ℕ
  pub record_type : ℕ
  pub payload_len : ℕ
  pub partition_key : ℕ
  pub sequence : ℕ

-- The struct as it lies in memory, little-endian and with no gaps.
unfoldable pub header_bytes : Header → List ℕ
header_bytes h =
    le 4 h.magic
    ++ (le 2 h.version
        ++ (le 2 h.flags
            ++ (le 2 h.op
                ++ (le 2 h.record_type
                    ++ (le 4 h.payload_len ++ (le 8 h.partition_key ++ le 8 h.sequence))))))

-- `mem_copy` of the header's 32 bytes into the struct.
unfoldable pub read_header : List ℕ → Header
read_header buf = record {
  magic = field_at 0 4 buf;
  version = field_at 4 2 buf;
  flags = field_at 6 2 buf;
  op = field_at 8 2 buf;
  record_type = field_at 10 2 buf;
  payload_len = field_at 12 4 buf;
  partition_key = field_at 16 8 buf;
  sequence = field_at 24 8 buf;
}
