-- ===== src/Proto/Conn/Events.antt =====
-- What a connection is meant to deliver: frames with their payload bytes, the bytes that carry them,
-- and which sequences of frames are legal.
use msgsrvd.Prelude.{
  ℕ, ◌+◌, ◌≤◌, ◌≡◌, refl, Bool, not, Option, none, some, List, [], ◌∷◌, ◌++◌, length, take, drop,
  ap, sym, ◌∙◌, append_assoc, if◌then◌else◌, true,
}
use msgsrvd.Proto.Op
use msgsrvd.Proto.Msg.{
  Header, header_bytes, msg_magic, msg_version, msg_version_min, msg_header_size, msg_max_payload,
}
use msgsrvd.Proto.Conn.{Action, frame, reply_err, close, Mode, client, Conn, opens}

-- A frame with the bytes of its payload.
abbrev pub Event : Type 0
Event = Header × List ℕ

-- The bytes that a payload pointer of the connection's buffer refers to.
abbrev pub payload_of : List ℕ → Option ℕ → ℕ → List ℕ
payload_of buf none n = []
payload_of buf (some off) n = take n (drop off buf)

abbrev pub events : List ℕ → List Action → List Event
events buf [] = []
events buf (frame h p n ∷ acts) = (h, payload_of buf p n) ∷ events buf acts
events buf (reply_err code echo_seq ∷ acts) = events buf acts
events buf (close ∷ acts) = events buf acts

-- The bytes that carry a sequence of frames.
abbrev pub wire : List Event → List ℕ
wire [] = []
wire ((h, p) ∷ es) = header_bytes h ++ (p ++ wire es)

-- A frame that may come on a connection, given whether it has been opened.
pub record IsLegal (cap : ℕ) (mode : Mode) (opened : Bool) (h : Header) (p : List ℕ) : Type 0 where
  pub magic : h.magic ≡ msg_magic
  pub version_low : msg_version_min ≤ h.version
  pub version_high : h.version ≤ msg_version
  pub op_low : Op.lowest ≤ h.op
  pub op_high : h.op ≤ Op.highest
  pub small : h.payload_len ≤ msg_max_payload
  pub fits : msg_header_size + h.payload_len ≤ cap
  pub whole : length p ≡ h.payload_len
  pub order : mode ≡ client → opens h ≡ not opened

abbrev pub Legal : ℕ → Mode → Bool → List Event → Type 0
Legal cap mode opened [] = Unit
Legal cap mode opened ((h, p) ∷ es) =
    IsLegal cap mode opened h p × Legal cap mode (if opens h then true else opened) es

-- Whether the connection is open behind a sequence of frames.
abbrev pub opened_after : Bool → List Event → Bool
opened_after opened [] = opened
opened_after opened ((h, p) ∷ es) = opened_after (if opens h then true else opened) es

-- The bytes received and not yet parsed, from a given cursor.
abbrev pub view : Conn → ℕ → List ℕ
view c cursor = drop cursor (take c.buf_len c.buf)

abbrev pub unread : Conn → List ℕ
unread c = view c c.buf_off

pub wire-append : (es fs : List Event) → wire (es ++ fs) ≡ wire es ++ wire fs
wire-append [] fs = refl
wire-append ((h, p) ∷ es) fs =
    ap (λ (x : List ℕ). header_bytes h ++ x)
      (ap (λ (x : List ℕ). p ++ x) (wire-append es fs) ∙ sym (append_assoc p (wire es) (wire fs)))
    ∙ sym (append_assoc (header_bytes h) (p ++ wire es) (wire fs))

pub opened_after-append :
    (o : Bool) (es fs : List Event)
    → opened_after o (es ++ fs) ≡ opened_after (opened_after o es) fs
opened_after-append o [] fs = refl
opened_after-append o ((h, p) ∷ es) fs = opened_after-append (if opens h then true else o) es fs

pub Legal-append :
    (cap : ℕ) (mode : Mode) (o : Bool) (es fs : List Event)
    → Legal cap mode o es
    → Legal cap mode (opened_after o es) fs
    → Legal cap mode o (es ++ fs)
Legal-append cap mode o [] fs l k = k
Legal-append cap mode o ((h, p) ∷ es) fs l k =
    (l.0, Legal-append cap mode (if opens h then true else o) es fs l.1 k)
