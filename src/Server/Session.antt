-- ===== src/Server/Session.antt =====
-- src/server/session.h and session.c: what the server remembers of its clients' sessions.
pub mod Memory
pub mod Slot
pub mod Examples
use msgsrvd.Prelude.{
  ℕ, zero, suc, ◌+◌, Bool, true, false, ◌||◌, ◌&&◌, Option, none, some, List, [], ◌∷◌, ◌++◌, length,
  take, set, get_or, ltb, leb, ◌==◌, if◌then◌else◌, u64,
}
use msgsrvd.Wal.Record.{Rec}

abbrev pub session_max : ℕ
session_max = 1024

pub record Session : Type 0 where
  pub id : ℕ
  pub last_client_seq : ℕ
  pub seen : ℕ

-- The first `count` entries.
pub record Table : Type 0 where
  pub entries : List Session
  pub next_seen : ℕ
  pub evicted : ℕ

unfoldable pub session_table_init : Table
session_table_init = record { entries = []; next_seen = 1; evicted = 0 }

-- A slot that was never used reads as zeros.
abbrev pub no_session : Session
no_session = record { id = 0; last_client_seq = 0; seen = 0 }

pub find_session : List Session → ℕ → Option ℕ
find_session [] id = none
find_session (s ∷ ss) id =
    if s.id == id then some 0 else elim (find_session ss id) [ none ↦ none | some i ↦ some (suc i) ]

-- The position of the session with this id.
pub session_lookup : Table → ℕ → Option ℕ
unfolding find_session
session_lookup t id = if id == 0 then none else find_session t.entries id

-- The loop of `oldest_index` at position `i`, with the least so far and its age.
pub oldest_walk : List Session → ℕ → ℕ → ℕ → ℕ
oldest_walk [] i lowest age = lowest
oldest_walk (s ∷ ss) i lowest age =
    if ltb s.seen age then oldest_walk ss (suc i) i s.seen else oldest_walk ss (suc i) lowest age

pub oldest_index : List Session → ℕ
unfolding oldest_walk
oldest_index [] = 0
oldest_index (s ∷ ss) = oldest_walk ss 1 0 s.seen

-- The table with the slot, and the slot's position.
pub slot_for_new : Table → Table × ℕ
unfolding oldest_index
slot_for_new t =
    if leb session_max (length t.entries)
    then (
      record t {
        entries =
            set t.entries (oldest_index t.entries)
              (record (get_or t.entries (oldest_index t.entries) no_session) {
                last_client_seq = 0;
                seen = t.next_seen;
              });
        next_seen = u64 (t.next_seen + 1);
        evicted = u64 (t.evicted + 1);
      },
      oldest_index t.entries,
    )
    else (
      record t {
        entries = t.entries ++ (record no_session { seen = t.next_seen } ∷ []);
        next_seen = u64 (t.next_seen + 1);
      },
      length t.entries,
    )

abbrev pub update_at : Table → ℕ → (Session → Session) → Table
update_at t i f = record t { entries = set t.entries i (f (get_or t.entries i no_session)) }

-- A slot for a new session, under its id.
unfoldable pub new_session : Table → ℕ → Table × ℕ
unfolding slot_for_new
new_session t id = let (t1, i) = slot_for_new t in (update_at t1 i (λ s. record s { id = id }), i)

-- The first of the draws, eight at most, that is no session's.
pub pick_id : Table → List ℕ → Option ℕ
unfolding session_lookup
pick_id t [] = none
pick_id t (candidate ∷ draws) =
    let rest = pick_id t draws in
    if candidate == 0
    then rest
    else elim (session_lookup t candidate) [ none ↦ some candidate | some i ↦ rest ]

-- The numbers that `os_random_u64` answers are an argument.
unfoldable pub session_create : Table → List ℕ → Table × Option ℕ
unfolding pick_id
session_create t draws = elim (pick_id t (take 8 draws)) [
  | none ↦ (t, none)
  | some id ↦ let (t1, i) = new_session t id in (t1, some i)
]

-- The end of `session_observe`, for the session at `i`.
abbrev pub observe_at : ℕ → ℕ → Table → Table
observe_at client_seq i t = record t {
  entries =
      let s = get_or t.entries i no_session in
      set t.entries i (record s {
        last_client_seq =
            if ltb s.last_client_seq client_seq then client_seq else s.last_client_seq;
        seen = t.next_seen;
      });
  next_seen = u64 (t.next_seen + 1);
}

pub session_observe : Table → ℕ → ℕ → Table
unfolding session_lookup
session_observe t id client_seq = if id == 0 then t else elim (session_lookup t id) [
  | some i ↦ observe_at client_seq i t
  | none ↦ let (t1, i) = new_session t id in observe_at client_seq i t1
]

unfoldable pub session_touch : Table → ℕ → Table
session_touch t i = record (update_at t i (λ s. record s { seen = t.next_seen })) {
  next_seen = u64 (t.next_seen + 1);
}

unfoldable pub session_from_record : Table → Rec → Table
session_from_record t r = session_observe t r.session r.client_seq
