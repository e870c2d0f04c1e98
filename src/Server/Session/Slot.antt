-- ===== src/Server/Session/Slot.antt =====
-- A change of one session leaves it where it is found.
use msgsrvd.Prelude.{
  ℕ, zero, suc, ◌<◌, ◌≡◌, ap, ◌∙◌, inl, inr, some, List, [], ◌∷◌, arith, length, set, get_or, ◌==◌,
  Bool-cases, Option-cases,
}
use msgsrvd.Server.Session.{
  Session, Table, find_session, session_lookup, session_touch, update_at, no_session,
}
use msgsrvd.Server.Session.Memory.{get_or-set_self, length-set_here, find_session_id}

find_session-inside : (ss : List Session) (id i : ℕ) → find_session ss id ≡ some i → i < length ss
unfolding find_session
find_session-inside [] id i e = absurd (cc e)
find_session-inside (s ∷ ss) id i e = elim (Option-cases (find_session ss id)) [
  | inl missing ↦ ground arith
  | inr (j, found) ↦ let below : j < length ss = find_session-inside ss id j found in ground arith
]

find_session-set :
    (ss : List Session) (id i : ℕ) (v : Session)
    → find_session ss id ≡ some i
    → v.id ≡ id
    → find_session (set ss i v) id ≡ some i
unfolding find_session
find_session-set [] id i v e same = absurd (cc e)
find_session-set (s ∷ ss) id zero v e same = ground arith
find_session-set (s ∷ ss) id (suc i) v e same = elim (Option-cases (find_session ss id)) [
  | inl missing ↦ ground arith
  | inr (j, found) ↦ ground (arith, find_session-set ss id i v)
]

-- The session at `i` given a new mark and touched, as `handle_write` does.
abbrev pub marked : Table → ℕ → ℕ → Table
marked t i client_seq =
    session_touch (update_at t i (λ s. record s { last_client_seq = client_seq })) i

marked-found :
    (t : Table) (id i client_seq : ℕ)
    → find_session t.entries id ≡ some i
    → let es = (marked t i client_seq).entries in
      (find_session es id ≡ some i) × ((get_or es i no_session).last_client_seq ≡ client_seq)
unfolding session_touch
marked-found t id i client_seq e =
    let es = t.entries in
    let v : Session = record (get_or es i no_session) { last_client_seq = client_seq } in
    let es1 = set es i v in
    let inside = find_session-inside es id i e in
    let first : get_or es1 i no_session ≡ v = get_or-set_self es i v no_session inside in
    let v1 : Session = record (get_or es1 i no_session) { seen = t.next_seen } in
    let second : get_or (set es1 i v1) i no_session ≡ v1 =
      get_or-set_self es1 i v1 no_session (omega (arith, inside, length-set_here es i v)) in
    let same : (get_or es i no_session).id ≡ id = find_session_id es id i e in
    (
      find_session-set es1 id i v1 (find_session-set es id i v e same)
          (ap (λ (s : Session). s.id) first ∙ same),
      ap (λ (s : Session). s.last_client_seq) second
          ∙ ap (λ (s : Session). s.last_client_seq) first,
    )

-- A session that is marked is still found at its place, with the mark.
pub marked_lem :
    (t : Table) (id i client_seq : ℕ)
    → session_lookup t id ≡ some i
    → (session_lookup (marked t i client_seq) id ≡ some i)
      × ((get_or (marked t i client_seq).entries i no_session).last_client_seq ≡ client_seq)
unfolding session_lookup
marked_lem t id i client_seq e = elim (Bool-cases (id == 0)) [
  | inl none_given ↦ absurd (ground arith)
  | inr given ↦
      let (found, mark) = marked-found t id i client_seq (ground arith) in (ground arith, mark)
]
