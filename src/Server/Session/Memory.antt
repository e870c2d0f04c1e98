-- ===== src/Server/Session/Memory.antt =====
-- What the table remembers of a session was in the log.
use msgsrvd.Prelude.{
  ℕ, zero, suc, ◌<◌, ◌≡◌, ◌⊎◌, inl, inr, refl, sym, ap, subst, some, List, [], ◌∷◌, ◌++◌, arith,
  length, set, get_or, ltb, leb, ◌==◌, All, All-append, Bool-cases, Option-cases,
}
use msgsrvd.Wal.Record.{Rec}
use msgsrvd.Server.Session.{
  Session, Table, session_table_init, no_session, find_session, session_lookup, slot_for_new,
  new_session, session_observe, observe_at, session_from_record, session_max, oldest_index,
  update_at,
}

All-set :
    (P : Session → Type 0) (xs : List Session) (i : ℕ) (v : Session)
    → All P xs
    → (i < length xs → P v)
    → All P (set xs i v)
All-set P [] i v h k = tt
All-set P (x ∷ xs) zero v h k = (k (omega arith), h.1)
All-set P (x ∷ xs) (suc i) v h k = (h.0, All-set P xs i v h.1 (λ e. k (omega arith)))

All-get_or :
    (P : Session → Type 0) (xs : List Session) (i : ℕ) (d : Session)
    → All P xs
    → P d
    → P (get_or xs i d)
All-get_or P [] i d h k = k
All-get_or P (x ∷ xs) zero d h k = h.0
All-get_or P (x ∷ xs) (suc i) d h k = All-get_or P xs i d h.1 k

pub find_session_id :
    (ss : List Session) (id i : ℕ) → find_session ss id ≡ some i → (get_or ss i no_session).id ≡ id
unfolding find_session
find_session_id [] id i h = absurd (cc h)
find_session_id (s ∷ ss) id zero h = ground arith
find_session_id (s ∷ ss) id (suc i) h = find_session_id ss id i (ground arith)

pub get_or-set_self :
    (xs : List Session) (i : ℕ) (v d : Session) → i < length xs → get_or (set xs i v) i d ≡ v
get_or-set_self [] i v d h = absurd (omega arith)
get_or-set_self (x ∷ xs) zero v d h = refl
get_or-set_self (x ∷ xs) (suc i) v d h = get_or-set_self xs i v d (omega arith)

pub length-set_here : (xs : List Session) (i : ℕ) (v : Session) → length (set xs i v) ≡ length xs
length-set_here [] i v = refl
length-set_here (x ∷ xs) zero v = refl
length-set_here (x ∷ xs) (suc i) v = ap suc (length-set_here xs i v)

-- A slot with nothing durable, in range or not.
get_or-set_zero :
    (xs : List Session) (i : ℕ) (v : Session)
    → v.last_client_seq ≡ 0
    → (get_or (set xs i v) i no_session).last_client_seq ≡ 0
get_or-set_zero [] i v h = refl
get_or-set_zero (x ∷ xs) zero v h = h
get_or-set_zero (x ∷ xs) (suc i) v h = get_or-set_zero xs i v h

get_or-append_zero :
    (xs : List Session) (v : Session)
    → v.last_client_seq ≡ 0
    → (get_or (xs ++ (v ∷ [])) (length xs) no_session).last_client_seq ≡ 0
get_or-append_zero [] v h = h
get_or-append_zero (x ∷ xs) v h = get_or-append_zero xs v h

-- Each entry holds nothing or a pair of a session and a sequence with `Q`.
module _ (Q : ℕ → ℕ → Type 0) where
  abbrev pub IsKnown : Session → Type 0
  IsKnown s = (s.last_client_seq ≡ 0) ⊎ Q s.id s.last_client_seq

  slot_for_new_lem :
      (t : Table)
      → All IsKnown t.entries
      → All IsKnown (slot_for_new t).0.entries
        × ((get_or (slot_for_new t).0.entries (slot_for_new t).1 no_session).last_client_seq ≡ 0)
  unfolding slot_for_new
  slot_for_new_lem t h = elim (Bool-cases (leb session_max (length t.entries))) [
    | inl full ↦
        let i = oldest_index t.entries in
        rw (slot_for_new, full)
          (All-set IsKnown t.entries i _ h (λ _. inl refl), get_or-set_zero t.entries i _ refl)
    | inr room ↦
        rw (slot_for_new, room)
          (All-append IsKnown t.entries _ h (inl refl, tt), get_or-append_zero t.entries _ refl)
  ]

  observe_at_lem :
      (t : Table) (i id client_seq : ℕ)
      → All IsKnown t.entries
      → (i < length t.entries → (get_or t.entries i no_session).id ≡ id)
      → Q id client_seq
      → All IsKnown (observe_at client_seq i t).entries
  observe_at_lem t i id client_seq h named q =
      let s = get_or t.entries i no_session in
      let known : IsKnown s = All-get_or IsKnown t.entries i no_session h (inl refl) in
      All-set IsKnown t.entries i _ h (λ inside.
        elim (Bool-cases (ltb s.last_client_seq client_seq)) [
          | inl up ↦ rw up (inr (subst (λ j. Q j client_seq) (sym (named inside)) q))
          | inr stays ↦ rw stays known
        ])

  session_observe_lem :
      (t : Table) (id client_seq : ℕ)
      → All IsKnown t.entries
      → Q id client_seq
      → All IsKnown (session_observe t id client_seq).entries
  unfolding session_observe session_lookup new_session
  session_observe_lem t id client_seq h q = elim (Bool-cases (id == 0)) [
    | inl z ↦ rw (session_observe, z) h
    | inr live ↦ elim (Option-cases (find_session t.entries id)) [
      | inr (i, found) ↦
          rw (session_observe, session_lookup, live, found)
            (observe_at_lem t i id client_seq h (λ _. find_session_id t.entries id i found) q)
      | inl missing ↦
          let (known, zero_last) = slot_for_new_lem t h in
          let t1 = (slot_for_new t).0 in
          let i = (slot_for_new t).1 in
          let s = record (get_or t1.entries i no_session) { id = id } in
          rw (session_observe, session_lookup, live, missing)
            (observe_at_lem (update_at t1 i (λ x. record x { id = id })) i id client_seq
              (All-set IsKnown t1.entries i s known (λ _. inl zero_last))
              (λ inside.
                ap (λ x. x.id)
                  (get_or-set_self t1.entries i s no_session
                    (omega (arith, length-set_here t1.entries i s))))
              q)
    ]
  ]

-- The table after a scan's records, in order.
pub observed : Table → List Rec → Table
observed t [] = t
observed t (r ∷ rs) = observed (session_from_record t r) rs

-- A record of this session with this sequence is among them.
abbrev pub InLog : List Rec → ℕ → ℕ → Type 0
InLog [] id client_seq = ⊥
InLog (r ∷ rs) id client_seq =
    ((r.session ≡ id) × (r.client_seq ≡ client_seq)) ⊎ InLog rs id client_seq

observed_lem :
    (Q : ℕ → ℕ → Type 0) (t : Table) (rs : List Rec)
    → All (IsKnown Q) t.entries
    → All (λ r. Q r.session r.client_seq) rs
    → All (IsKnown Q) (observed t rs).entries
unfolding observed session_from_record
observed_lem Q t [] h k = h
observed_lem Q t (r ∷ rs) h k =
    observed_lem Q (session_from_record t r) rs
      (session_observe_lem Q t r.session r.client_seq h k.0) k.1

All-InLog :
    (all rs : List Rec)
    → ((id client_seq : ℕ) → InLog rs id client_seq → InLog all id client_seq)
    → All (λ r. InLog all r.session r.client_seq) rs
All-InLog all [] within = tt
All-InLog all (r ∷ rs) within = (
  within r.session r.client_seq (inl (refl, refl)),
  All-InLog all rs (λ i c h. within i c (inr h)),
)

-- Whatever records the log holds and however many sessions are evicted on the way: a client sequence
-- that the table remembers for a session after the scan, and below which a resent write is taken for
-- a duplicate, is 0 or that of a record of that same session in the log.
pub observed-IsKnown :
    (rs : List Rec) → All (IsKnown (InLog rs)) (observed session_table_init rs).entries
unfolding session_table_init
observed-IsKnown rs =
    observed_lem (InLog rs) session_table_init rs tt (All-InLog rs rs (λ i c h. h))
