-- ===== src/Sessions/Deletion.antt =====
-- What `delete_session` of app/services/sessions.py leaves.
use me.Base.{
  ℕ, ◌≡◌, refl, Bool, true, false, ◌&&◌, none, some, List, [], ◌∷◌, arith, inl, inr, Bool-cases,
  Option-cases, is_some, any, find, ==_iff,
}
use me.Errors.{ok, err, session_not_found}
use me.Sessions.{Session, Message, Chats}
use me.Sessions.Table.{has_session_id, bury_session, bury_messages, is_live_in, dead_session}
use me.Sessions.Service.{get_session, delete_session, is_owned, is_owned_live}
use me.Sessions.Valid.{UniqueSessions, IsChats}

none_with_id :
    (user_id id : ℕ) (rows : List Session)
    → any (has_session_id id) rows ≡ false
    → find (is_owned_live user_id id) rows ≡ none
unfolding any find
none_with_id user_id id [] h = refl
none_with_id user_id id (r ∷ rows) h = ground (arith, none_with_id user_id id rows)

none_owned :
    (user_id id : ℕ) (rows : List Session)
    → any (has_session_id id) rows ≡ false
    → find (is_owned user_id id) rows ≡ none
unfolding any find
none_owned user_id id [] h = refl
none_owned user_id id (r ∷ rows) h = ground (arith, none_owned user_id id rows)

-- No later row has the id of this one.
no_more_ids :
    (r : Session) (id : ℕ) (rows : List Session)
    → has_session_id id r ≡ true
    → any (has_session_id r.id) rows ≡ false
    → any (has_session_id id) rows ≡ false
no_more_ids r id rows e h = rw (← (==_iff r.id id).0 e) h

-- The session is gone,
buried_hidden :
    (user_id id now : ℕ) (rows : List Session)
    → UniqueSessions rows
    → find (is_owned_live user_id id) (bury_session id now rows) ≡ none
unfolding bury_session find
buried_hidden user_id id now [] u = refl
buried_hidden user_id id now (r ∷ rows) u = elim (Bool-cases (has_session_id id r)) [
  | inl e ↦ let rest = none_with_id user_id id rows (no_more_ids r id rows e u.0) in ground arith
  | inr e ↦ let rest = buried_hidden user_id id now rows u.1 in ground arith
]

-- a deleted one is not found either,
dead_hidden :
    (user_id id : ℕ) (rows : List Session) (x : Session)
    → UniqueSessions rows
    → find (is_owned user_id id) rows ≡ some x
    → is_some x.deleted_at ≡ true
    → find (is_owned_live user_id id) rows ≡ none
unfolding find
dead_hidden user_id id [] x u h d = refl
dead_hidden user_id id (r ∷ rows) x u h d = elim (Bool-cases (has_session_id id r)) [
  | inl e ↦
      let rest = none_with_id user_id id rows (no_more_ids r id rows e u.0) in
      let owned = none_owned user_id id rows (no_more_ids r id rows e u.0) in ground arith
  | inr e ↦ let rest = dead_hidden user_id id rows x u.1 (ground arith) d in ground arith
]

-- and the row stays, as deleted.
buried_found :
    (user_id id now : ℕ) (rows : List Session) (x : Session)
    → UniqueSessions rows
    → find (is_owned user_id id) rows ≡ some x
    → (y : Session) × (find (is_owned user_id id) (bury_session id now rows) ≡ some y)
      × (is_some y.deleted_at ≡ true)
unfolding find bury_session
buried_found user_id id now [] x u h = absurd (ground arith)
buried_found user_id id now (r ∷ rows) x u h = elim (Bool-cases (has_session_id id r)) [
  | inl e ↦
      let owned = none_owned user_id id rows (no_more_ids r id rows e u.0) in
      (dead_session now r, ground arith, refl)
  | inr e ↦
      let (y, at, d) = buried_found user_id id now rows x u.1 (ground arith) in (y, ground arith, d)
]

no_live : (id now : ℕ) (ms : List Message) → any (is_live_in id) (bury_messages id now ms) ≡ false
unfolding any bury_messages
no_live id now [] = refl
no_live id now (m ∷ ms) = ground (arith, no_live id now ms)

and_false : (b : Bool) → (b && false) ≡ false
and_false true = refl
and_false false = refl

get_session-none :
    (user_id id : ℕ) (db : Chats)
    → find (is_owned_live user_id id) db.sessions ≡ none
    → get_session user_id id db ≡ err session_not_found
unfolding get_session
get_session-none user_id id db h = rw (h, get_session) refl

delete_session_again :
    (now user_id id : ℕ) (db : Chats) (y : Session)
    → find (is_owned user_id id) db.sessions ≡ some y
    → is_some y.deleted_at ≡ true
    → delete_session now user_id id db ≡ (ok tt, db)
unfolding delete_session
delete_session_again now user_id id db y h d = rw (h, delete_session) (rw d refl)

-- After a `delete_session` that returns, in well-formed tables, `get_session` does not find the
-- session, a second `delete_session` at any time returns and changes nothing, and if the session was
-- open before, none of its messages is live.
pub delete_session-hides :
    (now now' user_id id : ℕ) (db db' : Chats)
    → IsChats db
    → delete_session now user_id id db ≡ (ok tt, db')
    → (get_session user_id id db' ≡ err session_not_found)
      × (delete_session now' user_id id db' ≡ (ok tt, db'))
      × ((is_some (find (is_owned_live user_id id) db.sessions) && any (is_live_in id) db'.messages)
          ≡ false)
unfolding delete_session
delete_session-hides now now' user_id id db db' t h =
    elim (Option-cases (find (is_owned user_id id) db.sessions)) [
      | inl e ↦ absurd (ground arith)
      | inr (x, e) ↦ elim (Bool-cases (is_some x.deleted_at)) [
        | inl d ↦
            let same : db ≡ db' = ground arith in
            rw (← same) (
              get_session-none user_id id db
                  (dead_hidden user_id id db.sessions x t.unique_sessions e d),
              delete_session_again now' user_id id db x e d,
              rw (dead_hidden user_id id db.sessions x t.unique_sessions e d) refl,
            )
        | inr d ↦
            let (y, at, dead) = buried_found user_id id now db.sessions x t.unique_sessions e in
            let new : Chats = record {
              sessions = bury_session id now db.sessions;
              messages = bury_messages id now db.messages;
            } in
            let same : new ≡ db' = ground arith in
            rw (← same) (
              get_session-none user_id id new
                  (buried_hidden user_id id now db.sessions t.unique_sessions),
              delete_session_again now' user_id id new y at dead,
              rw (no_live id now db.messages)
                  (and_false (is_some (find (is_owned_live user_id id) db.sessions))),
            )
      ]
    ]
