-- ===== src/Sessions/Valid/Turns.antt =====
-- Recording the two halves of a turn keeps the tables well formed.
use me.Base.{ℕ, ◌≡◌, true, none, inl, inr, Bool-cases, Option-cases, any}
use me.Errors.{Result-cases}
use me.Helpers.{validate_location_pair}
use me.Stream.Turn.{AssistantRow}
use me.Sessions.{Session, Message, Chats}
use me.Sessions.Table.{has_message_id, check_constraints, index_violation}
use me.Sessions.Service.{
  UserMessage, user_row, autofilled, insert_user_message, record_user_message, assistant_row,
  record_assistant_message,
}
use me.Sessions.Valid.{holds, IsChats}
use me.Sessions.Valid.Operations.{inserted-IsChats}

insert_user_message-IsChats :
    (now : ℕ) (a : UserMessage) (session : Session) (db : Chats)
    → IsChats db
    → any (holds session.id a.user_id) db.sessions ≡ true
    → IsChats (insert_user_message now a session db).1
unfolding insert_user_message
insert_user_message-IsChats now a session db h own =
    let row : Message = user_row now a session in
    elim (Option-cases (check_constraints row)) [
      | inr (c, e) ↦ rw (e, insert_user_message) h
      | inl e ↦ elim (Bool-cases (any (has_message_id row.id) db.messages)) [
        | inl old ↦ rw (e, insert_user_message) (rw old h)
        | inr new ↦ elim (Option-cases (index_violation row db)) [
          | inr (c, v) ↦ rw (e, insert_user_message) (rw new (rw (v, insert_user_message) h))
          | inl v ↦
              rw (e, insert_user_message)
                (rw new (
                  rw (v, insert_user_message)
                    (inserted-IsChats now (autofilled session.title a.content) row db h e new v
                      own)))
        ]
      ]
    ]

pub record_user_message-IsChats :
    (now : ℕ) (a : UserMessage) (session : Session) (db : Chats)
    → IsChats db
    → any (holds session.id a.user_id) db.sessions ≡ true
    → IsChats (record_user_message now a session db).1
unfolding record_user_message
record_user_message-IsChats now a session db h own =
    elim (Result-cases (validate_location_pair a.location_lat a.location_lng)) [
      | inl (u, e) ↦
          rw (e, record_user_message) (insert_user_message-IsChats now a session db h own)
      | inr (x, e) ↦ rw (e, record_user_message) h
    ]

pub record_assistant_message-IsChats :
    (now user_id : ℕ) (a : AssistantRow) (session : Session) (db : Chats)
    → IsChats db
    → any (holds session.id user_id) db.sessions ≡ true
    → IsChats (record_assistant_message now user_id a session db).1
unfolding record_assistant_message
record_assistant_message-IsChats now user_id a session db h own =
    let row : Message = assistant_row now user_id a session in
    elim (Option-cases (check_constraints row)) [
      | inr (c, e) ↦ rw (e, record_assistant_message) h
      | inl e ↦ elim (Bool-cases (any (has_message_id row.id) db.messages)) [
        | inl old ↦ rw (e, record_assistant_message) (rw old h)
        | inr new ↦ elim (Option-cases (index_violation row db)) [
          | inr (c, v) ↦
              rw (e, record_assistant_message) (rw new (rw (v, record_assistant_message) h))
          | inl v ↦
              rw (e, record_assistant_message)
                (rw new (
                  rw (v, record_assistant_message)
                    (inserted-IsChats now none row db h e new v own)))
        ]
      ]
    ]
