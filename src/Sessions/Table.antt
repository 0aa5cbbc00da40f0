-- ===== src/Sessions/Table.antt =====
-- The tables `sessions` and `messages` under the statements of app/services/sessions.py: their
-- constraints in app/models/message.py, and the statements that change rows.
use me.Base.{
  ℕ, Bool, true, false, not, ◌&&◌, Option, none, some, List, [], ◌∷◌, ◌==◌, if◌then◌else◌, Text,
  is_none, is_some, any,
}
use me.Errors.{
  Constraint, ux_messages_parent, ck_messages_events_assistant_only,
  ck_messages_assistant_has_parent, ck_messages_location_pair_set, fk_session, fk_parent_message,
}
use me.Sessions.{Session, Message, Role, user, assistant, Chats}

abbrev pub has_session_id : ℕ → Session → Bool
has_session_id id r = r.id == id

abbrev pub has_message_id : ℕ → Message → Bool
has_message_id id m = m.id == id

abbrev pub is_user : Role → Bool
is_user user = true
is_user assistant = false

-- `Message.parent_message_id == parent, Message.deleted_at.is_(None)`
abbrev pub replies_to : Option ℕ → Message → Bool
replies_to none m = false
replies_to (some parent) m =
    elim m.parent_message_id [ none ↦ false | some p ↦ p == parent ] && is_none m.deleted_at

-- The check constraints, by name.
unfoldable pub check_constraints : Message → Option Constraint
check_constraints m =
    if is_user m.role && is_some m.events
    then some ck_messages_events_assistant_only
    else if not (is_user m.role) && is_none m.parent_message_id
    then some ck_messages_assistant_has_parent
    else if is_some m.location_lat && is_none m.location_lng
    then some ck_messages_location_pair_set
    else if is_none m.location_lat && is_some m.location_lng
    then some ck_messages_location_pair_set
    else none

-- A row that the foreign key refers to is there.
abbrev pub is_parent_there : Option ℕ → List Message → Bool
is_parent_there none ms = true
is_parent_there (some parent) ms = any (has_message_id parent) ms

-- The constraint that the INSERT of a live row violates after the check of its primary key, if any:
-- `ux_messages_parent`, then the foreign keys.
unfoldable pub index_violation : Message → Chats → Option Constraint
index_violation m db =
    if any (replies_to m.parent_message_id) db.messages
    then some ux_messages_parent
    else if not (any (has_session_id m.session_id) db.sessions)
    then some fk_session
    else if not (is_parent_there m.parent_message_id db.messages)
    then some fk_parent_message
    else none

-- `session.last_message_at = now`, and the title if it is given: an UPDATE of the row by its id.
abbrev pub touched : ℕ → Option Text → Session → Session
touched now title r = record r {
  last_message_at = now;
  title = if is_none title then r.title else title;
}

unfoldable pub touch_session :
    (session_id now : ℕ) → (title : Option Text) → List Session → List Session
touch_session id now title [] = []
touch_session id now title (r ∷ rows) =
    if has_session_id id r then touched now title r ∷ rows else r ∷ touch_session id now title rows

-- `row.deleted_at = now` of a session.
abbrev pub dead_session : ℕ → Session → Session
dead_session now r = record r { deleted_at = some now }

unfoldable pub bury_session : (session_id now : ℕ) → List Session → List Session
bury_session id now [] = []
bury_session id now (r ∷ rows) =
    if has_session_id id r then dead_session now r ∷ rows else r ∷ bury_session id now rows

-- `Message.session_id == session_id, Message.deleted_at.is_(None)`
abbrev pub is_live_in : ℕ → Message → Bool
is_live_in session_id m = m.session_id == session_id && is_none m.deleted_at

abbrev pub dead_message : ℕ → Message → Message
dead_message now m = record m { deleted_at = some now }

-- `update(Message).where(…).values(deleted_at=now)`
unfoldable pub bury_messages : (session_id now : ℕ) → List Message → List Message
bury_messages id now [] = []
bury_messages id now (m ∷ ms) =
    (if is_live_in id m then dead_message now m else m) ∷ bury_messages id now ms
