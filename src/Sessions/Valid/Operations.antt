-- ===== src/Sessions/Valid/Operations.antt =====
-- Every operation of app/services/sessions.py keeps the tables well formed.
use me.Base.{
  ℕ, ◌≡◌, refl, ◌∙◌, Bool, true, false, Option, none, some, List, [], ◌∷◌, arith, inl, inr, Text,
  Bool-cases, Option-cases, any, All, find, is_some,
}
use me.Sessions.{Message, Chats}
use me.Sessions.Table.{
  has_session_id, has_message_id, replies_to, check_constraints, is_parent_there, index_violation,
  dead_message, touch_session, bury_session, bury_messages, is_live_in,
}
use me.Sessions.Service.{create_session, delete_session, is_owned}
use me.Sessions.Valid.{
  holds, same_reply, IsMessage, IsChats, Keeps, any-touch_session, any-bury_session,
  touch_session-Unique, bury_session-Unique, any-bury_messages, bury_messages-UniqueMessages,
  bury_messages-UniqueReplies,
}

dead_checks :
    (now : ℕ) (m : Message)
    → check_constraints m ≡ none
    → check_constraints (dead_message now m) ≡ none
unfolding check_constraints
dead_checks now m h = h

parent_kept :
    (parent : Option ℕ) (old new : Chats)
    → Keeps old new
    → is_parent_there parent old.messages ≡ true
    → is_parent_there parent new.messages ≡ true
parent_kept none old new k h = refl
parent_kept (some p) old new k h = k.parents p h

IsMessage-kept :
    (old new : Chats) (m : Message)
    → Keeps old new
    → IsMessage old.sessions old.messages m
    → IsMessage new.sessions new.messages m
IsMessage-kept old new m k h = record {
  checks = h.checks;
  owned = k.owners m.session_id m.user_id h.owned;
  parent = parent_kept m.parent_message_id old new k h.parent;
}

each_kept :
    (old new : Chats) (ms : List Message)
    → Keeps old new
    → All (IsMessage old.sessions old.messages) ms
    → All (IsMessage new.sessions new.messages) ms
each_kept old new [] k h = tt
each_kept old new (m ∷ ms) k h = (IsMessage-kept old new m k h.0, each_kept old new ms k h.1)

any-cons :
    {A : Type 0} (p : A → Bool) (x : A) (xs : List A) → any p xs ≡ true → any p (x ∷ xs) ≡ true
unfolding any
any-cons p x xs h = ground arith

-- What `index_violation` rules out.
record Admitted (m : Message) (db : Chats) : Type 0 where
  reply : any (replies_to m.parent_message_id) db.messages ≡ false
  parent : is_parent_there m.parent_message_id db.messages ≡ true

admitted : (m : Message) (db : Chats) → index_violation m db ≡ none → Admitted m db
unfolding index_violation
admitted m db h = record { reply = ground arith; parent = ground arith }

same_reply_none :
    (m : Message) (ms : List Message)
    → any (replies_to m.parent_message_id) ms ≡ false
    → any (same_reply m) ms ≡ false
unfolding any
same_reply_none m [] h = refl
same_reply_none m (x ∷ ms) h = ground (arith, same_reply_none m ms)

parent_cons :
    (parent : Option ℕ) (m : Message) (ms : List Message)
    → is_parent_there parent ms ≡ true
    → is_parent_there parent (m ∷ ms) ≡ true
parent_cons none m ms h = refl
parent_cons (some p) m ms h = any-cons (has_message_id p) m ms h

-- `INSERT` of a message beside a change of its session.
pub inserted-IsChats :
    (now : ℕ) (title : Option Text) (m : Message) (db : Chats)
    → IsChats db
    → check_constraints m ≡ none
    → any (has_message_id m.id) db.messages ≡ false
    → index_violation m db ≡ none
    → any (holds m.session_id m.user_id) db.sessions ≡ true
    → IsChats (record {
      sessions = touch_session m.session_id now title db.sessions;
      messages = m ∷ db.messages;
    })
inserted-IsChats now title m db h c fresh v own =
    let new : Chats = record {
      sessions = touch_session m.session_id now title db.sessions;
      messages = m ∷ db.messages;
    } in
    let k : Keeps db new = record {
      owners =
          λ s u e. any-touch_session (holds s u) m.session_id now title db.sessions (λ r. refl) ∙ e;
      parents = λ id e. any-cons (has_message_id id) m db.messages e;
    } in
    let a = admitted m db v in
    record {
      unique_sessions = touch_session-Unique m.session_id now title db.sessions h.unique_sessions;
      unique_messages = (fresh, h.unique_messages);
      unique_replies = (same_reply_none m db.messages a.reply, h.unique_replies);
      each_message = (
        record {
          checks = c;
          owned = k.owners m.session_id m.user_id own;
          parent = parent_cons m.parent_message_id m db.messages a.parent;
        },
        each_kept db new db.messages k h.each_message,
      );
    }

pub create_session-IsChats :
    (now new_id user_id : ℕ) (title : Option Text) (db : Chats)
    → IsChats db
    → IsChats (create_session now new_id user_id title db).1
unfolding create_session
create_session-IsChats now new_id user_id title db h =
    elim (Bool-cases (any (has_session_id new_id) db.sessions)) [
      | inl e ↦ rw e h
      | inr e ↦
          let k : Keeps db (create_session now new_id user_id title db).1 = rw e (record {
            owners = λ s u g. any-cons (holds s u) _ db.sessions g;
            parents = λ id g. g;
          }) in
          rw e (record {
            unique_sessions = (e, h.unique_sessions);
            unique_messages = h.unique_messages;
            unique_replies = h.unique_replies;
            each_message = each_kept db _ db.messages (rw e at k) h.each_message;
          })
    ]

bury-each :
    (id now : ℕ) (db new : Chats) (ms : List Message)
    → Keeps db new
    → All (IsMessage db.sessions db.messages) ms
    → All (IsMessage new.sessions new.messages) (bury_messages id now ms)
unfolding bury_messages
bury-each id now db new [] k h = tt
bury-each id now db new (m ∷ ms) k h =
    let kept = IsMessage-kept db new m k h.0 in
    elim (Bool-cases (is_live_in id m)) [
      | inl e ↦ rw e (
        record { checks = dead_checks now m kept.checks; owned = kept.owned; parent = kept.parent },
        bury-each id now db new ms k h.1,
      )
      | inr e ↦ rw e (kept, bury-each id now db new ms k h.1)
    ]

buried-IsChats :
    (now id : ℕ) (db : Chats)
    → IsChats db
    → IsChats (record {
      sessions = bury_session id now db.sessions;
      messages = bury_messages id now db.messages;
    })
buried-IsChats now id db h =
    let new : Chats = record {
      sessions = bury_session id now db.sessions;
      messages = bury_messages id now db.messages;
    } in
    let k : Keeps db new = record {
      owners = λ s u e. any-bury_session (holds s u) id now db.sessions (λ r. refl) ∙ e;
      parents = λ i e. any-bury_messages (has_message_id i) id now db.messages (λ m. refl) ∙ e;
    } in
    record {
      unique_sessions = bury_session-Unique id now db.sessions h.unique_sessions;
      unique_messages = bury_messages-UniqueMessages id now db.messages h.unique_messages;
      unique_replies = bury_messages-UniqueReplies id now db.messages h.unique_replies;
      each_message = bury-each id now db new db.messages k h.each_message;
    }

pub delete_session-IsChats :
    (now user_id session_id : ℕ) (db : Chats)
    → IsChats db
    → IsChats (delete_session now user_id session_id db).1
unfolding delete_session
delete_session-IsChats now user_id session_id db h =
    elim (Option-cases (find (is_owned user_id session_id) db.sessions)) [
      | inl e ↦ rw (e, delete_session) h
      | inr (row, e) ↦ elim (Bool-cases (is_some row.deleted_at)) [
        | inl d ↦ rw (e, delete_session) (rw d h)
        | inr d ↦ rw (e, delete_session) (rw d (buried-IsChats now session_id db h))
      ]
    ]
