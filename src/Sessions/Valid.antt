-- ===== src/Sessions/Valid.antt =====
-- Well-formed tables of sessions and messages.
pub mod Operations
pub mod Turns
use me.Base.{
  ℕ, ◌≡◌, refl, ◌∙◌, Bool, true, false, not, ◌&&◌, ◌||◌, Option, none, some, List, [], ◌∷◌, ◌==◌,
  arith, inl, inr, if◌then◌else◌, Text, is_none, Bool-cases, any, All,
}
use me.Sessions.{Session, Message, Chats}
use me.Sessions.Table.{
  has_session_id, has_message_id, replies_to, check_constraints, is_parent_there, index_violation,
  touched, dead_session, dead_message, touch_session, bury_session, bury_messages, is_live_in,
}

-- The session of a message, of the same user.
abbrev pub holds : (session_id user_id : ℕ) → Session → Bool
holds session_id user_id r = r.id == session_id && r.user_id == user_id

abbrev pub UniqueSessions : List Session → Type 0
UniqueSessions [] = Unit
UniqueSessions (r ∷ rows) = (any (has_session_id r.id) rows ≡ false) × UniqueSessions rows

abbrev pub UniqueMessages : List Message → Type 0
UniqueMessages [] = Unit
UniqueMessages (m ∷ ms) = (any (has_message_id m.id) ms ≡ false) × UniqueMessages ms

-- Two live rows with one parent.
abbrev pub same_reply : Message → Message → Bool
same_reply m x = is_none m.deleted_at && replies_to m.parent_message_id x

abbrev pub UniqueReplies : List Message → Type 0
UniqueReplies [] = Unit
UniqueReplies (m ∷ ms) = (any (same_reply m) ms ≡ false) × UniqueReplies ms

-- A row keeps the checks, belongs to the user of its session, and its parent is there.
pub record IsMessage (sessions : List Session) (messages : List Message) (m : Message)
    : Type 0 where
  pub checks : check_constraints m ≡ none
  pub owned : any (holds m.session_id m.user_id) sessions ≡ true
  pub parent : is_parent_there m.parent_message_id messages ≡ true

pub record IsChats (db : Chats) : Type 0 where
  pub unique_sessions : UniqueSessions db.sessions
  pub unique_messages : UniqueMessages db.messages
  pub unique_replies : UniqueReplies db.messages
  pub each_message : All (IsMessage db.sessions db.messages) db.messages

-- The statements on sessions keep what is said of ids and users.
pub any-touch_session :
    (p : Session → Bool) (id now : ℕ) (title : Option Text) (rows : List Session)
    → ((r : Session) → p (touched now title r) ≡ p r)
    → any p (touch_session id now title rows) ≡ any p rows
unfolding any touch_session
any-touch_session p id now title [] h = refl
any-touch_session p id now title (r ∷ rows) h =
    ground (arith, h r, any-touch_session p id now title rows h)

pub any-bury_session :
    (p : Session → Bool) (id now : ℕ) (rows : List Session)
    → ((r : Session) → p (dead_session now r) ≡ p r)
    → any p (bury_session id now rows) ≡ any p rows
unfolding any bury_session
any-bury_session p id now [] h = refl
any-bury_session p id now (r ∷ rows) h = ground (arith, h r, any-bury_session p id now rows h)

pub touch_session-Unique :
    (id now : ℕ) (title : Option Text) (rows : List Session)
    → UniqueSessions rows
    → UniqueSessions (touch_session id now title rows)
unfolding touch_session
touch_session-Unique id now title [] u = tt
touch_session-Unique id now title (r ∷ rows) u = elim (Bool-cases (has_session_id id r)) [
  | inl e ↦ rw e u
  | inr e ↦ rw e (
    any-touch_session (has_session_id r.id) id now title rows (λ x. refl) ∙ u.0,
    touch_session-Unique id now title rows u.1,
  )
]

pub bury_session-Unique :
    (id now : ℕ) (rows : List Session)
    → UniqueSessions rows
    → UniqueSessions (bury_session id now rows)
unfolding bury_session
bury_session-Unique id now [] u = tt
bury_session-Unique id now (r ∷ rows) u = elim (Bool-cases (has_session_id id r)) [
  | inl e ↦ rw e u
  | inr e ↦ rw e (
    any-bury_session (has_session_id r.id) id now rows (λ x. refl) ∙ u.0,
    bury_session-Unique id now rows u.1,
  )
]

-- The deletion of the messages of a session.
pub any-bury_messages :
    (p : Message → Bool) (id now : ℕ) (ms : List Message)
    → ((m : Message) → p (dead_message now m) ≡ p m)
    → any p (bury_messages id now ms) ≡ any p ms
unfolding any bury_messages
any-bury_messages p id now [] h = refl
any-bury_messages p id now (m ∷ ms) h = ground (arith, h m, any-bury_messages p id now ms h)

any-bury_messages_fewer :
    (p : Message → Bool) (id now : ℕ) (ms : List Message)
    → ((m : Message) → p (dead_message now m) ≡ false)
    → any p ms ≡ false
    → any p (bury_messages id now ms) ≡ false
unfolding any bury_messages
any-bury_messages_fewer p id now [] h k = refl
any-bury_messages_fewer p id now (m ∷ ms) h k =
    ground (arith, h m, any-bury_messages_fewer p id now ms h)

replies_to_dead :
    (parent : Option ℕ) (now : ℕ) (m : Message) → replies_to parent (dead_message now m) ≡ false
replies_to_dead none now m = refl
replies_to_dead (some p) now m = ground arith

bury_messages-UniqueMessages :
    (id now : ℕ) (ms : List Message) → UniqueMessages ms → UniqueMessages (bury_messages id now ms)
unfolding bury_messages
bury_messages-UniqueMessages id now [] u = tt
bury_messages-UniqueMessages id now (m ∷ ms) u = elim (Bool-cases (is_live_in id m)) [
  | inl e ↦ rw e (
    any-bury_messages (has_message_id m.id) id now ms (λ x. refl) ∙ u.0,
    bury_messages-UniqueMessages id now ms u.1,
  )
  | inr e ↦ rw e (
    any-bury_messages (has_message_id m.id) id now ms (λ x. refl) ∙ u.0,
    bury_messages-UniqueMessages id now ms u.1,
  )
]

none_of : {A : Type 0} (p : A → Bool) (xs : List A) → ((x : A) → p x ≡ false) → any p xs ≡ false
unfolding any
none_of p [] h = refl
none_of p (x ∷ xs) h = ground (arith, h x, none_of p xs h)

and_false : (b : Bool) → (b && false) ≡ false
and_false true = refl
and_false false = refl

pub bury_messages-UniqueReplies :
    (id now : ℕ) (ms : List Message) → UniqueReplies ms → UniqueReplies (bury_messages id now ms)
unfolding bury_messages
bury_messages-UniqueReplies id now [] u = tt
bury_messages-UniqueReplies id now (m ∷ ms) u = elim (Bool-cases (is_live_in id m)) [
  | inl e ↦ rw e (
    none_of (same_reply (dead_message now m)) (bury_messages id now ms) (λ x. refl),
    bury_messages-UniqueReplies id now ms u.1,
  )
  | inr e ↦ rw e (
    any-bury_messages_fewer (same_reply m) id now ms
        (λ x. rw (replies_to_dead m.parent_message_id now x) (and_false (is_none m.deleted_at)))
        u.0,
    bury_messages-UniqueReplies id now ms u.1,
  )
]

-- What a statement may do to the tables without harm to the other messages.
pub record Keeps (old new : Chats) : Type 0 where
  pub owners : (s u : ℕ) → any (holds s u) old.sessions ≡ true → any (holds s u) new.sessions ≡ true
  pub parents :
      (id : ℕ)
      → any (has_message_id id) old.messages ≡ true
      → any (has_message_id id) new.messages ≡ true
