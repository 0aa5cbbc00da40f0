-- ===== src/Sessions/Routes/Errors.antt =====
-- Which exceptions leave the routes of app/api/sessions.py.
use me.Base.{
  ℕ, ◌≡◌, refl, sym, ap, ◌∙◌, Bool, true, false, not, ◌&&◌, Option, none, some, List, [], ◌∷◌, inl,
  inr, Text, arith, find, any, is_some, Option-cases,
}
use me.Errors.{ok, ◌>>=◌}
use me.Paging.{Key}
use me.Cursor.{Codec}
use me.Cursor.Session.{is_too_deep, decode_session_cursor-Decoded}
use me.Sessions.{Chats}
use me.Sessions.Service.{get_session, delete_session, is_owned_live}
use me.Sessions.Pages.{decode_optional, list_sessions, list_session_messages}
use me.Sessions.Routes.{
  Handled, responded, http_exception, unhandled, listed, not_found, unprocessable, detail_route,
  messages_route, list_items_route, delete_route, session_read, message_read,
}

-- The client gets a response, or the status of an `HTTPException`.
abbrev pub is_handled : {Body : Type 0} → Handled Body → Bool
is_handled (responded status body) = true
is_handled (http_exception status) = true
is_handled (unhandled e) = false

-- Whether a cursor is sent, and the JSON in it nests too deeply for `json.loads`.
abbrev pub cursor_too_deep : Codec → Option Text → Bool
cursor_too_deep c none = false
cursor_too_deep c (some cursor) = is_too_deep c cursor

any-find : {A : Type 0} (p : A → Bool) (xs : List A) → is_some (find p xs) ≡ any p xs
unfolding any find
any-find p [] = refl
any-find p (x ∷ xs) = ground (arith, any-find p xs)

listed-handled :
    {A B : Type 0} (read : A → B) (c : Codec) (cursor : Option Text)
    (page : Option Key → List A × Option Text)
    → is_handled (listed read (decode_optional c cursor >>= λ key. ok (page key)))
      ≡ not (cursor_too_deep c cursor)
unfolding listed unprocessable decode_optional
listed-handled read c none page = refl
listed-handled read c (some cursor) page = elim (decode_session_cursor-Decoded c cursor) [
  | inl (k, e, d) ↦ rw (e, d) refl
  | inr (inl (e, d)) ↦ rw (e, d) refl
  | inr (inr (e, d)) ↦ rw (e, d) refl
]

-- Exactly one exception of the services leaves the routes that list, show and delete sessions and list
-- messages: the `RecursionError` of a cursor whose JSON nests too deeply, of the list of sessions, and
-- of the list of messages if the session is the user's and live. In every other case the client gets a
-- response or an `HTTPException`.
pub routes-handled :
    (c : Codec) (now user_id session_id limit : ℕ) (cursor : Option Text) (db : Chats)
    → (is_handled (list_items_route c user_id cursor limit db) ≡ not (cursor_too_deep c cursor))
      × (is_handled (detail_route user_id session_id db) ≡ true)
      × (is_handled (messages_route c user_id session_id cursor limit db)
          ≡ not (any (is_owned_live user_id session_id) db.sessions && cursor_too_deep c cursor))
      × (is_handled (delete_route now user_id session_id db).0 ≡ true)
unfolding list_items_route detail_route messages_route delete_route not_found get_session
    delete_session list_sessions list_session_messages
routes-handled c now user_id session_id limit cursor db =
    let there = any-find (is_owned_live user_id session_id) db.sessions in
    (
      listed-handled session_read c cursor _,
      ground arith,
      elim (Option-cases (find (is_owned_live user_id session_id) db.sessions)) [
        | inl e ↦ rw (e, messages_route) (rw (sym there ∙ ap is_some e) refl)
        | inr (s, e) ↦
            rw (e, messages_route)
              (rw (sym there ∙ ap is_some e) (listed-handled message_read c cursor _))
      ],
      ground arith,
    )
