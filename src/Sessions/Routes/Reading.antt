-- ===== src/Sessions/Routes/Reading.antt =====
-- What the routes of app/api/sessions.py show of the messages.
use mathlib.Core.List.{Mem, mem-cons_self, mem-cons_of_mem}
use me.Base.{
  ℕ, zero, suc, ◌+◌, ◌≡◌, refl, Bool, true, false, ◌&&◌, Option, some, List, [], ◌∷◌, ltb, length,
  arith, inl, inr, Text, All, any, find, select, map, take, Bool-cases, Option-cases,
}
use me.Errors.{Result, ok, err, Result-cases}
use me.Paging.{Key, insert_row, order_by, fetch, cut_page, get_page, is_past}
use me.Cursor.{Codec}
use me.Cursor.Session.{encode_session_cursor}
use me.Cursor.Client.{encode_page}
use me.Memory.Search.{clamp_limit}
use me.Sessions.{Session, Message, Chats}
use me.Sessions.Table.{has_session_id, is_live_in}
use me.Sessions.Service.{get_session, is_owned_live, message_key}
use me.Sessions.Pages.{list_session_messages, desc, before, decode_optional}
use me.Sessions.Valid.{holds, UniqueSessions, IsMessage, IsChats}
use me.Sessions.Routes.{
  MessageRead, message_read, PageResponse, responded, listed, unprocessable, messages_route,
}

module _ {A : Type 0} (P : A → Type 0) where
  All-take : (n : ℕ) (rows : List A) → All P rows → All P (take n rows)
  All-take zero rows h = tt
  All-take (suc n) [] h = tt
  All-take (suc n) (x ∷ rows) h = (h.0, All-take n rows h.1)

  All-insert_row :
      (key : A → Key) (b : Key → Key → Bool) (x : A) (rows : List A)
      → P x
      → All P rows
      → All P (insert_row key b x rows)
  unfolding insert_row
  All-insert_row key b x [] p h = (p, tt)
  All-insert_row key b x (y ∷ rows) p h = elim (Bool-cases (b (key x) (key y))) [
    | inl e ↦ rw e (p, h)
    | inr e ↦ rw e (h.0, All-insert_row key b x rows p h.1)
  ]

  All-order_by :
      (key : A → Key) (b : Key → Key → Bool) (rows : List A)
      → All P rows
      → All P (order_by key b rows)
  unfolding order_by
  All-order_by key b [] h = tt
  All-order_by key b (x ∷ rows) h =
      All-insert_row key b x (order_by key b rows) h.0 (All-order_by key b rows h.1)

  All-select :
      (Q : A → Type 0) (p : A → Bool) (rows : List A)
      → ((x : A) → Q x → p x ≡ true → P x)
      → All Q rows
      → All P (select p rows)
  unfolding select
  All-select Q p [] f h = tt
  All-select Q p (x ∷ rows) f h = elim (Bool-cases (p x)) [
    | inl e ↦ rw e (f x h.0 e, All-select Q p rows f h.1)
    | inr e ↦ rw e (All-select Q p rows f h.1)
  ]

  All-cut_page :
      (key : A → Key) (b : Key → Key → Bool) (limit : ℕ) (rows : List A)
      → All P rows
      → All P (cut_page key b limit rows).0
  unfolding cut_page
  All-cut_page key b limit rows h = elim (Bool-cases (ltb limit (length rows))) [
    | inl e ↦ rw e (All-take limit rows h)
    | inr e ↦ rw e h
  ]

  -- What holds of the rows that a query selects holds of the rows of its page.
  All-get_page :
      (Q : A → Type 0) (key : A → Key) (b : Key → Key → Bool) (p : A → Bool) (cursor : Option Key)
      (limit : ℕ) (rows : List A)
      → ((x : A) → Q x → p x ≡ true → P x)
      → All Q rows
      → All P (get_page key b p cursor limit rows).0
  unfolding get_page fetch
  All-get_page Q key b p cursor limit rows f h =
      let past : A → Bool = λ r. p r && is_past key b cursor r in
      All-cut_page key b limit _ (
        All-take (limit + 1) _ (
          All-order_by key b (select past rows)
            (All-select Q past rows (λ x q e. f x q (ground (arith))) h)))

-- A session has one user.
no_holder :
    (s u : ℕ) (rows : List Session)
    → any (has_session_id s) rows ≡ false
    → any (holds s u) rows ≡ false
unfolding any
no_holder s u [] h = refl
no_holder s u (r ∷ rows) h = let rest = no_holder s u rows in ground (arith, rest)

one_owner :
    (s u v : ℕ) (rows : List Session)
    → UniqueSessions rows
    → any (holds s u) rows ≡ true
    → any (holds s v) rows ≡ true
    → u ≡ v
unfolding any
one_owner s u v [] h a b = absurd (ground arith)
one_owner s u v (r ∷ rows) h a b = elim (Bool-cases (has_session_id s r)) [
  | inl e ↦
      let same : s ≡ r.id = ground arith in
      let alone : any (has_session_id s) rows ≡ false = rw same h.0 in
      let no_u = no_holder s u rows alone in let no_v = no_holder s v rows alone in ground arith
  | inr e ↦ one_owner s u v rows h.1 (ground arith) (ground arith)
]

session_holds :
    (user_id session_id : ℕ) (s : Session) (rows : List Session)
    → find (is_owned_live user_id session_id) rows ≡ some s
    → (any (holds session_id user_id) rows ≡ true) × (s.id ≡ session_id)
unfolding find any
session_holds user_id session_id s [] h = absurd (ground arith)
session_holds user_id session_id s (r ∷ rows) h =
    elim (Bool-cases (is_owned_live user_id session_id r)) [
      | inl e ↦ (ground arith, ground arith)
      | inr e ↦
          let rest = session_holds user_id session_id s rows (ground arith) in
          (ground arith, rest.1)
    ]

live_there :
    (session_id : ℕ) (m : Message) → is_live_in session_id m ≡ true → m.session_id ≡ session_id
live_there session_id m l = ground arith

-- A row that is shown: a stored message, live, of the session and of its user.
pub record Shown (db : Chats) (user_id session_id : ℕ) (m : Message) : Type 0 where
  pub stored : Mem m db.messages
  pub owner : m.user_id ≡ user_id
  pub live : is_live_in session_id m ≡ true

-- A stored message, well formed.
abbrev Stored : Chats → Message → Type 0
Stored db m = IsMessage db.sessions db.messages m × Mem m db.messages

module _ {A : Type 0} (P Q : A → Type 0) where
  All-both : (rows : List A) → All P rows → All Q rows → All (λ x. P x × Q x) rows
  All-both [] p q = tt
  All-both (x ∷ rows) p q = ((p.0, q.0), All-both rows p.1 q.1)

  All-weaken : ((x : A) → P x → Q x) → (rows : List A) → All P rows → All Q rows
  All-weaken f [] p = tt
  All-weaken f (x ∷ rows) p = (f x p.0, All-weaken f rows p.1)

-- Every row of a list is a member of it.
All-Mem : {A : Type 0} (rows : List A) → All (λ x. Mem x rows) rows
All-Mem [] = tt
All-Mem (x ∷ rows) = (
  mem-cons_self,
  All-weaken (λ y. Mem y rows) (λ y. Mem y (x ∷ rows)) (λ y i. mem-cons_of_mem x i) rows
      (All-Mem rows),
)

page-Shown :
    (c : Codec) (user_id session_id : ℕ) (cursor : Option Text) (limit : ℕ) (db : Chats)
    (page : List Message × Option Text)
    → IsChats db
    → any (holds session_id user_id) db.sessions ≡ true
    → list_session_messages c session_id cursor limit desc db ≡ ok page
    → All (Shown db user_id session_id) page.0
unfolding list_session_messages
page-Shown c user_id session_id cursor limit db page t own h =
    elim (Result-cases (decode_optional c cursor)) [
      | inr (e, bad) ↦ absurd (ground arith)
      | inl (key, good) ↦
          let rows =
            get_page message_key (before desc) (is_live_in session_id) key (clamp_limit limit)
              db.messages in
          let same : encode_page (encode_session_cursor c) rows ≡ page = ground arith in
          rw (← same) (
            All-get_page (Shown db user_id session_id) (Stored db) message_key (before desc)
              (is_live_in session_id) key (clamp_limit limit) db.messages
              (λ m i l. record {
                stored = i.1;
                owner =
                    one_owner session_id m.user_id user_id db.sessions t.unique_sessions
                      (rw (live_there session_id m l) at i.0.owned) own;
                live = l;
              })
              (All-both (IsMessage db.sessions db.messages) (λ m. Mem m db.messages) db.messages
                t.each_message (All-Mem db.messages)))
    ]

listed-responded :
    {A B : Type 0} (read : A → B) (r : Result (List A × Option Text)) (status : ℕ)
    (body : PageResponse B)
    → listed read r ≡ responded status body
    → (page : List A × Option Text) × (r ≡ ok page) × (body.items ≡ map read page.0)
unfolding listed unprocessable
listed-responded read (ok page) status body h = (page, refl, ground arith)
listed-responded read (err e) status body h = absurd (ground arith)

-- In well-formed tables, every message that the route of the messages of a session shows to a user is
-- one that is stored, live, in that session, and that user's.
pub messages_route-own :
    (c : Codec) (user_id session_id : ℕ) (cursor : Option Text) (limit : ℕ) (db : Chats)
    (status : ℕ) (body : PageResponse MessageRead)
    → IsChats db
    → messages_route c user_id session_id cursor limit db ≡ responded status body
    → (rows : List Message) × (body.items ≡ map message_read rows)
      × All (Shown db user_id session_id) rows
unfolding messages_route get_session
messages_route-own c user_id session_id cursor limit db status body t h =
    elim (Option-cases (find (is_owned_live user_id session_id) db.sessions)) [
      | inl e ↦ absurd (ground arith)
      | inr (s, e) ↦
          let k = session_holds user_id session_id s db.sessions e in
          let g : listed message_read (list_session_messages c s.id cursor limit desc db)
              ≡ responded status body =
            rw (e, messages_route) at h in
          let (page, there, shown) =
            listed-responded message_read (list_session_messages c s.id cursor limit desc db) status
              body g in
          (
            page.0,
            shown,
            page-Shown c user_id session_id cursor limit db page t k.0 (rw k.1 at there),
          )
    ]
