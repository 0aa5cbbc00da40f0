-- ===== src/Sessions/Recent.antt =====
-- `load_recent_history` of app/services/sessions.py gives the latest messages, in order.
use mathlib.Core.List.{Perm, reverse, reverse-append, reverse_perm}
use mathlib.Core.List.Perm
use me.Base.{
  ℕ, ◌*◌, ◌≤◌, ◌≡◌, refl, sym, ap, ◌∙◌, true, List, [], ◌∷◌, ◌++◌, map, arith, length,
  length-append, select, take, drop, take-append-drop, length-take-le, ◌⊎◌, inl, inr, zero, suc,
}
use me.Paging.{Key, newest_first, oldest_first, order_by}
use me.Paging.Order.{AllAfter, Sorted, Comparable-select, Sorted-order_by, newest_first-IsStrict}
use me.Paging.Walk.{order_by-perm}
use me.Sessions.{Message, Chats}
use me.Sessions.Service.{message_key, is_recent, recent_rows, turn_of, load_recent_history}
use me.Sessions.Pages.{desc}
use me.Sessions.Valid.{IsChats}
use me.Sessions.Complete.{UniqueMessages-Comparable}

turned : (a b : Key) → newest_first a b ≡ oldest_first b a
unfolding newest_first oldest_first
turned a b = ground arith

-- One more row at the end.
AllAfter-snoc :
    (k : Key) (rows : List Message) (y : Message)
    → AllAfter message_key oldest_first k rows
    → oldest_first k (message_key y) ≡ true
    → AllAfter message_key oldest_first k (rows ++ y ∷ [])
AllAfter-snoc k [] y h e = (e, tt)
AllAfter-snoc k (x ∷ rows) y h e = (h.0, AllAfter-snoc k rows y h.1 e)

-- Every row comes before the key.
abbrev AllBefore : Key → List Message → Type 0
AllBefore k [] = Unit
AllBefore k (x ∷ rows) = (oldest_first (message_key x) k ≡ true) × AllBefore k rows

AllBefore-snoc :
    (k : Key) (rows : List Message) (y : Message)
    → AllBefore k rows
    → oldest_first (message_key y) k ≡ true
    → AllBefore k (rows ++ y ∷ [])
AllBefore-snoc k [] y h e = (e, tt)
AllBefore-snoc k (x ∷ rows) y h e = (h.0, AllBefore-snoc k rows y h.1 e)

Sorted-snoc :
    (rows : List Message) (y : Message)
    → Sorted message_key oldest_first rows
    → AllBefore (message_key y) rows
    → Sorted message_key oldest_first (rows ++ y ∷ [])
Sorted-snoc [] y s h = (tt, tt)
Sorted-snoc (x ∷ rows) y s h =
    (AllAfter-snoc (message_key x) rows y s.0 h.0, Sorted-snoc rows y s.1 h.1)

reverse-AllBefore :
    (k : Key) (rows : List Message)
    → AllAfter message_key newest_first k rows
    → AllBefore k (reverse rows)
reverse-AllBefore k [] h = tt
reverse-AllBefore k (x ∷ rows) h = rw (reverse-append (x ∷ []) rows) (
    AllBefore-snoc k (reverse rows) x (reverse-AllBefore k rows h.1)
      (sym (turned k (message_key x)) ∙ h.0))

Sorted-reverse :
    (rows : List Message)
    → Sorted message_key newest_first rows
    → Sorted message_key oldest_first (reverse rows)
Sorted-reverse [] s = tt
Sorted-reverse (x ∷ rows) s = rw (reverse-append (x ∷ []) rows) (
    Sorted-snoc (reverse rows) x (Sorted-reverse rows s.1)
      (reverse-AllBefore (message_key x) rows s.0))

length-reverse : (rows : List Message) → length (reverse rows) ≡ length rows
length-reverse [] = refl
length-reverse (x ∷ rows) =
    ap length (reverse-append (x ∷ []) rows)
    ∙ omega (arith, length-append (reverse rows) (x ∷ []), length-reverse rows)

take_full : (n : ℕ) (rows : List Message) → (drop n rows ≡ []) ⊎ (length (take n rows) ≡ n)
take_full zero rows = inr refl
take_full (suc n) [] = inl refl
take_full (suc n) (x ∷ rows) = elim (take_full n rows) [ inl e ↦ inl e | inr e ↦ inr (ap suc e) ]

latest_full :
    (n : ℕ) (rows : List Message)
    → (reverse (drop n rows) ≡ []) ⊎ (length (reverse (take n rows)) ≡ n)
latest_full n rows = elim (take_full n rows) [
  | inl e ↦ inl (ap reverse e)
  | inr e ↦ inr (length-reverse (take n rows) ∙ e)
]

-- In well-formed tables, the history is the end of the session's live messages, without the excluded
-- one, in chronological order: with the older messages in front it is all of them, sorted. At most
-- two rows come for each pair, and exactly so many unless there are no older ones.
pub load_recent_history-latest :
    (session_id exclude limit_pairs : ℕ) (db : Chats)
    → IsChats db
    → (older recent : List Message) × (load_recent_history session_id exclude limit_pairs db
        ≡ map turn_of recent)
      × (length recent ≤ 2 * limit_pairs)
      × ((older ≡ []) ⊎ (length recent ≡ 2 * limit_pairs))
      × Sorted message_key oldest_first (older ++ recent)
      × Perm (older ++ recent) (select (is_recent session_id exclude) db.messages)
unfolding load_recent_history recent_rows
load_recent_history-latest session_id exclude limit_pairs db t =
    let n = 2 * limit_pairs in
    let wanted = select (is_recent session_id exclude) db.messages in
    let rows = order_by message_key newest_first wanted in
    let whole : reverse (drop n rows) ++ reverse (take n rows) ≡ reverse rows =
      sym (reverse-append (take n rows) (drop n rows)) ∙ ap reverse (take-append-drop n rows) in
    let sorted = Sorted-order_by message_key newest_first newest_first-IsStrict wanted (
      Comparable-select message_key newest_first (is_recent session_id exclude) db.messages
        (UniqueMessages-Comparable desc db.messages t.unique_messages)) in
    (
      reverse (drop n rows),
      reverse (take n rows),
      refl,
      omega (arith, length-reverse (take n rows), length-take-le n rows),
      latest_full n rows,
      rw whole (Sorted-reverse rows sorted),
      rw whole (
          Perm.trans (reverse_perm rows)
            (order_by-perm message_key newest_first newest_first-IsStrict wanted)),
    )
