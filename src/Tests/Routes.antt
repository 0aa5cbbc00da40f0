-- ===== src/Tests/Routes.antt =====
-- The theorems on the routes at concrete inputs.
use me.Base.{
  ◌≡◌, refl, true, not, ◌&&◌, any, Option, some, Text, none, List, [], ◌∷◌, map, All, find, select,
}
use me.Sessions.{Message}
use me.Sessions.Service.{get_session, is_owned_live}
use me.Sessions.Pages.{list_session_messages}
use me.Paging.{get_page, cut_page, fetch, order_by, insert_row, newest_first}
use me.Memory.Search.{clamp_limit}
use me.Sessions.Routes.{
  MessageRead, message_read, PageResponse, responded, list_items_route, detail_route,
  messages_route, delete_route,
}
use me.Sessions.Routes.Reading.{Shown, messages_route-own}
use me.Sessions.Routes.Errors.{is_handled, cursor_too_deep, routes-handled}
use me.Tests.Json.{codec}
use me.Tests.Chats.{question, reply, one_turn, one_turn-IsChats}

abbrev two_messages : PageResponse MessageRead
two_messages = record {
  items = message_read reply ∷ message_read question ∷ [];
  next_cursor = none;
}

shows_both : messages_route codec 3 1 none 20 one_turn ≡ responded 200 two_messages
unfolding messages_route get_session find list_session_messages get_page cut_page clamp_limit fetch
    order_by select insert_row newest_first
shows_both = refl

messages_route-own_example :
    (rows : List Message) × (two_messages.items ≡ map message_read rows)
    × All (Shown one_turn 3 1) rows
messages_route-own_example =
    messages_route-own codec 3 1 none 20 one_turn 200 two_messages one_turn-IsChats shows_both

-- A cursor without bytes, which `loads` of the codec takes for JSON that nests too deeply.
abbrev deep : Option Text
deep = some []

routes-handled_example :
    (is_handled (list_items_route codec 3 deep 20 one_turn) ≡ not (cursor_too_deep codec deep))
    × (is_handled (detail_route 3 1 one_turn) ≡ true)
    × (is_handled (messages_route codec 3 1 deep 20 one_turn)
        ≡ not (any (is_owned_live 3 1) one_turn.sessions && cursor_too_deep codec deep))
    × (is_handled (delete_route 2000 3 1 one_turn).0 ≡ true)
routes-handled_example = routes-handled codec 2000 3 1 20 deep one_turn
