-- ===== src/Chat/Tests.antt =====
-- Runs of the modelled code of web/src/chat, and each theorem at an input of its own.
use fusion_on_prem_server.Base.{
  ◌≡◌, refl, true, false, Option, none, some, [], ◌∷◌, ◌++◌, arith, if◌then◌else◌, eq_iff, All, inl,
}
use fusion_on_prem_server.Base.Dict.{lookup}
use fusion_on_prem_server.Base.Int.{pos, negsuc, eq_ℤ_iff}
use fusion_on_prem_server.Chat.Types.{
  ChatMessage, ChatMessageList, ChatMessageEvent, ChatUnread, ChatTypingEvent, message_created,
}
use fusion_on_prem_server.Chat.Query.{
  QueryClient, QueryKey, QueryData, messages, chat_messages, key_eq,
}
use fusion_on_prem_server.Chat.Cache.{
  Delta, up, down, upsert_messages, upsert_into_list, strip, bump_root, put_unread, count_unread,
}
use fusion_on_prem_server.Chat.Cache.Upsert.{upsert_messages-IsUpsert, IsUpsert}
use fusion_on_prem_server.Chat.Cache.Pending.{
  IsPending, answered, upsert_messages-echo, strip-upsert_into_list,
}
use fusion_on_prem_server.Chat.Cache.Counters.{bump_root_once}
use fusion_on_prem_server.Chat.Cache.Unread.{cursor, Rises, put_unread-Rises, count_unread_idem}
use fusion_on_prem_server.Chat.Typing.{users, key, compute, note_typing, clear_typing}
use fusion_on_prem_server.Chat.Typing.Expiry.{IsTyping, compute-IsTyping, lookup-clear_typing}
use fusion_on_prem_server.Chat.Events.{Chat, apply_chat_event}
use fusion_on_prem_server.Chat.Events.Isolation.{apply_chat_event-other}

abbrev hello : ChatMessage
hello = record {
  seq = negsuc 0;
  thread_root = none;
  author_id = "u1";
  author_name = "Ada";
  client_msg_id = "x1";
  body = "hello";
  created_at = "2026-01-01T10:00:00Z";
  edited_at = none;
  deleted = false;
  reply_count = 0;
  last_reply_at = none;
  reactions = [];
  pending = some true;
}

abbrev echo : ChatMessage
echo = record hello { seq = pos 7; pending = none }

abbrev reply : ChatMessage
reply = record hello { seq = pos 9; thread_root = some (pos 7); client_msg_id = "x2" }

abbrev empty_list : ChatMessageList
empty_list = record { messages = []; latest_seq = pos 0 }

echo_run : upsert_messages echo (upsert_messages hello []) ≡ echo ∷ []
unfolding upsert_messages
echo_run = refl

upsert_messages-IsUpsert_example : IsUpsert echo (hello ∷ []) (upsert_messages echo (hello ∷ []))
upsert_messages-IsUpsert_example = upsert_messages-IsUpsert echo (hello ∷ [])

hello-IsPending : IsPending hello []
hello-IsPending = record { unnumbered = omega arith; named = refl; fresh = refl }

upsert_messages-echo_example :
    upsert_messages echo (upsert_messages hello []) ≡ [] ++ answered echo hello ∷ []
upsert_messages-echo_example =
    upsert_messages-echo hello echo [] hello-IsPending (record { same = refl; unseen = refl })

strip-upsert_into_list_example : (strip "x1" (upsert_into_list hello empty_list)).messages ≡ []
strip-upsert_into_list_example = strip-upsert_into_list hello empty_list hello-IsPending

bump_root_once_example :
    ((bump_root up reply echo).reply_count ≡ 1)
    × ((bump_root up reply echo).last_reply_at ≡ some "2026-01-01T10:00:00Z")
    × (bump_root up reply (bump_root up reply echo) ≡ bump_root up reply echo)
    × ((bump_root down reply (bump_root up reply echo)).reply_count ≡ 0)
    × ((delta : Delta) → bump_root delta reply hello ≡ hello)
bump_root_once_example =
    bump_root_once reply echo hello refl (λ e. cc ((eq_iff "2026-01-01T10:00:00Z" "").1 e))
      (inl refl) (λ e. cc ((eq_ℤ_iff (negsuc 0) (pos 7)).1 e))

abbrev summary : ChatUnread
summary = record { channel_id = "c"; last_read_seq = pos 5; unread_count = 0; latest_seq = pos 5 }

put_unread-Rises_example :
    Rises
      (cursor "c" (summary ∷ []))
      (cursor "c" (put_unread (record summary { last_read_seq = pos 3 }) (summary ∷ [])))
put_unread-Rises_example =
    put_unread-Rises (record summary { last_read_seq = pos 3 }) (summary ∷ []) "c"

count_unread_idem_example :
    count_unread "c" (pos 8) (count_unread "c" (pos 8) (summary ∷ []))
    ≡ count_unread "c" (pos 8) (summary ∷ [])
count_unread_idem_example = count_unread_idem "c" (pos 8) (summary ∷ [])

abbrev ping : ChatTypingEvent
ping = record { channel_id = "c"; user_id = "u2"; name = "" }

compute-IsTyping_example :
    All
      (IsTyping 50 "u1" (users (note_typing 10 "p" ping []) (key "p" "c")))
      (compute 50 (key "p" "c") "u1" (note_typing 10 "p" ping [])).1
compute-IsTyping_example = compute-IsTyping 50 (key "p" "c") "u1" (note_typing 10 "p" ping [])

lookup-clear_typing_example :
    lookup "u2" (users (clear_typing "p" "c" "u2" (note_typing 10 "p" ping [])) (key "p" "c"))
    ≡ none
lookup-clear_typing_example =
    lookup-clear_typing "p" "c" "u2" (note_typing 10 "p" ping []) (λ e. cc)

-- A cache as a function of the key.
abbrev plain : QueryClient
plain = record {
  Cache = QueryKey → Option QueryData;
  get_query_data = λ c k. c k;
  put_query_data = λ c k d j. if key_eq k j then some d else c j;
  invalidate_queries = λ c k. c;
  thread_roots = λ c p ch. pos 7 ∷ [];
  get-put = λ c k j d. refl;
  get-invalidate = λ c k j. refl;
}

abbrev started : Chat plain
started = record { cache = λ k. some (messages empty_list); typing = [] }

abbrev arrival : ChatMessageEvent
arrival = record { channel_id = "c"; message = echo }

apply_chat_event-other_example :
    (apply_chat_event plain 0 "p" (message_created arrival) started).cache (chat_messages "q" "c")
    ≡ some (messages empty_list)
apply_chat_event-other_example =
    apply_chat_event-other plain "p" (chat_messages "q" "c") (λ e. cc ((eq_iff "q" "p").1 e)) 0
      (message_created arrival) started
