-- ===== src/Chat/Events/Timeline.antt =====
-- What a message's arrival does to the lists on screen, in web/src/chat/cache.ts.
use fusion_on_prem_server.Base.{ℕ, String, ◌≡◌, refl, ap, ◌∙◌, none, some, map, map_option}
use fusion_on_prem_server.Base.Int.{ℤ}
use fusion_on_prem_server.Chat.Types.{
  ChatMessage, ChatMessageList, ChatMessageEvent, message_created,
}
use fusion_on_prem_server.Chat.Query.{
  QueryClient, chat_messages, chat_thread, update_query, get-update_query_ne, get-update_query_self,
}
use fusion_on_prem_server.Chat.Cache.{
  up, thread_root?, upsert_message, bump_root, bump_root_counters, upsert_into_list, on_messages,
}
use fusion_on_prem_server.Chat.Events.{Chat, count_reply, message_into, apply_chat_event}

-- The timeline with the counters of a reply's root.
abbrev pub counted : ChatMessage → ChatMessageList → ChatMessageList
counted reply l = record l { messages = map (bump_root up reply) l.messages }

module _ (qc : QueryClient) (project channel : String) (c : qc.Cache) (msg : ChatMessage) where
  upsert_message-top :
      thread_root? msg ≡ none
      → upsert_message qc c project channel msg
        ≡ update_query qc
            (update_query qc c (chat_messages project channel) (on_messages (upsert_into_list msg)))
            (chat_thread project channel msg.seq)
            (on_messages (upsert_into_list msg))
  unfolding upsert_message
  upsert_message-top top = rw (top, upsert_message)

  upsert_message-reply :
      {root : ℤ}
      → thread_root? msg ≡ some root
      → upsert_message qc c project channel msg
        ≡ update_query qc c (chat_thread project channel root) (on_messages (upsert_into_list msg))
  unfolding upsert_message
  upsert_message-reply reply = rw (reply, upsert_message)

module _ (qc : QueryClient) (now : ℕ) (project : String) (ev : ChatMessageEvent) (s : Chat qc) where
  open qc use {Cache, get_query_data}

  -- A new top-level message enters the channel's timeline, if it is cached, and no counter moves.
  pub created_top :
      thread_root? ev.message ≡ none
      → get_query_data
          (apply_chat_event qc now project (message_created ev) s).cache
          (chat_messages project ev.channel_id)
        ≡ map_option
            (on_messages (upsert_into_list ev.message))
            (get_query_data s.cache (chat_messages project ev.channel_id))
  unfolding apply_chat_event message_into count_reply
  created_top top =
      rw (top, count_reply, upsert_message-top qc project ev.channel_id s.cache ev.message top)
        (get-update_query_ne qc _ (chat_thread project ev.channel_id ev.message.seq)
            (chat_messages project ev.channel_id) _ refl
          ∙ get-update_query_self qc s.cache (chat_messages project ev.channel_id) _)

  -- A new reply enters the thread of its root, if that is cached, and in the timeline nothing but
  -- the root's counters changes.
  pub created_reply :
      {root : ℤ}
      → thread_root? ev.message ≡ some root
      → (get_query_data
            (apply_chat_event qc now project (message_created ev) s).cache
            (chat_thread project ev.channel_id root)
          ≡ map_option
              (on_messages (upsert_into_list ev.message))
              (get_query_data s.cache (chat_thread project ev.channel_id root)))
        × (get_query_data
              (apply_chat_event qc now project (message_created ev) s).cache
              (chat_messages project ev.channel_id)
            ≡ map_option
                (on_messages (counted ev.message))
                (get_query_data s.cache (chat_messages project ev.channel_id)))
  unfolding apply_chat_event message_into count_reply bump_root_counters
  created_reply {root} reply =
      rw
        (reply, count_reply, upsert_message-reply qc project ev.channel_id s.cache ev.message reply)
        (
          get-update_query_ne qc _ (chat_messages project ev.channel_id)
                (chat_thread project ev.channel_id root) _ refl
              ∙ get-update_query_self qc s.cache (chat_thread project ev.channel_id root) _,
          get-update_query_self qc _ (chat_messages project ev.channel_id) _
              ∙ ap (map_option (on_messages (counted ev.message))) (
                  get-update_query_ne qc s.cache (chat_thread project ev.channel_id root)
                    (chat_messages project ev.channel_id) _ refl),
        )
