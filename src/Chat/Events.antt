-- ===== src/Chat/Events.antt =====
-- `applyChatEvent` of web/src/chat/cache.ts: the whole fold of one server event.
pub mod Isolation
pub mod Timeline
use fusion_on_prem_server.Base.{ℕ, String, Option, none, some}
use fusion_on_prem_server.Chat.Types.{
  ChatEvent, message_created, message_updated, reaction_added, reaction_removed, message_deleted,
  channel_created, channel_updated, channel_archived, member_added, member_removed,
  channel_activity, read_updated, typing, unknown, ChatMessageEvent, ChatChannelEvent,
}
use fusion_on_prem_server.Chat.Query.{QueryClient, chat_channels, chat_unreads}
use fusion_on_prem_server.Chat.Cache.{
  Delta, up, down, thread_root?, upsert_message, bump_root_counters, upsert_channel, bump_unread,
  apply_unread,
}
use fusion_on_prem_server.Chat.Typing.{Typing, note_typing, clear_typing}

module _ (qc : QueryClient) where
  open qc use {Cache, invalidate_queries}

  -- The query cache, and the map of typing.ts.
  pub record Chat : Type 0 where
    pub cache : Cache
    pub typing : Typing

  -- `if (message.threadRoot) bumpRootCounters(…)`
  unfoldable pub count_reply : Cache → String → ChatMessageEvent → Delta → Cache
  count_reply c project ev delta = elim (thread_root? ev.message) [
    | none ↦ c
    | some root ↦ bump_root_counters qc c project ev.channel_id ev.message delta
  ]

  unfoldable pub message_into : Cache → String → ChatMessageEvent → Cache
  message_into c project ev = upsert_message qc c project ev.channel_id ev.message

  unfoldable pub channel_into : Cache → String → ChatChannelEvent → Cache
  channel_into c project ev =
      invalidate_queries (upsert_channel qc c project ev.channel) (chat_unreads project)

  unfoldable pub members_changed : Cache → String → Cache
  members_changed c project =
      invalidate_queries (invalidate_queries c (chat_channels project)) (chat_unreads project)

  unfoldable pub apply_chat_event : ℕ → String → ChatEvent → Chat → Chat
  apply_chat_event now project (message_created ev) s = record {
    cache = count_reply (message_into s.cache project ev) project ev up;
    typing = clear_typing project ev.channel_id ev.message.author_id s.typing;
  }
  apply_chat_event now project (message_updated ev) s = record s {
    cache = message_into s.cache project ev;
  }
  apply_chat_event now project (reaction_added ev) s = record s {
    cache = message_into s.cache project ev;
  }
  apply_chat_event now project (reaction_removed ev) s = record s {
    cache = message_into s.cache project ev;
  }
  apply_chat_event now project (message_deleted ev) s = record s {
    cache = count_reply (message_into s.cache project ev) project ev down;
  }
  apply_chat_event now project (channel_created ev) s = record s {
    cache = channel_into s.cache project ev;
  }
  apply_chat_event now project (channel_updated ev) s = record s {
    cache = channel_into s.cache project ev;
  }
  apply_chat_event now project (channel_archived ev) s = record s {
    cache = channel_into s.cache project ev;
  }
  apply_chat_event now project member_added s = record s { cache = members_changed s.cache project }
  apply_chat_event now project member_removed s = record s {
    cache = members_changed s.cache project;
  }
  apply_chat_event now project (channel_activity ev) s = record s {
    cache = bump_unread qc s.cache project ev.channel_id ev.last_message_seq;
  }
  apply_chat_event now project (read_updated u) s = record s {
    cache = apply_unread qc s.cache project u;
  }
  apply_chat_event now project (typing ev) s = record s {
    typing = note_typing now project ev s.typing;
  }
  apply_chat_event now project (unknown t) s = s
