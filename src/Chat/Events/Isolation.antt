-- ===== src/Chat/Events/Isolation.antt =====
-- Events of one project and the caches of the others, in web/src/chat/cache.ts.
use fusion_on_prem_server.Base.{
  ℕ, String, ◌≡◌, ◌≢◌, refl, sym, ◌∙◌, inl, inr, Bool-cases, Option-cases,
}
use fusion_on_prem_server.Base.Int.{ℤ}
use fusion_on_prem_server.Chat.Types.{
  ChatMessage, ChatMessageEvent, ChatChannelEvent, ChatEvent, message_created, message_updated,
  reaction_added, reaction_removed, message_deleted, channel_created, channel_updated,
  channel_archived, member_added, member_removed, channel_activity, read_updated, typing, unknown,
}
use fusion_on_prem_server.Chat.Query.{
  QueryClient, QueryKey, QueryData, chat_channels, chat_messages, chat_thread, chat_unreads, key_eq,
  key_eq-project, project_of, update_query, get-update_query_ne,
}
use fusion_on_prem_server.Chat.Cache.{
  Delta, up, down, thread_root?, upsert_message, bump_root_counters, upsert_channel, bump_unread,
  apply_unread, is_unlisted,
}
use fusion_on_prem_server.Chat.Events.{
  Chat, count_reply, message_into, channel_into, members_changed, apply_chat_event,
}

module _ (qc : QueryClient) (project : String) (j : QueryKey) (apart : project_of j ≢ project) where
  open qc use {Cache, get_query_data, invalidate_queries}

  -- The query `j` of another project reads the same in both caches.
  Keeps : Cache → Cache → Type 0
  Keeps c c' = get_query_data c' j ≡ get_query_data c j

  update-Keeps :
      (c : Cache) (k : QueryKey) (f : QueryData → QueryData)
      → project_of k ≡ project
      → Keeps c (update_query qc c k f)
  unfolding Keeps
  update-Keeps c k f own = elim (Bool-cases (key_eq k j)) [
    | inl same ↦ absurd (apart (sym (key_eq-project k j same) ∙ own))
    | inr ne ↦ get-update_query_ne qc c k j f ne
  ]

  upsert_message-Keeps :
      (c : Cache) (channel : String) (msg : ChatMessage)
      → Keeps c (upsert_message qc c project channel msg)
  unfolding upsert_message
  upsert_message-Keeps c channel msg = elim (Option-cases (thread_root? msg)) [
    | inl top ↦
        rw (top, upsert_message)
          (unfold Keeps in
            update-Keeps _ (chat_thread project channel msg.seq) _ refl
            ∙ update-Keeps c (chat_messages project channel) _ refl)
    | inr (root, reply) ↦
        rw (reply, upsert_message) (update-Keeps c (chat_thread project channel root) _ refl)
  ]

  count_reply-Keeps :
      (c : Cache) (ev : ChatMessageEvent) (delta : Delta)
      → Keeps c (count_reply qc c project ev delta)
  unfolding count_reply bump_root_counters
  count_reply-Keeps c ev delta = elim (Option-cases (thread_root? ev.message)) [
    | inl top ↦ rw (top, count_reply) (unfold Keeps in refl)
    | inr (root, reply) ↦
        rw (reply, count_reply) (update-Keeps c (chat_messages project ev.channel_id) _ refl)
  ]

  channel_into-Keeps : (c : Cache) (ev : ChatChannelEvent) → Keeps c (channel_into qc c project ev)
  unfolding Keeps channel_into upsert_channel
  channel_into-Keeps c ev =
      qc.get-invalidate _ (chat_unreads project) j ∙ update-Keeps c (chat_channels project) _ refl

  members_changed-Keeps : (c : Cache) → Keeps c (members_changed qc c project)
  unfolding Keeps members_changed
  members_changed-Keeps c =
      qc.get-invalidate _ (chat_unreads project) j ∙ qc.get-invalidate c (chat_channels project) j

  bump_unread-Keeps :
      (c : Cache) (channel : String) (seq : ℤ) → Keeps c (bump_unread qc c project channel seq)
  unfolding Keeps bump_unread
  bump_unread-Keeps c channel seq = elim (Option-cases (get_query_data c (chat_unreads project))) [
    | inl missing ↦ rw (missing, bump_unread)
    | inr (d, found) ↦ elim (Bool-cases (is_unlisted channel d)) [
      | inl new ↦ rw (found, new, bump_unread) (qc.get-invalidate c (chat_unreads project) j)
      | inr listed ↦ rw (found, listed, bump_unread) (update-Keeps c (chat_unreads project) _ refl)
    ]
  ]

  module _ (now : ℕ) where
    -- An event of one project leaves every query of another project as it was.
    pub apply_chat_event-other :
        (ev : ChatEvent) (s : Chat qc)
        → get_query_data (apply_chat_event qc now project ev s).cache j ≡ get_query_data s.cache j
    unfolding apply_chat_event Keeps message_into
    apply_chat_event-other (message_created ev) s =
        count_reply-Keeps _ ev up ∙ upsert_message-Keeps s.cache ev.channel_id ev.message
    apply_chat_event-other (message_updated ev) s =
        upsert_message-Keeps s.cache ev.channel_id ev.message
    apply_chat_event-other (reaction_added ev) s =
        upsert_message-Keeps s.cache ev.channel_id ev.message
    apply_chat_event-other (reaction_removed ev) s =
        upsert_message-Keeps s.cache ev.channel_id ev.message
    apply_chat_event-other (message_deleted ev) s =
        count_reply-Keeps _ ev down ∙ upsert_message-Keeps s.cache ev.channel_id ev.message
    apply_chat_event-other (channel_created ev) s = channel_into-Keeps s.cache ev
    apply_chat_event-other (channel_updated ev) s = channel_into-Keeps s.cache ev
    apply_chat_event-other (channel_archived ev) s = channel_into-Keeps s.cache ev
    apply_chat_event-other member_added s = members_changed-Keeps s.cache
    apply_chat_event-other member_removed s = members_changed-Keeps s.cache
    apply_chat_event-other (channel_activity ev) s =
        bump_unread-Keeps s.cache ev.channel_id ev.last_message_seq
    apply_chat_event-other (read_updated u) s =
        unfold apply_unread in update-Keeps s.cache (chat_unreads project) _ refl
    apply_chat_event-other (typing ev) s = refl
    apply_chat_event-other (unknown t) s = refl
