-- ===== src/Chat/Types.antt =====
-- web/src/chat/types.ts: what the server sends. Optional fields are options, a sequence number is an
-- integer (a pending message carries a negative one), and counts are natural numbers.
use fusion_on_prem_server.Base.{ℕ, String, Bool, Option, List}
use fusion_on_prem_server.Base.Int.{ℤ}

pub record ChatChannel : Type 0 where
  pub id : String
  pub name : String
  pub topic : String
  pub is_root : Bool
  pub is_private : Bool
  pub created_by : String
  pub created_at : String
  pub archived_at : Option String
  pub member_ids : Option (List String)

pub record ChatReaction : Type 0 where
  pub user_id : String
  pub emoji : String
  pub at : String

pub record ChatMessage : Type 0 where
  pub seq : ℤ
  pub thread_root : Option ℤ
  pub author_id : String
  pub author_name : String
  pub client_msg_id : String
  pub body : String
  pub created_at : String
  pub edited_at : Option String
  pub deleted : Bool
  pub reply_count : ℕ
  pub last_reply_at : Option String
  pub reactions : List ChatReaction
  pub pending : Option Bool

pub record ChatCaps : Type 0 where
  pub post : Bool
  pub create_channel : Bool
  pub moderate : Bool

pub record ChatUnread : Type 0 where
  pub channel_id : String
  pub last_read_seq : ℤ
  pub unread_count : ℕ
  pub latest_seq : ℤ

pub record ChatUnreadList : Type 0 where
  pub unreads : List ChatUnread

pub record ChatChannelList : Type 0 where
  pub channels : List ChatChannel
  pub capabilities : ChatCaps

pub record ChatMessageList : Type 0 where
  pub messages : List ChatMessage
  pub latest_seq : ℤ

pub record ChatMessageEvent : Type 0 where
  pub channel_id : String
  pub message : ChatMessage

pub record ChatChannelEvent : Type 0 where
  pub channel : ChatChannel

pub record ChatActivityEvent : Type 0 where
  pub channel_id : String
  pub last_message_seq : ℤ

pub record ChatTypingEvent : Type 0 where
  pub channel_id : String
  pub user_id : String
  pub name : String

-- `ChatEvent`: the type tag with the payload that `applyChatEvent` casts it to.
pub data ChatEvent : Type 0 where
  message_created : ChatMessageEvent → ChatEvent
  message_updated : ChatMessageEvent → ChatEvent
  reaction_added : ChatMessageEvent → ChatEvent
  reaction_removed : ChatMessageEvent → ChatEvent
  message_deleted : ChatMessageEvent → ChatEvent
  channel_created : ChatChannelEvent → ChatEvent
  channel_updated : ChatChannelEvent → ChatEvent
  channel_archived : ChatChannelEvent → ChatEvent
  member_added : ChatEvent
  member_removed : ChatEvent
  channel_activity : ChatActivityEvent → ChatEvent
  read_updated : ChatUnread → ChatEvent
  typing : ChatTypingEvent → ChatEvent
  unknown : String → ChatEvent
