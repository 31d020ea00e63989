-- ===== src/Chat/Cache.antt =====
-- web/src/chat/cache.ts: the functions on cached lists, and those that write them to the cache. The
-- functions of the whole event are in Chat/Events.
pub mod Upsert
pub mod Pending
pub mod Counters
pub mod Unread
use Prim.Native.Nat.{Ordering}
use Prim.Native.String.{compare}
use fusion_on_prem_server.Base.{
  ℕ, zero, suc, ◌+◌, ◌-◌, String, Bool, true, false, not, ◌&&◌, ◌||◌, Option, none, some, List, [],
  ◌∷◌, ◌++◌, map, max, filter, any, if◌then◌else◌, str_eq,
}
use fusion_on_prem_server.Base.Int.{ℤ, pos, ltb_ℤ, leb_ℤ, eq_ℤ, max_ℤ}
use fusion_on_prem_server.Chat.Types.{
  ChatMessage, ChatMessageList, ChatChannel, ChatChannelList, ChatUnread, ChatUnreadList,
}
use fusion_on_prem_server.Chat.Query.{
  QueryClient, QueryData, channels, messages, unreads, chat_messages, chat_thread, chat_channels,
  chat_unreads, update_query,
}

-- `a >= b` and `a > b` on strings, for the ASCII times that the server sends.
abbrev pub str_ge : String → String → Bool
str_ge a b = elim (compare a b) [ Ordering.lt ↦ false | _ ↦ true ]

abbrev pub str_gt : String → String → Bool
str_gt a b = elim (compare a b) [ Ordering.gt ↦ true | _ ↦ false ]

-- `msg.threadRoot`, which is falsy where it is absent or 0.
abbrev pub thread_root? : ChatMessage → Option ℤ
thread_root? msg = elim msg.thread_root [
  | none ↦ none
  | some r ↦ if eq_ℤ r (pos 0) then none else some r
]

-- The test of `findIndex` in `upsertIntoList`.
abbrev pub is_copy : ChatMessage → ChatMessage → Bool
is_copy msg m =
    (ltb_ℤ (pos 0) msg.seq && eq_ℤ m.seq msg.seq)
    || (not (str_eq msg.client_msg_id "") && str_eq m.client_msg_id msg.client_msg_id)

abbrev pub merged : ChatMessage → ChatMessage → ChatMessage
merged msg old = record msg { reply_count = max msg.reply_count old.reply_count }

-- `findIndex` and the write at that index, else the append.
unfoldable pub upsert_messages : ChatMessage → List ChatMessage → List ChatMessage
upsert_messages msg [] = msg ∷ []
upsert_messages msg (m ∷ ms) =
    if is_copy msg m then merged msg m ∷ ms else m ∷ upsert_messages msg ms

unfoldable pub upsert_into_list : ChatMessage → ChatMessageList → ChatMessageList
upsert_into_list msg cur = record cur {
  messages = upsert_messages msg cur.messages;
  latest_seq = max_ℤ cur.latest_seq msg.seq;
}

-- The filter of `removePendingMessage`.
unfoldable pub strip : String → ChatMessageList → ChatMessageList
strip client_msg_id cur = record cur {
  messages = filter (λ m. not (str_eq m.client_msg_id client_msg_id)) cur.messages;
}

pub data Delta : Type 0 where
  up down : Delta

-- Math.max(0, n + delta)
abbrev pub bump : Delta → ℕ → ℕ
bump up n = n + 1
bump down n = n - 1

-- `m.lastReplyAt`, where "" is falsy.
abbrev pub last_reply? : ChatMessage → Option String
last_reply? m = elim m.last_reply_at [
  | none ↦ none
  | some at ↦ if str_eq at "" then none else some at
]

-- The timeline was fetched after the reply landed, so its count has it.
abbrev pub already_counted : Delta → ChatMessage → ChatMessage → Bool
already_counted down reply m = false
already_counted up reply m = elim (last_reply? m) [
  | none ↦ false
  | some at ↦ str_ge at reply.created_at
]

abbrev pub later_reply : Delta → ChatMessage → ChatMessage → Option String
later_reply down reply m = m.last_reply_at
later_reply up reply m = elim (last_reply? m) [
  | none ↦ some reply.created_at
  | some at ↦ if str_gt reply.created_at at then some reply.created_at else m.last_reply_at
]

abbrev pub is_root_of : ChatMessage → ChatMessage → Bool
is_root_of reply m = elim reply.thread_root [ none ↦ false | some r ↦ eq_ℤ m.seq r ]

unfoldable pub bump_root : Delta → ChatMessage → ChatMessage → ChatMessage
bump_root delta reply m =
    if not (is_root_of reply m) then m else if already_counted delta reply m then m else record m {
      reply_count = bump delta m.reply_count;
      last_reply_at = later_reply delta reply m;
    }

-- The updater of `applyUnread`.
abbrev pub unread_of : String → ChatUnread → Bool
unread_of channel_id e = str_eq e.channel_id channel_id

unfoldable pub put_unread : ChatUnread → List ChatUnread → List ChatUnread
put_unread u [] = u ∷ []
put_unread u (e ∷ es) =
    if unread_of u.channel_id e
    then (if ltb_ℤ u.last_read_seq e.last_read_seq then e ∷ es else u ∷ es)
    else e ∷ put_unread u es

-- The updater of `bumpUnread`, for a channel that is listed.
unfoldable pub count_unread : String → ℤ → List ChatUnread → List ChatUnread
count_unread channel_id seq [] = []
count_unread channel_id seq (e ∷ es) =
    if unread_of channel_id e
    then (if leb_ℤ seq e.latest_seq || leb_ℤ seq e.last_read_seq
        then e ∷ es
        else record e { latest_seq = seq; unread_count = e.unread_count + 1 } ∷ es)
    else e ∷ count_unread channel_id seq es

-- The updater of `upsertChannel`.
unfoldable pub put_channel : ChatChannel → List ChatChannel → List ChatChannel
put_channel channel cs =
    if any (λ c. str_eq c.id channel.id) cs
    then map (λ c. if str_eq c.id channel.id then channel else c) cs
    else cs ++ channel ∷ []

-- The casts of `setQueryData<T>`; a key holds its own kind of data only.
abbrev pub on_messages : (ChatMessageList → ChatMessageList) → QueryData → QueryData
on_messages f (messages l) = messages (f l)
on_messages f d = d

abbrev pub on_unreads : (List ChatUnread → List ChatUnread) → QueryData → QueryData
on_unreads f (unreads l) = unreads (record { unreads = f l.unreads })
on_unreads f d = d

abbrev pub on_channels : (List ChatChannel → List ChatChannel) → QueryData → QueryData
on_channels f (channels l) = channels (record l { channels = f l.channels })
on_channels f d = d

-- Whether `bumpUnread` meets a list without the channel, and so asks for a new one.
abbrev pub is_unlisted : String → QueryData → Bool
is_unlisted channel (unreads l) = not (any (unread_of channel) l.unreads)
is_unlisted channel d = false

module _ (qc : QueryClient) where
  open qc use {Cache, get_query_data, invalidate_queries, thread_roots}

  unfoldable pub upsert_message : Cache → String → String → ChatMessage → Cache
  upsert_message c project channel msg = elim (thread_root? msg) [
    | none ↦
        update_query qc
          (update_query qc c (chat_messages project channel) (on_messages (upsert_into_list msg)))
          (chat_thread project channel msg.seq) (on_messages (upsert_into_list msg))
    | some root ↦
        update_query qc c (chat_thread project channel root) (on_messages (upsert_into_list msg))
  ]

  unfoldable pub append_pending_message : Cache → String → String → ChatMessage → Cache
  append_pending_message c project channel msg = upsert_message c project channel msg

  unfoldable pub strip_threads : Cache → String → String → String → List ℤ → Cache
  strip_threads c project channel client_msg_id [] = c
  strip_threads c project channel client_msg_id (root ∷ roots) =
      strip_threads
        (update_query qc c (chat_thread project channel root) (on_messages (strip client_msg_id)))
        project channel client_msg_id roots

  unfoldable pub remove_pending_message : Cache → String → String → String → Cache
  remove_pending_message c project channel client_msg_id =
      let c' =
        update_query qc c (chat_messages project channel) (on_messages (strip client_msg_id)) in
      strip_threads c' project channel client_msg_id (thread_roots c' project channel)

  unfoldable pub bump_root_counters : Cache → String → String → ChatMessage → Delta → Cache
  bump_root_counters c project channel reply delta =
      update_query qc c (chat_messages project channel)
        (on_messages (λ l. record l { messages = map (bump_root delta reply) l.messages }))

  unfoldable pub apply_unread : Cache → String → ChatUnread → Cache
  apply_unread c project u = update_query qc c (chat_unreads project) (on_unreads (put_unread u))

  unfoldable pub bump_unread : Cache → String → String → ℤ → Cache
  bump_unread c project channel seq = elim (get_query_data c (chat_unreads project)) [
    | none ↦ c
    | some d ↦
        if is_unlisted channel d
        then invalidate_queries c (chat_unreads project)
        else update_query qc c (chat_unreads project) (on_unreads (count_unread channel seq))
  ]

  unfoldable pub upsert_channel : Cache → String → ChatChannel → Cache
  upsert_channel c project channel =
      update_query qc c (chat_channels project) (on_channels (put_channel channel))
