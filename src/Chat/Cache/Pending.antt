-- ===== src/Chat/Cache/Pending.antt =====
-- Optimistic sends in web/src/chat/cache.ts: the pending copy, its echo and its removal.
use fusion_on_prem_server.Base.{
  String, ◌≡◌, refl, Bool, false, List, [], ◌∷◌, ◌++◌, arith, not, str_eq, eq_refl, any, filter,
  max,
}
use fusion_on_prem_server.Base.Int.{ℤ, pos, eq_ℤ, ◌≤ℤ◌}
use fusion_on_prem_server.Chat.Types.{ChatMessage, ChatMessageList}
use fusion_on_prem_server.Chat.Cache.{upsert_messages, upsert_into_list, strip}

abbrev pub has_client_id : String → ChatMessage → Bool
has_client_id id m = str_eq m.client_msg_id id

abbrev pub has_seq : ℤ → ChatMessage → Bool
has_seq seq m = eq_ℤ m.seq seq

-- The pending copy of a message that the list does not hold yet.
pub record IsPending (p : ChatMessage) (ms : List ChatMessage) : Type 0 where
  pub unnumbered : p.seq ≤ℤ pos 0
  pub named : str_eq p.client_msg_id "" ≡ false
  pub fresh : any (has_client_id p.client_msg_id) ms ≡ false

-- The server's copy of it.
pub record IsEcho (p echo : ChatMessage) (ms : List ChatMessage) : Type 0 where
  pub same : echo.client_msg_id ≡ p.client_msg_id
  pub unseen : any (has_seq echo.seq) ms ≡ false

-- The server's copy, with the replies that were counted on either.
abbrev pub answered : ChatMessage → ChatMessage → ChatMessage
answered echo p = record {
  seq = echo.seq;
  thread_root = echo.thread_root;
  author_id = echo.author_id;
  author_name = echo.author_name;
  client_msg_id = echo.client_msg_id;
  body = echo.body;
  created_at = echo.created_at;
  edited_at = echo.edited_at;
  deleted = echo.deleted;
  reply_count = max echo.reply_count p.reply_count;
  last_reply_at = echo.last_reply_at;
  reactions = echo.reactions;
  pending = echo.pending;
}

upsert_pending :
    (p : ChatMessage) (ms : List ChatMessage) → IsPending p ms → upsert_messages p ms ≡ ms ++ p ∷ []
unfolding upsert_messages
upsert_pending p [] h = refl
upsert_pending p (m ∷ ms) h = ground (
  arith,
  upsert_pending p ms (record { unnumbered = h.unnumbered; named = h.named; fresh = ground arith }),
)

upsert_echo :
    (p echo : ChatMessage) (ms : List ChatMessage)
    → str_eq p.client_msg_id "" ≡ false
    → any (has_client_id p.client_msg_id) ms ≡ false
    → IsEcho p echo ms
    → upsert_messages echo (ms ++ p ∷ []) ≡ ms ++ answered echo p ∷ []
unfolding upsert_messages
upsert_echo p echo [] named fresh e =
    rw e.same (rw named (ground (arith, eq_refl p.client_msg_id, e.same)))
upsert_echo p echo (m ∷ ms) named fresh e = ground (
  arith,
  e.same,
  upsert_echo p echo ms named (ground arith) (record { same = e.same; unseen = ground arith }),
)

-- The server's copy of a message, under a number that is not listed, takes the place of the pending
-- copy that was put at the end of the list under a name that no listed message had, with the larger
-- of the two reply counts: the message is shown once, with what the server tells of it.
pub upsert_messages-echo :
    (p echo : ChatMessage) (ms : List ChatMessage)
    → IsPending p ms
    → IsEcho p echo ms
    → upsert_messages echo (upsert_messages p ms) ≡ ms ++ answered echo p ∷ []
upsert_messages-echo p echo ms h e =
    rw (upsert_pending p ms h) (upsert_echo p echo ms h.named h.fresh e)

filter_pending :
    (p : ChatMessage) (ms : List ChatMessage)
    → any (has_client_id p.client_msg_id) ms ≡ false
    → filter (λ m. not (has_client_id p.client_msg_id m)) (ms ++ p ∷ []) ≡ ms
filter_pending p [] h = rw (eq_refl p.client_msg_id)
filter_pending p (m ∷ ms) h = ground (arith, filter_pending p ms (ground arith))

-- A send that fails leaves the messages as they were before it.
pub strip-upsert_into_list :
    (p : ChatMessage) (cur : ChatMessageList)
    → IsPending p cur.messages
    → (strip p.client_msg_id (upsert_into_list p cur)).messages ≡ cur.messages
unfolding strip upsert_into_list
strip-upsert_into_list p cur h =
    rw (upsert_pending p cur.messages h) (filter_pending p cur.messages h.fresh)
