-- ===== src/Chat/Cache/Upsert.antt =====
-- `upsertIntoList` of web/src/chat/cache.ts: deliveries of one message.
use fusion_on_prem_server.Base.{
  ◌≡◌, Bool, true, false, inl, inr, List, [], ◌∷◌, ◌++◌, arith, ◌||◌, not, str_eq, eq_refl,
  Bool-cases, All, ◌⊎◌, ◌≢◌, ◌↔◌, max, eq_iff,
}
use fusion_on_prem_server.Base.Int.{ℤ, pos, ltb_ℤ, max_ℤ, eq_ℤ_refl, eq_ℤ_iff, ◌<ℤ◌}
use fusion_on_prem_server.Chat.Types.{ChatMessage, ChatMessageList}
use fusion_on_prem_server.Chat.Cache.{is_copy, merged, upsert_messages, upsert_into_list}

-- The server has numbered it, or its sender has.
abbrev pub has_identity : ChatMessage → Bool
has_identity msg = ltb_ℤ (pos 0) msg.seq || not (str_eq msg.client_msg_id "")

is_copy_self : (msg : ChatMessage) → has_identity msg ≡ true → is_copy msg msg ≡ true
is_copy_self msg h = ground (arith, eq_ℤ_refl msg.seq, eq_refl msg.client_msg_id)

merged-merged : (msg m : ChatMessage) → merged msg (merged msg m) ≡ merged msg m
merged-merged msg m = ground arith

merged_self : (msg : ChatMessage) → merged msg msg ≡ msg
merged_self msg = ground arith

upsert_messages_idem :
    (msg : ChatMessage) (ms : List ChatMessage)
    → has_identity msg ≡ true
    → upsert_messages msg (upsert_messages msg ms) ≡ upsert_messages msg ms
unfolding upsert_messages
upsert_messages_idem msg [] h = rw (is_copy_self msg h, merged_self msg)
upsert_messages_idem msg (m ∷ ms) h = elim (Bool-cases (is_copy msg m)) [
  | inl copy ↦ rw (copy, is_copy_self msg h, merged-merged msg m)
  | inr other ↦ rw (other, other, upsert_messages_idem msg ms h)
]

max_ℤ_idem : (a b : ℤ) → max_ℤ (max_ℤ a b) b ≡ max_ℤ a b
max_ℤ_idem a b = ground arith

-- Delivering a message a second time changes nothing.
pub upsert_into_list_idem :
    (msg : ChatMessage) (cur : ChatMessageList)
    → has_identity msg ≡ true
    → upsert_into_list msg (upsert_into_list msg cur) ≡ upsert_into_list msg cur
unfolding upsert_into_list
upsert_into_list_idem msg cur h =
    cc (upsert_messages_idem msg cur.messages h, max_ℤ_idem cur.latest_seq msg.seq)

-- Both are copies of one message: they have the number that the server gave it, or the name that its
-- sender gave it.
abbrev pub IsSame : ChatMessage → ChatMessage → Type 0
IsSame msg m =
    ((pos 0 <ℤ msg.seq) × (m.seq ≡ msg.seq))
    ⊎ ((msg.client_msg_id ≢ "") × (m.client_msg_id ≡ msg.client_msg_id))

is_copy_iff : (msg m : ChatMessage) → (is_copy msg m ≡ true) ↔ IsSame msg m
is_copy_iff msg m = ground (
  arith,
  eq_ℤ_iff m.seq msg.seq,
  eq_iff msg.client_msg_id "",
  eq_iff m.client_msg_id msg.client_msg_id,
)

other_copy : (msg m : ChatMessage) → is_copy msg m ≡ false → ¬ IsSame msg m
other_copy msg m h same = let copy = (is_copy_iff msg m).1 same in cc (h, copy)

-- The list before and after a delivery: the message is appended, or it takes the place of its first copy,
-- with the replies that were counted on either.
pub data IsUpsert (msg : ChatMessage) : List ChatMessage → List ChatMessage → Type 0 where
  appended :
      (ms : List ChatMessage) → All (λ m. ¬ IsSame msg m) ms → IsUpsert msg ms (ms ++ msg ∷ [])
  replaced :
      (before after : List ChatMessage) (old : ChatMessage)
      → All (λ m. ¬ IsSame msg m) before
      → IsSame msg old
      → IsUpsert msg
          (before ++ old ∷ after)
          (before ++ record msg { reply_count = max msg.reply_count old.reply_count } ∷ after)

IsUpsert-cons :
    {msg : ChatMessage} {ms ns : List ChatMessage} (m : ChatMessage)
    → ¬ IsSame msg m
    → IsUpsert msg ms ns
    → IsUpsert msg (m ∷ ms) (m ∷ ns)
IsUpsert-cons m other (appended ms h) = appended (m ∷ ms) (other, h)
IsUpsert-cons m other (replaced before after old h copy) =
    replaced (m ∷ before) after old (other, h) copy

-- A delivery takes the place of the first listed copy of the message, which has its number or its
-- sender's name for it, with the larger of the two reply counts, or is appended where there is no
-- copy; nothing else changes.
pub upsert_messages-IsUpsert :
    (msg : ChatMessage) (ms : List ChatMessage) → IsUpsert msg ms (upsert_messages msg ms)
unfolding upsert_messages
upsert_messages-IsUpsert msg [] = appended [] tt
upsert_messages-IsUpsert msg (m ∷ ms) = elim (Bool-cases (is_copy msg m)) [
  | inl copy ↦ rw copy (replaced [] ms m tt ((is_copy_iff msg m).0 copy))
  | inr other ↦
      rw other (IsUpsert-cons m (other_copy msg m other) (upsert_messages-IsUpsert msg ms))
]
