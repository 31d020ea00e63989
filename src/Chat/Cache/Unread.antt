-- ===== src/Chat/Cache/Unread.antt =====
-- `applyUnread` and `bumpUnread` of web/src/chat/cache.ts: cursors and badges.
use fusion_on_prem_server.Base.{
  String, ◌≡◌, refl, Option, none, some, List, [], ◌∷◌, arith, eq_iff, eq_refl, find,
}
use fusion_on_prem_server.Base.Int.{ℤ, ◌≤ℤ◌}
use fusion_on_prem_server.Chat.Types.{ChatUnread}
use fusion_on_prem_server.Chat.Cache.{unread_of, put_unread, count_unread}

-- The cursor of a channel, if the channel is listed.
abbrev pub cursor : String → List ChatUnread → Option ℤ
cursor k es = elim (find (unread_of k) es) [ none ↦ none | some e ↦ some e.last_read_seq ]

abbrev pub Rises : Option ℤ → Option ℤ → Type 0
Rises none _ = Unit
Rises (some a) none = ⊥
Rises (some a) (some b) = a ≤ℤ b

Rises-refl : (o : Option ℤ) → Rises o o
Rises-refl none = tt
Rises-refl (some a) = omega arith

-- No summary from the server, in whatever order it arrives, takes a channel's cursor back or drops
-- a channel.
pub put_unread-Rises :
    (u : ChatUnread) (es : List ChatUnread) (k : String)
    → Rises (cursor k es) (cursor k (put_unread u es))
unfolding put_unread
put_unread-Rises u [] k = tt
put_unread-Rises u (e ∷ es) k = ground (
  arith,
  eq_iff e.channel_id u.channel_id,
  eq_iff u.channel_id k,
  eq_iff e.channel_id k,
  put_unread-Rises u es k,
  Rises-refl (cursor k es),
)

-- Counting a message a second time changes nothing.
pub count_unread_idem :
    (k : String) (seq : ℤ) (es : List ChatUnread)
    → count_unread k seq (count_unread k seq es) ≡ count_unread k seq es
unfolding count_unread
count_unread_idem k seq [] = refl
count_unread_idem k seq (e ∷ es) = ground (arith, count_unread_idem k seq es)

-- A message that a summary has as read is not counted again.
pub count_unread-put_unread :
    (u : ChatUnread) (seq : ℤ) (es : List ChatUnread)
    → seq ≤ℤ u.last_read_seq
    → count_unread u.channel_id seq (put_unread u es) ≡ put_unread u es
unfolding count_unread put_unread
count_unread-put_unread u seq [] h = ground (arith, eq_refl u.channel_id)
count_unread-put_unread u seq (e ∷ es) h =
    ground (arith, eq_refl u.channel_id, count_unread-put_unread u seq es h)
