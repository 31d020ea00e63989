-- ===== src/Chat/Typing.antt =====
-- web/src/chat/typing.ts: who is typing. The module's map and the hooks' refs are explicit state;
-- times are milliseconds.
pub mod Expiry
use Prim.Native.Nat.{Ordering}
use Prim.Native.String
use Prim.Native.String.{compare}
use fusion_on_prem_server.Base.{
  ℕ, ◌+◌, ◌-◌, String, Bool, true, false, not, ◌&&◌, Option, none, some, List, [], ◌∷◌, leb, ltb,
  if◌then◌else◌, str_eq, or_else, map, filter,
}
use fusion_on_prem_server.Base.Dict.{Dict, lookup, insert, erase}
use fusion_on_prem_server.Base.Sort.{sort_by}
use fusion_on_prem_server.Chat.Types.{ChatTypingEvent}

abbrev pub typing_ttl_ms : ℕ
typing_ttl_ms = 5000

abbrev pub ping_interval_ms : ℕ
ping_interval_ms = 3000

pub record Entry : Type 0 where
  pub name : String
  pub at : ℕ

-- From the key of a channel to its users' entries.
abbrev pub Typing : Type 0
Typing = Dict (Dict Entry)

unfoldable pub key : String → String → String
key project channel = String.◌++◌ project (String.◌++◌ "\0" channel)

abbrev pub users : Typing → String → Dict Entry
users typing k = or_else (lookup k typing) []

unfoldable pub note_typing : ℕ → String → ChatTypingEvent → Typing → Typing
note_typing now project ev typing =
    if str_eq ev.user_id ""
    then typing
    else insert (key project ev.channel_id)
        (insert ev.user_id
          (record { name = if str_eq ev.name "" then "Someone" else ev.name; at = now })
          (users typing (key project ev.channel_id)))
        typing

unfoldable pub clear_typing : String → String → String → Typing → Typing
clear_typing project channel user typing =
    if str_eq user "" then typing else elim (lookup (key project channel) typing) [
      | none ↦ typing
      | some m ↦ insert (key project channel) (erase user m) typing
    ]

abbrev pub is_expired : ℕ → Entry → Bool
is_expired now e = leb typing_ttl_ms (now - e.at)

-- The loop of `compute`: expired entries leave the map, the names of the others are collected.
unfoldable pub unexpired : ℕ → Dict Entry → Dict Entry
unexpired now [] = []
unexpired now ((uid, e) ∷ m) =
    if is_expired now e then unexpired now m else (uid, e) ∷ unexpired now m

unfoldable pub names_of : ℕ → String → Dict Entry → List String
names_of now exclude [] = []
names_of now exclude ((uid, e) ∷ m) =
    if not (is_expired now e) && not (str_eq uid exclude)
    then e.name ∷ names_of now exclude m
    else names_of now exclude m

abbrev pub str_le : String → String → Bool
str_le a b = elim (compare a b) [ Ordering.gt ↦ false | _ ↦ true ]

unfoldable pub compute : ℕ → String → String → Typing → Typing × List String
unfolding unexpired names_of
compute now k exclude typing = elim (lookup k typing) [
  | none ↦ (typing, [])
  | some m ↦ (insert k (unexpired now m) typing, sort_by str_le (names_of now exclude m))
]

-- `useTypingPing`: the time of the last ping (0 before the first), and whether one is sent.
unfoldable pub ping : ℕ → ℕ → ℕ × Bool
ping now last = if ltb (now - last) ping_interval_ms then (last, false) else (now, true)
