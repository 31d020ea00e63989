-- ===== src/Chat/Typing/Expiry.antt =====
-- Who is shown as typing, by web/src/chat/typing.ts.
use fusion_on_prem_server.Base.{
  ℕ, ◌-◌, ◌<◌, String, ◌≡◌, ◌≢◌, refl, ◌∙◌, true, false, none, some, List, [], ◌∷◌, arith, ◌&&◌,
  ◌||◌, not, if◌then◌else◌, str_eq, eq_iff, eq_refl, Bool-cases, Option-cases, inl, inr, ◌⊎◌, All,
}
use fusion_on_prem_server.Base.Dict.{Dict, lookup, insert, erase, lookup-insert, lookup-erase, elem}
use fusion_on_prem_server.Base.Sort.{sort_by, insert_by, sort_by-All}
use fusion_on_prem_server.Chat.Types.{ChatTypingEvent}
use fusion_on_prem_server.Chat.Typing.{
  Entry, Typing, typing_ttl_ms, is_expired, key, users, note_typing, clear_typing, names_of, str_le,
  compute,
}

-- The entry of a user is in the map.
abbrev pub Holds : String → Entry → Dict Entry → Type 0
Holds uid e [] = ⊥
Holds uid e ((u, x) ∷ m) = ((u ≡ uid) × (x ≡ e)) ⊎ Holds uid e m

-- The name is that of another user, who typed within the time to live.
abbrev pub IsTyping : ℕ → String → Dict Entry → String → Type 0
IsTyping now exclude m name =
    (uid : String) × (e : Entry) × Holds uid e m
    × (e.name ≡ name)
    × (uid ≢ exclude)
    × (now - e.at < typing_ttl_ms)

IsTyping-cons :
    (now : ℕ) (exclude u : String) (x : Entry) (m : Dict Entry) (names : List String)
    → All (IsTyping now exclude m) names
    → All (IsTyping now exclude ((u, x) ∷ m)) names
IsTyping-cons now exclude u x m [] h = tt
IsTyping-cons now exclude u x m (n ∷ names) ((uid, e, held, a, b, c), h) =
    ((uid, e, inr held, a, b, c), IsTyping-cons now exclude u x m names h)

names_of-IsTyping :
    (now : ℕ) (exclude : String) (m : Dict Entry)
    → All (IsTyping now exclude m) (names_of now exclude m)
unfolding names_of
names_of-IsTyping now exclude [] = tt
names_of-IsTyping now exclude ((u, x) ∷ m) =
    elim (Bool-cases (not (is_expired now x) && not (str_eq u exclude))) [
      | inl shown ↦ rw shown (
        (u, x, inl (refl, refl), refl, λ e. ground (arith, (eq_iff u exclude).1 e), ground arith),
        IsTyping-cons now exclude u x m _ (names_of-IsTyping now exclude m),
      )
      | inr hidden ↦ rw hidden (IsTyping-cons now exclude u x m _ (names_of-IsTyping now exclude m))
    ]

-- The names that the channel shows are all of other users who typed in it less than the time to
-- live ago.
pub compute-IsTyping :
    (now : ℕ) (k exclude : String) (typing : Typing)
    → All (IsTyping now exclude (users typing k)) (compute now k exclude typing).1
unfolding compute
compute-IsTyping now k exclude typing = elim (Option-cases (lookup k typing)) [
  | inl missing ↦ rw (missing, compute) tt
  | inr (m, found) ↦
      rw (found, compute)
        (sort_by-All str_le _ (names_of now exclude m) (names_of-IsTyping now exclude m))
]

elem-insert_by :
    (n x : String) (ys : List String) → elem n (insert_by str_le x ys) ≡ str_eq x n || elem n ys
unfolding insert_by
elem-insert_by n x [] = refl
elem-insert_by n x (y ∷ ys) = ground (arith, elem-insert_by n x ys)

elem-sort_by : (n : String) (xs : List String) → elem n (sort_by str_le xs) ≡ elem n xs
unfolding sort_by
elem-sort_by n [] = refl
elem-sort_by n (x ∷ xs) = rw (elem-insert_by n x (sort_by str_le xs), elem-sort_by n xs)

elem-names_of :
    (now : ℕ) (exclude uid : String) (e : Entry) (m : Dict Entry)
    → lookup uid m ≡ some e
    → str_eq uid exclude ≡ false
    → is_expired now e ≡ false
    → elem e.name (names_of now exclude m) ≡ true
unfolding names_of
elem-names_of now exclude uid e [] found other fresh = cc
elem-names_of now exclude uid e ((u, x) ∷ m) found other fresh = elim (Bool-cases (str_eq u uid)) [
  | inl same ↦ ground (arith, (eq_iff u uid).0 same, eq_refl e.name)
  | inr apart ↦ ground (arith, elem-names_of now exclude uid e m (rw apart at found) other fresh)
]

-- Whoever typed less than the time to live ago, and is not the reader, is shown; an event of a user
-- without a name is shown as "Someone".
pub compute-note_typing :
    (now t : ℕ) (project exclude : String) (ev : ChatTypingEvent) (typing : Typing)
    → ev.user_id ≢ ""
    → ev.user_id ≢ exclude
    → now - t < typing_ttl_ms
    → elem
        (if str_eq ev.name "" then "Someone" else ev.name)
        (compute now (key project ev.channel_id) exclude (note_typing t project ev typing)).1
      ≡ true
unfolding compute note_typing
compute-note_typing now t project exclude ev typing named other fresh =
    let k = key project ev.channel_id in
    let shown : Entry = record {
      name = if str_eq ev.name "" then "Someone" else ev.name;
      at = t;
    } in
    let m : Dict Entry = insert ev.user_id shown (users typing k) in
    let is_named : str_eq ev.user_id "" ≡ false = ground (arith, eq_iff ev.user_id "") in
    let is_other : str_eq ev.user_id exclude ≡ false = ground (arith, eq_iff ev.user_id exclude) in
    let stored : lookup k (insert k m typing) ≡ some m =
      lookup-insert k k m typing ∙ rw (eq_refl k) in
    let entry : lookup ev.user_id m ≡ some shown =
      lookup-insert ev.user_id ev.user_id shown (users typing k) ∙ rw (eq_refl ev.user_id) in
    rw (is_named, stored, compute)
      (elem-sort_by shown.name (names_of now exclude m)
        ∙ elem-names_of now exclude ev.user_id shown m entry is_other (ground arith))

-- After the message of a user arrives, no entry of that user is left in the channel.
pub lookup-clear_typing :
    (project channel user : String) (typing : Typing)
    → user ≢ ""
    → lookup user (users (clear_typing project channel user typing) (key project channel)) ≡ none
unfolding clear_typing
lookup-clear_typing project channel user typing named =
    let k = key project channel in
    let is_named : str_eq user "" ≡ false = ground (arith, eq_iff user "") in
    elim (Option-cases (lookup k typing)) [
      | inl missing ↦ rw (is_named, missing, clear_typing) (rw missing)
      | inr (m, found) ↦
          rw (is_named, found, clear_typing)
            (rw (lookup-insert k k (erase user m) typing, eq_refl k)
              (lookup-erase user user m ∙ rw (eq_refl user)))
    ]
