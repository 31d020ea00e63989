-- ===== src/History/Tracks/Authors.antt =====
-- Whose dots a track of `tracksForDay` of web/src/components/history/historyLayout.ts holds.
use fusion_on_prem_server.Base.{
  ℕ, String, ◌≡◌, refl, sym, ◌∙◌, false, List, [], ◌∷◌, ◌++◌, map, length, take, drop, ◌≤◌, arith,
  str_eq, eq_iff, Bool-cases, inl, inr, leb, zero, suc, All, is_empty, length-append,
}
use fusion_on_prem_server.Base.Dict.{Dict}
use fusion_on_prem_server.Base.Sort.{sort_by, sort_by-All}
use fusion_on_prem_server.History.Events.{author_key}
use fusion_on_prem_server.History.Tracks.{
  HistoryDot, HistoryTrack, push_dot, by_author, author_track, started_first, overflow_track,
  cap_tracks, tracks_for_day, tracks_per_day_cap,
}

abbrev pub IsBy : String → HistoryDot → Type 0
IsBy key d = author_key d.v ≡ key

-- A track that is not the overflow track holds dots of one author, one at least.
pub record IsAuthorTrack (t : HistoryTrack) : Type 0 where
  pub used : t.overflow ≡ false → is_empty t.dots ≡ false
  pub own : t.overflow ≡ false → All (IsBy t.key) t.dots

abbrev IsGroup : String × List HistoryDot → Type 0
IsGroup (key, list) = (is_empty list ≡ false) × All (IsBy key) list

All-append : {A : Type 0} (P : A → Type 0) (l m : List A) → All P l → All P m → All P (l ++ m)
All-append P [] m h k = k
All-append P (a ∷ l) m (pa, h) k = (pa, All-append P l m h k)

All-take : {A : Type 0} (P : A → Type 0) (n : ℕ) (l : List A) → All P l → All P (take n l)
All-take P zero l h = tt
All-take P (suc n) [] h = tt
All-take P (suc n) (a ∷ l) (pa, h) = (pa, All-take P n l h)

length-take : {A : Type 0} (n : ℕ) (l : List A) → length (take n l) ≤ n
length-take zero l = omega arith
length-take (suc n) [] = omega arith
length-take (suc n) (a ∷ l) = omega (arith, length-take n l)

is_empty-concat : {A : Type 0} (l : List A) (a : A) → is_empty (l ++ a ∷ []) ≡ false
is_empty-concat [] a = refl
is_empty-concat (b ∷ l) a = refl

push_dot-IsGroup :
    (key : String) (d : HistoryDot) (m : Dict (List HistoryDot))
    → IsBy key d
    → All IsGroup m
    → All IsGroup (push_dot key d m)
unfolding push_dot
push_dot-IsGroup key d [] own h = ((refl, (own, tt)), tt)
push_dot-IsGroup key d ((j, list) ∷ m) own ((used, his), h) = elim (Bool-cases (str_eq j key)) [
  | inl same ↦ rw same (
    (
      is_empty-concat list d,
      All-append (IsBy j) list (d ∷ []) his (own ∙ sym ((eq_iff j key).0 same), tt),
    ),
    h,
  )
  | inr other ↦ rw other ((used, his), push_dot-IsGroup key d m own h)
]

by_author-IsGroup :
    (m : Dict (List HistoryDot)) (dots : List HistoryDot)
    → All IsGroup m
    → All IsGroup (by_author m dots)
unfolding by_author
by_author-IsGroup m [] h = h
by_author-IsGroup m (d ∷ dots) h =
    by_author-IsGroup (push_dot (author_key d.v) d m) dots
      (push_dot-IsGroup (author_key d.v) d m refl h)

author_track-IsAuthorTrack :
    (m : Dict (List HistoryDot)) → All IsGroup m → All IsAuthorTrack (map author_track m)
author_track-IsAuthorTrack [] h = tt
author_track-IsAuthorTrack ((key, list) ∷ m) ((used, own), h) =
    (record { used = λ e. used; own = λ e. own }, author_track-IsAuthorTrack m h)

overflow-IsAuthorTrack : (ts : List HistoryTrack) → IsAuthorTrack (overflow_track ts)
unfolding overflow_track
overflow-IsAuthorTrack ts = record { used = λ e. cc; own = λ e. absurd cc }

-- A day has six tracks at most, and but for the overflow track each of them shows the dots of one
-- author, one dot at least.
pub tracks_for_day-IsAuthorTrack :
    (dots : List HistoryDot)
    → (length (tracks_for_day dots) ≤ tracks_per_day_cap) × All IsAuthorTrack (tracks_for_day dots)
unfolding tracks_for_day cap_tracks
tracks_for_day-IsAuthorTrack dots =
    let ts = sort_by started_first (map author_track (by_author [] dots)) in
    let own : All IsAuthorTrack ts =
      sort_by-All started_first IsAuthorTrack (map author_track (by_author [] dots))
        (author_track-IsAuthorTrack (by_author [] dots) (by_author-IsGroup [] dots tt)) in
    elim (Bool-cases (leb (length ts) 6)) [
      | inl few ↦ rw few (ground arith, own)
      | inr many ↦
          let joined = length-append (take 5 ts) (overflow_track (drop 5 ts) ∷ []) in
          let short = length-take 5 ts in
          rw many (
            omega arith,
            All-append IsAuthorTrack (take 5 ts) (overflow_track (drop 5 ts) ∷ [])
                (All-take IsAuthorTrack 5 ts own) (overflow-IsAuthorTrack (drop 5 ts), tt),
          )
    ]
