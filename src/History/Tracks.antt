-- ===== src/History/Tracks.antt =====
-- `tracksForDay` of web/src/components/history/historyLayout.ts.
pub mod Conserve
pub mod Authors
use Prim.Native.String
use mathlib.Core.List.{flat_map}
use fusion_on_prem_server.Base.{
  ℕ, ◌-◌, String, Bool, true, false, Option, none, some, List, [], ◌∷◌, ◌++◌, map, length, take,
  drop, leb, str_eq, or_else, if◌then◌else◌,
}
use fusion_on_prem_server.Base.Dict.{Dict}
use fusion_on_prem_server.Base.Sort.{sort_by}
use fusion_on_prem_server.History.Events.{HistoryEvent, author_key, event_by}

abbrev pub tracks_per_day_cap : ℕ
tracks_per_day_cap = 6

pub record HistoryDot : Type 0 where
  pub v : HistoryEvent
  pub key : String
  pub index : ℕ
  pub ms : ℕ

pub record HistoryTrack : Type 0 where
  pub key : String
  pub name : String
  pub dots : List HistoryDot
  pub overflow : Bool
  pub author_count : ℕ

-- `list ? list.push(d) : byAuthor.set(key, [d])`
unfoldable pub push_dot : String → HistoryDot → Dict (List HistoryDot) → Dict (List HistoryDot)
push_dot key d [] = (key, d ∷ []) ∷ []
push_dot key d ((j, list) ∷ m) =
    if str_eq j key then (j, list ++ d ∷ []) ∷ m else (j, list) ∷ push_dot key d m

unfoldable pub by_author : Dict (List HistoryDot) → List HistoryDot → Dict (List HistoryDot)
by_author m [] = m
by_author m (d ∷ dots) = by_author (push_dot (author_key d.v) d m) dots

-- `list[0].v.createdBy ?? ''`
abbrev pub first_name : List HistoryDot → String
first_name [] = ""
first_name (d ∷ dots) = or_else (event_by d.v) ""

abbrev pub author_track : String × List HistoryDot → HistoryTrack
author_track (key, list) = record {
  key = key;
  name = first_name list;
  dots = list;
  overflow = false;
  author_count = 1;
}

-- `t.dots[0].index`; every track has a dot.
abbrev pub first_index : HistoryTrack → ℕ
first_index t = elim t.dots [ [] ↦ 0 | d ∷ dots ↦ d.index ]

abbrev pub started_first : HistoryTrack → HistoryTrack → Bool
started_first a b = leb (first_index a) (first_index b)

abbrev pub join_with : String → List String → String
join_with sep [] = ""
join_with sep (s ∷ []) = s
join_with sep (s ∷ t ∷ ts) = String.◌++◌ s (String.◌++◌ sep (join_with sep (t ∷ ts)))

abbrev pub track_dots : HistoryTrack → List HistoryDot
track_dots t = t.dots

abbrev pub saved_first : HistoryDot → HistoryDot → Bool
saved_first a b = leb a.index b.index

unfoldable pub overflow_track : List HistoryTrack → HistoryTrack
overflow_track tail = record {
  key = join_with " " (map (λ (t : HistoryTrack). t.key) tail);
  name = join_with ", " (map (λ (t : HistoryTrack). t.name) tail);
  dots = sort_by saved_first (flat_map track_dots tail);
  overflow = true;
  author_count = length tail;
}

unfoldable pub cap_tracks : List HistoryTrack → List HistoryTrack
cap_tracks tracks =
    if leb (length tracks) tracks_per_day_cap
    then tracks
    else take (tracks_per_day_cap - 1) tracks
      ++ overflow_track (drop (tracks_per_day_cap - 1) tracks) ∷ []

unfoldable pub tracks_for_day : List HistoryDot → List HistoryTrack
tracks_for_day dots = cap_tracks (sort_by started_first (map author_track (by_author [] dots)))
