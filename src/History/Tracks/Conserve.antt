-- ===== src/History/Tracks/Conserve.antt =====
-- No dot is lost by `tracksForDay` of web/src/components/history/historyLayout.ts.
use mathlib.Core.List.{flat_map, Perm, append_assoc, append-nil, perm_middle}
use mathlib.Core.List.Perm
use mathlib.Core.Path.{subst}
use fusion_on_prem_server.Base.{
  ℕ, String, ◌≡◌, refl, sym, ap, List, [], ◌∷◌, ◌++◌, map, length, take, drop, str_eq, Bool-cases,
  inl, inr, leb, zero, suc,
}
use fusion_on_prem_server.Base.Dict.{Dict}
use fusion_on_prem_server.Base.Sort.{sort_by, sort_by-perm, flat_map-sort_by, flat_map-append}
use fusion_on_prem_server.History.Events.{author_key}
use fusion_on_prem_server.History.Tracks.{
  HistoryDot, HistoryTrack, push_dot, by_author, author_track, started_first, saved_first,
  track_dots, overflow_track, cap_tracks, tracks_for_day,
}

all_dots : Dict (List HistoryDot) → List HistoryDot
all_dots [] = []
all_dots ((key, list) ∷ m) = list ++ all_dots m

push_dot-perm :
    (key : String) (d : HistoryDot) (m : Dict (List HistoryDot))
    → Perm (all_dots (push_dot key d m)) (d ∷ all_dots m)
unfolding all_dots push_dot
push_dot-perm key d [] = Perm.refl _
push_dot-perm key d ((j, list) ∷ m) = elim (Bool-cases (str_eq j key)) [
  | inl same ↦ rw same (
      Perm.trans
        (subst (λ l. Perm l (list ++ d ∷ all_dots m))
          (sym (append_assoc list (d ∷ []) (all_dots m))) (Perm.refl _))
        (perm_middle list (all_dots m)))
  | inr other ↦
      rw other
        (Perm.trans (Perm.append_left list (push_dot-perm key d m)) (perm_middle list (all_dots m)))
]

by_author-perm :
    (m : Dict (List HistoryDot)) (dots : List HistoryDot)
    → Perm (all_dots (by_author m dots)) (dots ++ all_dots m)
unfolding by_author
by_author-perm m [] = Perm.refl _
by_author-perm m (d ∷ dots) = Perm.trans (by_author-perm (push_dot (author_key d.v) d m) dots) (
    Perm.trans (Perm.append_left dots (push_dot-perm (author_key d.v) d m))
      (perm_middle dots (all_dots m)))

flat_map-author_track :
    (m : Dict (List HistoryDot)) → flat_map track_dots (map author_track m) ≡ all_dots m
unfolding flat_map all_dots
flat_map-author_track [] = refl
flat_map-author_track ((key, list) ∷ m) = ap (◌++◌ list) (flat_map-author_track m)

take-drop : (n : ℕ) (ts : List HistoryTrack) → take n ts ++ drop n ts ≡ ts
take-drop zero ts = refl
take-drop (suc n) [] = refl
take-drop (suc n) (t ∷ ts) = ap (◌∷◌ t) (take-drop n ts)

flat_map-cap_tracks :
    (ts : List HistoryTrack) → Perm (flat_map track_dots (cap_tracks ts)) (flat_map track_dots ts)
unfolding cap_tracks overflow_track flat_map
flat_map-cap_tracks ts = elim (Bool-cases (leb (length ts) 6)) [
  | inl few ↦ rw few (Perm.refl _)
  | inr many ↦ rw many (
      subst (λ l. Perm l (flat_map track_dots ts))
        (sym (flat_map-append track_dots (take 5 ts) (overflow_track (drop 5 ts) ∷ [])))
        (subst (Perm _) (ap (flat_map track_dots) (take-drop 5 ts)) (
          subst (Perm _) (sym (flat_map-append track_dots (take 5 ts) (drop 5 ts))) (
            Perm.append_left (flat_map track_dots (take 5 ts)) (
              subst (λ l. Perm l (flat_map track_dots (drop 5 ts)))
                (sym (append-nil (sort_by saved_first (flat_map track_dots (drop 5 ts)))))
                (sort_by-perm saved_first (flat_map track_dots (drop 5 ts))))))))
]

-- Every dot of a day is on one track of the day, and no other dot is.
pub tracks_for_day-perm :
    (dots : List HistoryDot) → Perm (flat_map track_dots (tracks_for_day dots)) dots
unfolding tracks_for_day all_dots
tracks_for_day-perm dots =
    Perm.trans (flat_map-cap_tracks (sort_by started_first (map author_track (by_author [] dots))))
      (Perm.trans (flat_map-sort_by started_first track_dots (map author_track (by_author [] dots)))
        (subst (λ l. Perm l dots) (sym (flat_map-author_track (by_author [] dots)))
          (subst (Perm (all_dots (by_author [] dots))) (append-nil dots) (by_author-perm [] dots))))
