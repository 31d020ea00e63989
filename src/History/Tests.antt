-- ===== src/History/Tests.antt =====
-- Runs of the modelled code of web/src/components/history, and each theorem at an input of its own.
use mathlib.Core.List.{flat_map, Perm}
use fusion_on_prem_server.Base.{◌≤◌, ◌≡◌, refl, none, some, List, [], ◌∷◌, length, All, arith}
use fusion_on_prem_server.Base.Int.{ℤ, pos, ◌-ℤ◌, ◌+ℤ◌, ◌≤ℤ◌}
use fusion_on_prem_server.History.Events.{VersionSummary, save}
use fusion_on_prem_server.History.Tracks.{
  HistoryDot, tracks_for_day, tracks_per_day_cap, track_dots,
}
use fusion_on_prem_server.History.Tracks.Conserve.{tracks_for_day-perm}
use fusion_on_prem_server.History.Tracks.Authors.{IsAuthorTrack, tracks_for_day-IsAuthorTrack}
use fusion_on_prem_server.History.Declutter.{
  declutter, scale, forward_pass, push_right, back_pass, shift_back, space_evenly, even_from,
}
use fusion_on_prem_server.History.Declutter.Spacing.{IsSpaced}
use fusion_on_prem_server.History.Declutter.Bounds.{
  IsLaidOut, declutter-IsLaidOut, declutter-IsSpaced,
}
use fusion_on_prem_server.History.Declutter.Wall.{declutter-wall}

abbrev by_ada : VersionSummary
by_ada = record {
  number = 1;
  created_on = some "2026-01-01T10:00:00Z";
  created_by = some "Ada";
  created_by_id = some "u1";
  comment = none;
  root_component_version_id = none;
  is_milestone = none;
  milestone_name = none;
  revision = none;
  public_share = none;
}

abbrev by_bob : VersionSummary
by_bob = record by_ada { number = 2; created_by = some "Bob"; created_by_id = none }

abbrev day : List HistoryDot
day =
    record { v = save by_ada; key = "v1"; index = 0; ms = 10 }
    ∷ record { v = save by_bob; key = "v2"; index = 1; ms = 20 }
    ∷ record { v = save (record by_ada { number = 3 }); key = "v3"; index = 2; ms = 30 }
    ∷ []

abbrev late : List ℤ
late = pos 498 ∷ pos 499 ∷ pos 500 ∷ pos 500 ∷ []

-- Four dots at the right wall of a wide plot, and of a narrow one.
late_spread : (declutter late (pos 0) (pos 500) 16).xs ≡ pos 452 ∷ pos 468 ∷ pos 484 ∷ pos 500 ∷ []
unfolding declutter forward_pass push_right back_pass shift_back ◌-ℤ◌ ◌+ℤ◌
late_spread = refl

narrow_spread : (declutter late (pos 0) (pos 30) 16).xs ≡ pos 0 ∷ pos 30 ∷ pos 60 ∷ pos 90 ∷ []
unfolding declutter space_evenly even_from scale ◌-ℤ◌ ◌+ℤ◌
narrow_spread = refl

tracks_for_day-perm_example : Perm (flat_map track_dots (tracks_for_day day)) day
tracks_for_day-perm_example = tracks_for_day-perm day

tracks_for_day-IsAuthorTrack_example :
    (length (tracks_for_day day) ≤ tracks_per_day_cap) × All IsAuthorTrack (tracks_for_day day)
tracks_for_day-IsAuthorTrack_example = tracks_for_day-IsAuthorTrack day

declutter-IsLaidOut_example : IsLaidOut 4 (pos 500) (declutter late (pos 0) (pos 500) 16)
declutter-IsLaidOut_example = declutter-IsLaidOut late (pos 0) (pos 500) 16 (omega arith)

declutter-IsSpaced_example :
    ((declutter late (pos 0) (pos 500) 16).den ≡ 1)
    × IsSpaced 16 (declutter late (pos 0) (pos 500) 16).xs
unfolding ◌-ℤ◌
declutter-IsSpaced_example = declutter-IsSpaced late (pos 0) (pos 500) 16 refl

wide_room : pos 32 ≤ℤ (pos 500 -ℤ pos 0)
unfolding ◌-ℤ◌
wide_room = omega arith

declutter-wall_example :
    (declutter (pos 0 ∷ pos 500 ∷ pos 500 ∷ []) (pos 0) (pos 500) 16).xs
    ≡ (pos 0 -ℤ pos 16) ∷ (pos 500 -ℤ pos 16) ∷ pos 500 ∷ []
declutter-wall_example = declutter-wall (pos 0) (pos 500) 16 (omega arith) wide_room
