-- ===== src/Gantt/Drag/Escape.antt =====
-- What Escape does to a drag of web/src/tasks/gantt/useGanttDrag.ts.
use fusion_on_prem_server.Base.{ℕ, ◌≡◌, refl, ap, ◌∙◌, none, List, [], ◌∷◌, All}
use fusion_on_prem_server.Gantt.Drag.{DragState, Chart}
use fusion_on_prem_server.Gantt.Drag.Preview.{on_move}
use fusion_on_prem_server.Gantt.Drag.Commit.{on_up, on_escape}
use fusion_on_prem_server.Gantt.Drag.Run.{
  DragEvent, bar_pressed, stage_pressed, backlog_pressed, pointer_moved, pointer_up, escape, step,
  run,
}

abbrev pub IsNoPress : DragEvent → Type 0
IsNoPress (bar_pressed e task action) = ⊥
IsNoPress (stage_pressed e stage ids) = ⊥
IsNoPress (backlog_pressed e task) = ⊥
IsNoPress (pointer_moved e) = Unit
IsNoPress (pointer_up e) = Unit
IsNoPress escape = Unit

module _ (zone : ℕ → ℕ) (chart : Chart) where
  quiet :
      (ev : DragEvent) (s : DragState)
      → IsNoPress ev
      → step zone chart ev (on_escape chart s) ≡ on_escape chart s
  unfolding on_escape on_move on_up
  quiet (bar_pressed e task action) s none_pressed = absurd none_pressed
  quiet (stage_pressed e stage ids) s none_pressed = absurd none_pressed
  quiet (backlog_pressed e task) s none_pressed = absurd none_pressed
  quiet (pointer_moved e) s none_pressed = refl
  quiet (pointer_up e) s none_pressed = refl
  quiet escape s none_pressed = refl

  stays :
      (evs : List DragEvent) (s : DragState)
      → All IsNoPress evs
      → run zone chart evs (on_escape chart s) ≡ on_escape chart s
  unfolding run
  stays [] s none_pressed = refl
  stays (ev ∷ evs) s (none_pressed, rest) =
      ap (run zone chart evs) (quiet ev s none_pressed) ∙ stays evs s rest

  -- After Escape no drag is shown or under way, and nothing is sent, clicked or written to the
  -- cache before the next press, whatever the pointer does.
  pub run-on_escape :
      (evs : List DragEvent) (s : DragState)
      → All IsNoPress evs
      → ((run zone chart evs (on_escape chart s)).drag ≡ none)
        × ((run zone chart evs (on_escape chart s)).origin ≡ none)
        × ((run zone chart evs (on_escape chart s)).cache ≡ s.cache)
        × ((run zone chart evs (on_escape chart s)).sent ≡ s.sent)
        × ((run zone chart evs (on_escape chart s)).clicked ≡ s.clicked)
  unfolding on_escape
  run-on_escape evs s none_pressed = rw (stays evs s none_pressed) (refl, refl, refl, refl, refl)
