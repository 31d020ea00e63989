-- ===== src/Gantt/Drag/Run.antt =====
-- What can happen to the chart of web/src/tasks/gantt/useGanttDrag.ts, one event after the other.
use fusion_on_prem_server.Base.{ℕ, String, List, [], ◌∷◌}
use fusion_on_prem_server.Gantt.Tasks.{Task}
use fusion_on_prem_server.Gantt.Drag.{
  DragAction, PointerEvent, DragState, Chart, start_bar_drag, start_stage_drag, start_backlog_drag,
}
use fusion_on_prem_server.Gantt.Drag.Preview.{on_move}
use fusion_on_prem_server.Gantt.Drag.Commit.{on_up, on_escape}

pub data DragEvent : Type 0 where
  bar_pressed : PointerEvent → Task → DragAction → DragEvent
  stage_pressed : PointerEvent → String → List String → DragEvent
  backlog_pressed : PointerEvent → Task → DragEvent
  pointer_moved : PointerEvent → DragEvent
  pointer_up : PointerEvent → DragEvent
  escape : DragEvent

module _ (zone : ℕ → ℕ) (chart : Chart) where
  abbrev pub step : DragEvent → DragState → DragState
  step (bar_pressed e task action) s = start_bar_drag chart e task action s
  step (stage_pressed e stage ids) s = start_stage_drag chart e stage ids s
  step (backlog_pressed e task) s = start_backlog_drag chart e task s
  step (pointer_moved e) s = on_move zone chart e s
  step (pointer_up e) s = on_up chart e s
  step escape s = on_escape chart s

  unfoldable pub run : List DragEvent → DragState → DragState
  run [] s = s
  run (ev ∷ evs) s = run evs (step ev s)
