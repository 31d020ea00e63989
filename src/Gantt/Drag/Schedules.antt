-- ===== src/Gantt/Drag/Schedules.antt =====
-- Every schedule that a drag shows or sends, for web/src/tasks/gantt/useGanttDrag.ts.
use fusion_on_prem_server.Base.{
  ℕ, String, inl, inr, refl, true, not, ◌&&◌, ◌||◌, Option, none, some, List, [], ◌∷◌, ◌++◌, All,
  All-append, any, is_empty, or_else, str_eq, ◌==◌, Bool-cases,
}
use fusion_on_prem_server.Base.Int.{ℤ, pos, eq_ℤ, ◌-ℤ◌}
use fusion_on_prem_server.Base.Text.{is_empty_text}
use fusion_on_prem_server.Gantt.Pixels.{snap_days}
use fusion_on_prem_server.Gantt.Tasks.{Percent, hundredths, same_percent, Task, is_given}
use fusion_on_prem_server.Gantt.Drag.{
  DragAction, move, resize_start, resize_end, progress, link, stage_move, schedule, GanttDrag,
  PointerEvent, Origin, Mutation, update, shift, DragState, Chart, svg_x, begin, start_bar_drag,
  start_stage_drag, start_backlog_drag, is_stage_move, is_link, is_schedule, is_clickable,
  bar_id_at_point, bar_drag,
}
use fusion_on_prem_server.Gantt.Drag.Preview.{preview, is_moved, on_move, move_from}
use fusion_on_prem_server.Gantt.Drag.Commit.{
  cleanup_state, same_text, commit_dates, commit_progress, commit_link, commit_shift,
  commit_schedule, commit_action, commit, click, released, up_from, on_up, on_escape,
}
use fusion_on_prem_server.Gantt.Drag.Run.{
  DragEvent, bar_pressed, stage_pressed, backlog_pressed, pointer_moved, pointer_up, escape, step,
  run,
}
use fusion_on_prem_server.Gantt.Drag.Ordered.{IsOrdered, DatesStay, GhostStays, previewed-IsOrdered}

abbrev pub DragIsOrdered : Option GanttDrag → Type 0
DragIsOrdered none = Unit
DragIsOrdered (some d) = IsOrdered d.start_date d.end_date

abbrev pub OriginIsOrdered : Option Origin → Type 0
OriginIsOrdered none = Unit
OriginIsOrdered (some o) = IsOrdered o.drag.start_date o.drag.end_date

abbrev pub MutationIsOrdered : Mutation → Type 0
MutationIsOrdered (update id patch) = IsOrdered patch.start_date patch.end_date
MutationIsOrdered (shift ids days) = Unit

-- The bar that is shown, the press that it goes back to, and all that was sent.
abbrev pub IsInOrder : DragState → Type 0
IsInOrder s = DragIsOrdered s.drag × OriginIsOrdered s.origin × All MutationIsOrdered s.sent

module _ (zone : ℕ → ℕ) (chart : Chart) where
  abbrev pub MoveStays : Option Origin → PointerEvent → Type 0
  MoveStays none e = Unit
  MoveStays (some o) e =
      DatesStay (snap_days zone (e.client_x -ℤ o.client_x) chart.scale) o.drag.start_date
      × DatesStay (snap_days zone (e.client_x -ℤ o.client_x) chart.scale) o.drag.end_date
      × GhostStays zone chart (svg_x chart e.client_x)

  -- Only tasks whose schedule is in order are pressed, and no move leaves the years of four digits.
  abbrev pub IsAllowed : DragEvent → DragState → Type 0
  IsAllowed (bar_pressed e task action) s = IsOrdered task.start_date task.end_date
  IsAllowed (stage_pressed e stage ids) s = Unit
  IsAllowed (backlog_pressed e task) s = Unit
  IsAllowed (pointer_moved e) s = MoveStays s.origin e
  IsAllowed (pointer_up e) s = Unit
  IsAllowed escape s = Unit

  abbrev pub AreAllowed : List DragEvent → DragState → Type 0
  AreAllowed [] s = Unit
  AreAllowed (ev ∷ evs) s = IsAllowed ev s × AreAllowed evs (step zone chart ev s)

  begin-IsInOrder :
      (e : PointerEvent) (d : GanttDrag) (s : DragState)
      → IsOrdered d.start_date d.end_date
      → IsInOrder s
      → IsInOrder (begin chart e d s)
  unfolding begin
  begin-IsInOrder e d s h (shown, from, sent) =
      elim (Bool-cases (not chart.writable || not (e.button == 0))) [
        | inl ignored ↦ rw ignored (shown, from, sent)
        | inr taken ↦ rw taken (h, h, sent)
      ]

  preview-IsOrdered :
      (o : Origin) (e : PointerEvent)
      → IsOrdered o.drag.start_date o.drag.end_date
      → MoveStays (some o) e
      → IsOrdered (preview zone chart o e).start_date (preview zone chart o e).end_date
  unfolding preview
  preview-IsOrdered o e h (hs, he, g) = elim (Bool-cases (is_moved zone chart o e)) [
    | inl far ↦
        rw far (previewed-IsOrdered zone chart e _ o.drag _ o.drag.action refl refl h hs he g)
    | inr near ↦ rw near h
  ]

  move_from-IsInOrder :
      (d : Option GanttDrag) (o : Option Origin) (e : PointerEvent) (s : DragState)
      → MoveStays o e
      → OriginIsOrdered o
      → IsInOrder s
      → IsInOrder (move_from zone chart d o e s)
  move_from-IsInOrder none o e s stays h sound = sound
  move_from-IsInOrder (some d) none e s stays h sound = sound
  move_from-IsInOrder (some d) (some o) e s stays h (shown, from, sent) =
      (preview-IsOrdered o e h stays, h, sent)

  sent_more :
      (s : DragState) (ms : List Mutation)
      → All MutationIsOrdered s.sent
      → All MutationIsOrdered ms
      → All MutationIsOrdered (s.sent ++ ms)
  sent_more s ms h k = All-append MutationIsOrdered s.sent ms h k

  commit_dates-IsInOrder :
      (d : GanttDrag) (t : Option Task) (s : DragState)
      → IsOrdered d.start_date d.end_date
      → IsInOrder s
      → IsInOrder (commit_dates chart d t s)
  commit_dates-IsInOrder d none s h (shown, from, sent) = (shown, from, sent)
  commit_dates-IsInOrder d (some task) s h (shown, from, sent) =
      elim (Bool-cases (
        same_text chart d.start_date task.start_date && same_text chart d.end_date task.end_date)) [
          | inl same ↦ rw same (shown, from, sent)
          | inr other ↦ rw other (shown, from, sent_more s _ sent (h, tt))
        ]

  commit_progress-IsInOrder :
      (p : Option Percent) (t : Option Task) (s : DragState)
      → IsInOrder s
      → IsInOrder (commit_progress chart p t s)
  commit_progress-IsInOrder p none s (shown, from, sent) = (shown, from, sent)
  commit_progress-IsInOrder none (some task) s (shown, from, sent) = (shown, from, sent)
  commit_progress-IsInOrder (some p) (some task) s (shown, from, sent) =
      elim (Bool-cases (same_percent p (or_else task.progress (hundredths 0)))) [
        | inl same ↦ rw same (shown, from, sent)
        | inr other ↦ rw other (shown, from, sent_more s _ sent (inl (refl, refl), tt))
      ]

  commit_link-IsInOrder :
      (from_id : Option String) (t : Option Task) (s : DragState)
      → IsInOrder s
      → IsInOrder (commit_link chart from_id t s)
  commit_link-IsInOrder from_id none s (shown, from, sent) = (shown, from, sent)
  commit_link-IsInOrder none (some target) s (shown, from, sent) = (shown, from, sent)
  commit_link-IsInOrder (some from_id) (some target) s (shown, from, sent) =
      elim (Bool-cases (
        is_empty_text from_id
        || str_eq target.id from_id
        || any (λ id. str_eq id from_id) target.depends_on)) [
          | inl refused ↦ rw refused (shown, from, sent)
          | inr new ↦ rw new (shown, from, sent_more s _ sent (inl (refl, refl), tt))
        ]

  commit_shift-IsInOrder :
      (days : Option ℤ) (ids : Option (List String)) (s : DragState)
      → IsInOrder s
      → IsInOrder (commit_shift chart days ids s)
  commit_shift-IsInOrder none ids s (shown, from, sent) = (shown, from, sent)
  commit_shift-IsInOrder (some days) none s (shown, from, sent) = (shown, from, sent)
  commit_shift-IsInOrder (some days) (some ids) s (shown, from, sent) =
      elim (Bool-cases (eq_ℤ days (pos 0) || is_empty ids)) [
        | inl nothing ↦ rw nothing (shown, from, sent)
        | inr shifted ↦ rw shifted (shown, from, sent_more s _ sent (tt, tt))
      ]

  commit_schedule-IsInOrder :
      (d : GanttDrag) (t : Option Task) (s : DragState)
      → IsOrdered d.start_date d.end_date
      → IsInOrder s
      → IsInOrder (commit_schedule chart d t s)
  commit_schedule-IsInOrder d none s h (shown, from, sent) = (shown, from, sent)
  commit_schedule-IsInOrder d (some task) s h (shown, from, sent) =
      elim (Bool-cases (is_given d.start_date && is_given d.end_date)) [
        | inl dated ↦ rw dated (shown, from, sent_more s _ sent (h, tt))
        | inr undated ↦ rw undated (shown, from, sent)
      ]

  commit_action-IsInOrder :
      (d : GanttDrag) (action : DragAction) (s : DragState)
      → IsOrdered d.start_date d.end_date
      → IsInOrder s
      → IsInOrder (commit_action chart d action s)
  commit_action-IsInOrder d move s h sound = commit_dates-IsInOrder d _ s h sound
  commit_action-IsInOrder d resize_start s h sound = commit_dates-IsInOrder d _ s h sound
  commit_action-IsInOrder d resize_end s h sound = commit_dates-IsInOrder d _ s h sound
  commit_action-IsInOrder d progress s h sound = commit_progress-IsInOrder d.progress _ s sound
  commit_action-IsInOrder d link s h sound = commit_link-IsInOrder d.link_from_id _ s sound
  commit_action-IsInOrder d stage_move s h sound =
      commit_shift-IsInOrder d.shift_days d.stage_task_ids s sound
  commit_action-IsInOrder d schedule s h sound = commit_schedule-IsInOrder d _ s h sound

  click-IsInOrder :
      (id : Option String) (s : DragState) → IsInOrder s → IsInOrder (click chart id s)
  click-IsInOrder none s sound = sound
  click-IsInOrder (some id) s (shown, from, sent) = elim (Bool-cases (is_empty_text id)) [
    | inl empty ↦ rw empty (shown, from, sent)
    | inr given ↦ rw given (shown, from, sent)
  ]

  released-IsInOrder :
      (e : PointerEvent) (last : GanttDrag) (s : DragState)
      → IsOrdered last.start_date last.end_date
      → IsInOrder s
      → IsInOrder (released chart e last s)
  unfolding commit
  released-IsInOrder e last s h sound = elim (Bool-cases last.moved) [
    | inl moved ↦ elim (Bool-cases (is_link last.action)) [
      | inl linked ↦
          rw (moved, linked)
            (commit_action-IsInOrder
              (record last { link_target_id = bar_id_at_point e last.task_id; moved = true })
              last.action s h sound)
      | inr other ↦ elim (Bool-cases (is_schedule last.action && not e.over_chart)) [
        | inl outside ↦ rw (moved, other, outside) sound
        | inr inside ↦
            rw (moved, other, inside)
              (commit_action-IsInOrder (record last { moved = true }) last.action s h sound)
      ]
    ]
    | inr clicked ↦ elim (Bool-cases (is_clickable last.action)) [
      | inl on_bar ↦ rw (clicked, on_bar) (click-IsInOrder last.task_id s sound)
      | inr nothing ↦ rw (clicked, nothing) sound
    ]
  ]

  up_from-IsInOrder :
      (d : Option GanttDrag) (o : Option Origin) (e : PointerEvent) (s : DragState)
      → DragIsOrdered d
      → IsInOrder s
      → IsInOrder (up_from chart d o e s)
  up_from-IsInOrder d none e s h sound = sound
  up_from-IsInOrder none (some o) e s h (shown, from, sent) = (tt, tt, sent)
  up_from-IsInOrder (some last) (some o) e s h (shown, from, sent) =
      released-IsInOrder e last (cleanup_state chart s) h (tt, tt, sent)

  step-IsInOrder :
      (ev : DragEvent) (s : DragState)
      → IsAllowed ev s
      → IsInOrder s
      → IsInOrder (step zone chart ev s)
  unfolding start_bar_drag start_stage_drag start_backlog_drag on_move on_up on_escape
  step-IsInOrder (bar_pressed e task action) s ok sound = elim (Bool-cases (is_stage_move action)) [
    | inl stage ↦ rw stage sound
    | inr bar ↦ rw bar (begin-IsInOrder e (bar_drag task action) s ok sound)
  ]
  step-IsInOrder (stage_pressed e stage ids) s ok sound =
      begin-IsInOrder e _ s (inl (refl, refl)) sound
  step-IsInOrder (backlog_pressed e task) s ok sound =
      begin-IsInOrder e _ s (inl (refl, refl)) sound
  step-IsInOrder (pointer_moved e) s ok (shown, from, sent) =
      move_from-IsInOrder s.drag s.origin e s ok from (shown, from, sent)
  step-IsInOrder (pointer_up e) s ok (shown, from, sent) =
      up_from-IsInOrder s.drag s.origin e s shown (shown, from, sent)
  step-IsInOrder escape s ok (shown, from, sent) = (tt, tt, sent)

  -- Whatever is pressed, however the pointer moves and wherever it is released, no bar that is
  -- shown and no schedule that is sent ends before it starts, as long as no pressed bar does, and
  -- no move takes a date out of the years of four digits.
  pub run-IsInOrder :
      (evs : List DragEvent) (s : DragState)
      → AreAllowed evs s
      → IsInOrder s
      → IsInOrder (run zone chart evs s)
  unfolding run
  run-IsInOrder [] s ok sound = sound
  run-IsInOrder (ev ∷ evs) s (ok, later) sound =
      run-IsInOrder evs (step zone chart ev s) later (step-IsInOrder ev s ok sound)
