-- ===== src/Gantt/Drag/Asked.antt =====
-- What a drag of web/src/tasks/gantt/useGanttDrag.ts asks of the tasks, told without the code that does it.
use fusion_on_prem_server.Base.{
  ◌↔◌, eq_iff, String, ◌≡◌, ◌⊎◌, inl, inr, refl, Bool, true, false, ◌&&◌, ◌||◌, Option, none, some,
  List, [], ◌∷◌, ◌++◌, map, any, or_else, is_some, str_eq, if◌then◌else◌, Bool-cases, arith,
}
use fusion_on_prem_server.Base.Int.{ℤ, pos}
use fusion_on_prem_server.Base.Text.{is_empty_text, is_empty_text_iff}
use fusion_on_prem_server.Dates.Format.{parse_day}
use fusion_on_prem_server.Gantt.Tasks.{
  Percent, nan, hundredths, Task, TaskList, TaskPatch, is_given,
}
use fusion_on_prem_server.Gantt.Drag.{
  DragAction, move, resize_start, resize_end, progress, link, stage_move, schedule, GanttDrag,
  Mutation, update, shift, DragState, Chart, no_patch, shift_date, fmt_day_of, moved_day,
}
use fusion_on_prem_server.Gantt.Drag.Commit.{same_text, find_task, shifted}

-- `a ?? b`, for a field that stays absent where neither has it.
abbrev pub or_field {ℓ} : {A : Type ℓ} → Option A → Option A → Option A
or_field none b = b
or_field (some a) b = some a

-- NaN goes out as null, like a field that is absent.
abbrev pub or_number : Option Percent → Option Percent → Option Percent
or_number none b = b
or_number (some nan) b = b
or_number (some (hundredths p)) b = some (hundredths p)

abbrev pub cleared {ℓ} : {A : Type ℓ} → Option Bool → Option A → Option A
cleared none a = a
cleared (some false) a = a
cleared (some true) a = none

-- What a patch means (the comment on `TaskPatch` in web/src/tasks/types.ts): absent fields stay untouched,
-- and a cleared one goes.
abbrev pub apply_patch : TaskPatch → Task → Task
apply_patch p t = record t {
  title = or_else p.title t.title;
  description = or_field p.description t.description;
  status = or_else p.status t.status;
  priority = or_else p.priority t.priority;
  due_date = cleared p.clear_due_date (or_field p.due_date t.due_date);
  assignee = cleared p.clear_assignee (or_field p.assignee t.assignee);
  doc_refs = or_else p.doc_refs t.doc_refs;
  rank = or_else p.rank t.rank;
  start_date = cleared p.clear_schedule (or_field p.start_date t.start_date);
  end_date = cleared p.clear_schedule (or_field p.end_date t.end_date);
  progress = or_number p.progress t.progress;
  milestone = cleared p.clear_schedule (or_field p.milestone t.milestone);
  depends_on = or_else p.depends_on t.depends_on;
  stage = or_field p.stage t.stage;
}

abbrev pub map_tasks : (Task → Task) → Option TaskList → Option TaskList
map_tasks f none = none
map_tasks f (some cur) = some (record cur { tasks = map f cur.tasks })

-- The dates a number of days on, where both are there.
abbrev pub shift_dates : ℤ → Option String → Option String → Task → Task
shift_dates days none end t = t
shift_dates days (some start) none t = t
shift_dates days (some start) (some end) t =
    if is_empty_text start || is_empty_text end then t else record t {
      start_date = some (fmt_day_of (moved_day days (parse_day start)));
      end_date = some (fmt_day_of (moved_day days (parse_day end)));
    }

pub shift_dates_lem :
    (days : ℤ) (start end : Option String) (t : Task)
    → (if is_given start && is_given end
        then record t { start_date = shift_date start days; end_date = shift_date end days }
        else t)
      ≡ shift_dates days start end t
unfolding shift_date
shift_dates_lem days none end t = refl
shift_dates_lem days (some start) none t = ground arith
shift_dates_lem days (some start) (some end) t = elim (Bool-cases (is_empty_text start)) [
  | inl e ↦ rw e refl
  | inr e ↦ elim (Bool-cases (is_empty_text end)) [
    | inl f ↦ rw (e, f) refl
    | inr f ↦ rw (e, f) refl
  ]
]

pub shifted_lem :
    (chart : Chart) (ids : List String) (days : ℤ) (t : Task)
    → shifted chart ids days t
      ≡ (if any (λ id. str_eq id t.id) ids then shift_dates days t.start_date t.end_date t else t)
shifted_lem chart ids days t = elim (Bool-cases (any (λ id. str_eq id t.id) ids)) [
  | inl here ↦ rw here (shift_dates_lem days t.start_date t.end_date t)
  | inr other ↦ rw other refl
]

pub same_text_iff : (chart : Chart) (a b : Option String) → (same_text chart a b ≡ true) ↔ (a ≡ b)
same_text_iff chart none none = (λ h. refl, λ h. refl)
same_text_iff chart none (some b) = ground arith
same_text_iff chart (some a) none = ground arith
same_text_iff chart (some a) (some b) = ground (arith, eq_iff a b)

pub is_given_iff : (o : Option String) → (is_given o ≡ false) ↔ (or_else o "" ≡ "")
is_given_iff none = (λ h. refl, λ h. refl)
is_given_iff (some s) = ground (arith, is_empty_text_iff s)

-- What the request asks of the tasks.
abbrev pub applied : Mutation → Option TaskList → Option TaskList
applied (update id patch) = map_tasks (λ t. if str_eq t.id id then apply_patch patch t else t)
applied (shift ids days) =
    map_tasks (λ t.
      if any (λ id. str_eq id t.id) ids then shift_dates days t.start_date t.end_date t else t)

-- The drag changes nothing of the task that it is about, or of its stage.
abbrev pub IsSameDates : GanttDrag → Option Task → Type 0
IsSameDates d none = Unit
IsSameDates d (some task) = (d.start_date ≡ task.start_date) × (d.end_date ≡ task.end_date)

abbrev pub IsSameProgress : Option Percent → Option Task → Type 0
IsSameProgress p none = Unit
IsSameProgress none (some task) = Unit
IsSameProgress (some nan) (some task) = ⊥
IsSameProgress (some (hundredths p)) (some task) =
    hundredths p ≡ or_else task.progress (hundredths 0)

abbrev pub IsNoLink : Option String → Option Task → Type 0
IsNoLink from_id none = Unit
IsNoLink none (some target) = Unit
IsNoLink (some from_id) (some target) =
    (from_id ≡ "")
    ⊎ ((target.id ≡ from_id) ⊎ (any (λ id. str_eq id from_id) target.depends_on ≡ true))

abbrev pub IsNoShift : Option ℤ → Option (List String) → Type 0
IsNoShift none ids = Unit
IsNoShift (some days) none = Unit
IsNoShift (some days) (some ids) = (days ≡ pos 0) ⊎ (ids ≡ [])

abbrev pub IsUndated : GanttDrag → Option Task → Type 0
IsUndated d none = Unit
IsUndated d (some task) = (or_else d.start_date "" ≡ "") ⊎ (or_else d.end_date "" ≡ "")

-- The request that the drag stands for.
abbrev pub AsksDates : GanttDrag → Option Task → Mutation → Type 0
AsksDates d none m = ⊥
AsksDates d (some task) m =
    m ≡ update task.id (record no_patch { start_date = d.start_date; end_date = d.end_date })

abbrev pub AsksProgress : Option Percent → Option Task → Mutation → Type 0
AsksProgress p none m = ⊥
AsksProgress p (some task) m = m ≡ update task.id (record no_patch { progress = p })

abbrev pub AsksLink : Option String → Option Task → Mutation → Type 0
AsksLink (some from_id) (some target) m =
    m ≡ update target.id (record no_patch { depends_on = some (target.depends_on ++ from_id ∷ []) })
AsksLink _ _ m = ⊥

abbrev pub AsksShift : Option ℤ → Option (List String) → Mutation → Type 0
AsksShift (some days) (some ids) m = m ≡ shift ids days
AsksShift _ _ m = ⊥

-- Nothing happened where there was nothing to do; else the request went out, once, and the cache holds
-- what it asks for.
abbrev pub IsOptimistic : Type 0 → (Mutation → Type 0) → DragState → DragState → Type 0
IsOptimistic Idle Asked s s' =
    (Idle × (s' ≡ s))
    ⊎ ((¬ Idle)
        × ((m : Mutation) × Asked m
            × (s' ≡ record s { cache = applied m s.cache; sent = s.sent ++ m ∷ [] })))

abbrev pub IsNumber : Option Percent → Type 0
IsNumber none = Unit
IsNumber (some nan) = ⊥
IsNumber (some (hundredths p)) = Unit

-- A drag that changes the schedule has both dates, and a percentage is a number.
abbrev pub IsComplete : DragAction → GanttDrag → Type 0
IsComplete move d = (is_some d.start_date ≡ true) × (is_some d.end_date ≡ true)
IsComplete resize_start d = (is_some d.start_date ≡ true) × (is_some d.end_date ≡ true)
IsComplete resize_end d = (is_some d.start_date ≡ true) × (is_some d.end_date ≡ true)
IsComplete progress d = IsNumber d.progress
IsComplete link d = Unit
IsComplete stage_move d = Unit
IsComplete schedule d = Unit

module _ (chart : Chart) where
  abbrev pub IsIdle : GanttDrag → DragAction → Type 0
  IsIdle d move = IsSameDates d (find_task chart d.task_id)
  IsIdle d resize_start = IsSameDates d (find_task chart d.task_id)
  IsIdle d resize_end = IsSameDates d (find_task chart d.task_id)
  IsIdle d progress = IsSameProgress d.progress (find_task chart d.task_id)
  IsIdle d link = IsNoLink d.link_from_id (find_task chart d.link_target_id)
  IsIdle d stage_move = IsNoShift d.shift_days d.stage_task_ids
  IsIdle d schedule = IsUndated d (find_task chart d.task_id)

  abbrev pub Asks : GanttDrag → DragAction → Mutation → Type 0
  Asks d move m = AsksDates d (find_task chart d.task_id) m
  Asks d resize_start m = AsksDates d (find_task chart d.task_id) m
  Asks d resize_end m = AsksDates d (find_task chart d.task_id) m
  Asks d progress m = AsksProgress d.progress (find_task chart d.task_id) m
  Asks d link m = AsksLink d.link_from_id (find_task chart d.link_target_id) m
  Asks d stage_move m = AsksShift d.shift_days d.stage_task_ids m
  Asks d schedule m = AsksDates d (find_task chart d.task_id) m
