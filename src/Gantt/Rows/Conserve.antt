-- ===== src/Gantt/Rows/Conserve.antt =====
-- Which tasks the rows of web/src/tasks/gantt/ganttMath.ts show.
use mathlib.Core.List.{flat_map, Perm, append_assoc, append-nil, perm_append_comm, perm_middle}
use mathlib.Core.List.Perm
use mathlib.Core.Path.{subst}
use fusion_on_prem_server.Base.{
  ℕ, String, ◌≡◌, refl, sym, ap, ◌∙◌, false, List, [], ◌∷◌, ◌++◌, map, filter, or_else, str_eq,
  Bool-cases, inl, inr,
}
use fusion_on_prem_server.Base.Dict.{Dict, lookup, insert}
use fusion_on_prem_server.Base.Sort.{sort_by, sort_by-perm, flat_map-sort_by, flat_map-append}
use fusion_on_prem_server.Base.Text.{is_empty_text}
use fusion_on_prem_server.Gantt.Tasks.{Task, is_scheduled}
use fusion_on_prem_server.Gantt.Rows.{
  GanttRow, task_row_of, stage_row_of, task_row, stage_of, not_after, Groups, add_to, group_task,
  group_tasks, Block, stage_block, task_block, key_not_after, rows_of, row_model,
}

-- The tasks that a row shows as bars of their own.
abbrev pub bars : GanttRow → List Task
bars (task_row_of key task start end progress) = task ∷ []
bars (stage_row_of key stage tasks start end progress collapsed) = []

abbrev block_bars : Block → List Task
block_bars b = flat_map bars b.rows

staged : Dict (List Task) → List Task
staged [] = []
staged ((stage, tasks) ∷ m) = tasks ++ staged m

abbrev all_of : Groups → List Task
all_of g = staged g.by_stage ++ g.loose

add_to-perm :
    (stage : String) (t : Task) (m : Dict (List Task))
    → Perm (staged (add_to stage t m)) (t ∷ staged m)
unfolding staged
add_to-perm stage t [] = Perm.refl _
add_to-perm stage t ((j, tasks) ∷ m) = elim (Bool-cases (str_eq j stage)) [
  | inl same ↦ rw same (
      Perm.trans
        (subst (λ l. Perm l (tasks ++ t ∷ staged m)) (sym (append_assoc tasks (t ∷ []) (staged m)))
          (Perm.refl _))
        (perm_middle tasks (staged m)))
  | inr other ↦
      let found : lookup stage ((j, tasks) ∷ m) ≡ lookup stage m = rw other refl in
      let later : insert stage (or_else (lookup stage m) [] ++ t ∷ []) ((j, tasks) ∷ m)
          ≡ (j, tasks) ∷ add_to stage t m =
        rw other refl in
      subst (λ d. Perm (staged d) (t ∷ (tasks ++ staged m)))
        (sym (ap (λ o. insert stage (or_else o [] ++ t ∷ []) ((j, tasks) ∷ m)) found ∙ later))
        (Perm.trans (Perm.append_left tasks (add_to-perm stage t m)) (perm_middle tasks (staged m)))
]

group_task-perm : (t : Task) (g : Groups) → Perm (all_of (group_task t g)) (t ∷ all_of g)
unfolding group_task
group_task-perm t g = elim (Bool-cases (is_empty_text (stage_of t))) [
  | inl none_given ↦ rw none_given (
      Perm.trans (Perm.append_left (staged g.by_stage) (perm_append_comm g.loose (t ∷ [])))
        (perm_middle (staged g.by_stage) g.loose))
  | inr given ↦ rw given (Perm.append_right g.loose (add_to-perm (stage_of t) t g.by_stage))
]

group_tasks-perm : (ts : List Task) (g : Groups) → Perm (all_of (group_tasks ts g)) (ts ++ all_of g)
unfolding group_tasks
group_tasks-perm [] g = Perm.refl _
group_tasks-perm (t ∷ ts) g =
    Perm.trans (group_tasks-perm ts (group_task t g))
      (Perm.trans (Perm.append_left ts (group_task-perm t g)) (perm_middle ts (all_of g)))

bars-map : (ts : List Task) → flat_map bars (map task_row ts) ≡ ts
unfolding flat_map task_row
bars-map [] = refl
bars-map (t ∷ ts) = ap (λ l. t ∷ l) (bars-map ts)

module _ (zone : ℕ → ℕ) where
  bars-rows_of : (bs : List Block) → flat_map bars (rows_of zone bs) ≡ flat_map block_bars bs
  unfolding flat_map
  bars-rows_of [] = refl
  bars-rows_of (b ∷ bs) =
      flat_map-append bars b.rows (rows_of zone bs)
      ∙ ap (λ l. flat_map bars b.rows ++ l) (bars-rows_of bs)

  stage_blocks-perm :
      (m : Dict (List Task))
      → Perm (flat_map block_bars (map (stage_block zone (λ stage. false)) m)) (staged m)
  unfolding flat_map stage_block staged
  stage_blocks-perm [] = Perm.refl _
  stage_blocks-perm ((stage, tasks) ∷ m) =
      Perm.append
        (subst (λ l. Perm l tasks) (sym (bars-map (sort_by not_after tasks)))
          (sort_by-perm not_after tasks))
        (stage_blocks-perm m)

  task_blocks : (ts : List Task) → flat_map block_bars (map (task_block zone) ts) ≡ ts
  unfolding flat_map task_row
  task_blocks [] = refl
  task_blocks (t ∷ ts) = ap (λ l. t ∷ l) (task_blocks ts)

  -- While no stage is collapsed, every scheduled task has one bar, and no other task has one.
  pub row_model-perm :
      (tasks : List Task)
      → Perm (flat_map bars (row_model zone tasks (λ stage. false))) (filter is_scheduled tasks)
  unfolding row_model staged
  row_model-perm tasks =
      let g = group_tasks (filter is_scheduled tasks) (record { by_stage = []; loose = [] }) in
      let stages = map (stage_block zone (λ stage. false)) g.by_stage in
      let singles = map (task_block zone) (sort_by not_after g.loose) in
      let sorted = sort_by (key_not_after zone) (stages ++ singles) in
      subst (λ l. Perm l (filter is_scheduled tasks)) (sym (bars-rows_of sorted))
        (Perm.trans (flat_map-sort_by (key_not_after zone) block_bars (stages ++ singles)) (
          subst (λ l. Perm l (filter is_scheduled tasks))
            (sym (flat_map-append block_bars stages singles))
            (Perm.trans
              (Perm.append (stage_blocks-perm g.by_stage) (
                subst (λ l. Perm l g.loose) (sym (task_blocks (sort_by not_after g.loose)))
                  (sort_by-perm not_after g.loose)))
              (subst (Perm (all_of g)) (append-nil (filter is_scheduled tasks)) (
                group_tasks-perm (filter is_scheduled tasks)
                  (record { by_stage = []; loose = [] }))))))
