-- ===== src/Gantt/Scale/Cover.antt =====
-- What the scale of `buildScale` of web/src/tasks/gantt/ganttMath.ts covers.
use fusion_on_prem_server.Gantt.Scale.Reach.{
  chain_ends, length-columns, columns-reach, columns-past,
}
use fusion_on_prem_server.Base.{
  ℕ, ◌+◌, ◌-◌, ◌≤◌, ◌<◌, ◌≡◌, refl, Option, none, some, List, [], ◌∷◌, All, arith,
}
use fusion_on_prem_server.Gantt.Tasks.{Task, is_scheduled, is_given}
use fusion_on_prem_server.Gantt.Scale.{
  TimeUnit, Span, unit_start, step_back, pad_cols, guard_max, columns, lower, raise, dated, widen,
  span_of, build_scale,
}
use fusion_on_prem_server.Gantt.Scale.Columns.{
  IsChain, unit_start_le, step_back_le, columns-IsChain,
}

-- The dates of a task lie in the span.
abbrev pub Within : (lo hi : ℕ) → Task → Type 0
Within lo hi t =
    ((s : ℕ) → dated (is_scheduled t) t.start_date ≡ some s → lo ≤ s)
    × ((e : ℕ) → dated (is_scheduled t) t.end_date ≡ some e → e ≤ hi)
    × ((d : ℕ) → dated (is_given t.due_date) t.due_date ≡ some d → d ≤ hi)

lower_lem :
    (o : Option ℕ) (span : Span) → ((lower o span).min ≤ span.min) × ((lower o span).max ≡ span.max)
lower_lem none span = (omega arith, refl)
lower_lem (some s) span = ground arith

raise_lem :
    (o : Option ℕ) (span : Span) → ((raise o span).min ≡ span.min) × (span.max ≤ (raise o span).max)
raise_lem none span = (refl, omega arith)
raise_lem (some e) span = ground arith

lower-some : (o : Option ℕ) (span : Span) (s : ℕ) → o ≡ some s → (lower o span).min ≤ s
lower-some o span s h = rw h (ground arith)

raise-some : (o : Option ℕ) (span : Span) (e : ℕ) → o ≡ some e → e ≤ (raise o span).max
raise-some o span e h = rw h (ground arith)

module _ (t : Task) (span : Span) where
  abbrev started : Span
  started = lower (dated (is_scheduled t) t.start_date) span

  abbrev ended : Span
  ended = raise (dated (is_scheduled t) t.end_date) started

  widen_wider : ((widen t span).min ≤ span.min) × (span.max ≤ (widen t span).max)
  unfolding widen
  widen_wider =
      let (a, b) = lower_lem (dated (is_scheduled t) t.start_date) span in
      let (c, d) = raise_lem (dated (is_scheduled t) t.end_date) started in
      let (e, f) = raise_lem (dated (is_given t.due_date) t.due_date) ended in
      (omega arith, omega arith)

  widen-Within : Within (widen t span).min (widen t span).max t
  unfolding widen
  widen-Within =
      let (c, d) = raise_lem (dated (is_scheduled t) t.end_date) started in
      let (e, f) = raise_lem (dated (is_given t.due_date) t.due_date) ended in
      (
        λ s h.
            let reached = lower-some (dated (is_scheduled t) t.start_date) span s h in omega arith,
        λ s h.
            let reached = raise-some (dated (is_scheduled t) t.end_date) started s h in omega arith,
        λ s h. raise-some (dated (is_given t.due_date) t.due_date) ended s h,
      )

Within-wider :
    (lo hi lo' hi' : ℕ) (t : Task) → lo' ≤ lo → hi ≤ hi' → Within lo hi t → Within lo' hi' t
Within-wider lo hi lo' hi' t down up (start, end, due) = (
  λ s h. let inside = start s h in omega arith,
  λ s h. let inside = end s h in omega arith,
  λ s h. let inside = due s h in omega arith,
)

span_of_wider :
    (ts : List Task) (span : Span)
    → ((span_of ts span).min ≤ span.min) × (span.max ≤ (span_of ts span).max)
unfolding span_of
span_of_wider [] span = (omega arith, omega arith)
span_of_wider (t ∷ ts) span =
    let (a, b) = widen_wider t span in
    let (c, d) = span_of_wider ts (widen t span) in (omega arith, omega arith)

span_of-Within :
    (ts : List Task) (span : Span) → All (Within (span_of ts span).min (span_of ts span).max) ts
unfolding span_of
span_of-Within [] span = tt
span_of-Within (t ∷ ts) span =
    let (c, d) = span_of_wider ts (widen t span) in
    (
      Within-wider (widen t span).min (widen t span).max _ _ t c d (widen-Within t span),
      span_of-Within ts (widen t span),
    )

All-Within :
    (lo hi lo' hi' : ℕ) (ts : List Task)
    → lo' ≤ lo
    → hi ≤ hi'
    → All (Within lo hi) ts
    → All (Within lo' hi') ts
All-Within lo hi lo' hi' [] down up h = tt
All-Within lo hi lo' hi' (t ∷ ts) down up (ht, h) =
    (Within-wider lo hi lo' hi' t down up ht, All-Within lo hi lo' hi' ts down up h)

-- The scale's columns follow each other without a gap, each with a day at least, and as long as no
-- end or due date, nor the first day of the unit that today is in, lies 8000 days or more after its
-- start, it holds today, no scheduled task starts before it, and no scheduled task ends and no task
-- is due after it.
pub build_scale-Within :
    (tasks : List Task) (unit : TimeUnit) (today : ℕ)
    → (span_of tasks (record { min = unit_start today unit; max = unit_start today unit })).max
      < (build_scale tasks unit today).start + guard_max
    → IsChain (build_scale tasks unit today).start (build_scale tasks unit today).cols
      × ((build_scale tasks unit today).start ≤ today)
      × (today < (build_scale tasks unit today).end)
      × All
          (Within (build_scale tasks unit today).start ((build_scale tasks unit today).end - 1))
          tasks
unfolding build_scale
build_scale-Within tasks unit today few =
    let now : Span = record { min = unit_start today unit; max = unit_start today unit } in
    let span = span_of tasks now in
    let cursor = step_back (pad_cols unit) unit (unit_start span.min unit) in
    let cols = columns guard_max unit span.max cursor in
    let chain = columns-IsChain guard_max unit span.max cursor in
    let (first, past) =
      chain_ends cursor cols chain (length-columns guard_max unit span.max cursor) in
    let down = step_back_le (pad_cols unit) unit (unit_start span.min unit) in
    let down' = unit_start_le span.min unit in
    let reach = columns-reach guard_max unit span.max cursor (omega arith) in
    let (lower, upper) = span_of_wider tasks now in
    let today_past =
      columns-past guard_max unit span.max cursor today (omega arith) (omega arith) in
    let today_start = unit_start_le today unit in
    (
      rw first chain,
      omega arith,
      today_past,
      All-Within span.min span.max _ _ tasks (omega arith) (omega arith) (span_of-Within tasks now),
    )
