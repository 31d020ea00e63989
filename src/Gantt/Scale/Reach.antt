-- ===== src/Gantt/Scale/Reach.antt =====
-- How far the columns of `buildScale` of web/src/tasks/gantt/ganttMath.ts go.
use fusion_on_prem_server.Base.{
  ℕ, zero, suc, ◌+◌, ◌≤◌, ◌<◌, ◌≡◌, refl, List, [], ◌∷◌, leb, length, Bool-cases, inl, inr, arith,
}
use fusion_on_prem_server.Gantt.Scale.{
  TimeUnit, day, week, month, GanttCol, unit_start, next_unit, pad_cols, col_from, padding, columns,
  first_start, last_end,
}
use fusion_on_prem_server.Gantt.Scale.Columns.{
  IsChain, next_unit_gt, next_unit_past, padding-IsChain,
}

last_end-cons :
    (x y : GanttCol) (cols : List GanttCol) → last_end (x ∷ y ∷ cols) ≡ last_end (y ∷ cols)
last_end-cons x y cols = refl

-- Columns in a row start where they are said to, and end later.
pub chain_ends :
    (c : ℕ) (cols : List GanttCol)
    → IsChain c cols
    → 1 ≤ length cols
    → (first_start cols ≡ c) × (c < last_end cols)
chain_ends c [] h full = absurd (omega arith)
chain_ends c (x ∷ []) (at, less, h) full = (at, less)
chain_ends c (x ∷ y ∷ cols) (at, less, h) full =
    let (next, later) = chain_ends x.end (y ∷ cols) h (omega arith) in (at, omega arith)

length-padding : (unit : TimeUnit) (c : ℕ) → 1 ≤ length (padding (pad_cols unit) unit c)
unfolding padding
length-padding day c = omega arith
length-padding week c = omega arith
length-padding month c = omega arith

pub length-columns : (n : ℕ) (unit : TimeUnit) (max c : ℕ) → 1 ≤ length (columns n unit max c)
unfolding columns
length-columns zero unit max c = length-padding unit c
length-columns (suc n) unit max c = elim (Bool-cases (leb c max)) [
  | inl more ↦ rw (more, columns) (omega arith)
  | inr enough ↦ rw (enough, columns) (length-padding unit c)
]

last_end-tail :
    (x : GanttCol) (cols : List GanttCol) → 1 ≤ length cols → last_end (x ∷ cols) ≡ last_end cols
last_end-tail x [] h = absurd (omega arith)
last_end-tail x (y ∷ cols) h = refl

-- The columns go past `max`, if the guard leaves as many as there are days.
pub columns-reach :
    (n : ℕ) (unit : TimeUnit) (max c : ℕ) → max < c + n → max < last_end (columns n unit max c)
unfolding columns
columns-reach zero unit max c h =
    let (start, past) =
      chain_ends c (padding (pad_cols unit) unit c) (padding-IsChain (pad_cols unit) unit c)
        (length-padding unit c) in
    omega arith
columns-reach (suc n) unit max c h = elim (Bool-cases (leb c max)) [
  | inl more ↦
      rw (more, columns)
        (rw
          (last_end-tail (col_from unit c) (columns n unit max (next_unit c unit))
            (length-columns n unit max (next_unit c unit)))
          (columns-reach n unit max (next_unit c unit)
            (let up = next_unit_gt c unit in omega arith)))
  | inr enough ↦
      let (start, past) =
        chain_ends c (padding (pad_cols unit) unit c) (padding-IsChain (pad_cols unit) unit c)
          (length-padding unit c) in
      rw (enough, columns) (let over : max < c = ground arith in omega arith)
]

past_first :
    (x : GanttCol) (cols : List GanttCol) → IsChain x.end cols → x.end ≤ last_end (x ∷ cols)
past_first x [] h = omega arith
past_first x (y ∷ cols) h =
    let (at, later) = chain_ends x.end (y ∷ cols) h (omega arith) in omega arith

first_padding :
    (unit : TimeUnit) (c : ℕ) → next_unit c unit ≤ last_end (padding (pad_cols unit) unit c)
unfolding padding
first_padding day c =
    past_first (col_from day c) (padding 6 day (next_unit c day))
      (padding-IsChain 6 day (next_unit c day))
first_padding week c =
    past_first (col_from week c) (padding 3 week (next_unit c week))
      (padding-IsChain 3 week (next_unit c week))
first_padding month c =
    past_first (col_from month c) (padding 1 month (next_unit c month))
      (padding-IsChain 1 month (next_unit c month))

-- The trailing columns of a unit end after every day whose unit starts before them.
padding-past :
    (unit : TimeUnit) (c t : ℕ)
    → unit_start t unit ≤ c
    → t < last_end (padding (pad_cols unit) unit c)
padding-past unit c t from = elim (Bool-cases (leb c t)) [
  | inl to ↦
      let ends = next_unit_past t c unit from (ground arith) in
      let first = first_padding unit c in omega arith
  | inr past ↦
      let over : t < c = ground arith in
      let (start, later) =
        chain_ends c (padding (pad_cols unit) unit c) (padding-IsChain (pad_cols unit) unit c)
          (length-padding unit c) in
      omega arith
]

pub columns-past :
    (n : ℕ) (unit : TimeUnit) (max c t : ℕ)
    → unit_start t unit ≤ max
    → max < c + n
    → t < last_end (columns n unit max c)
unfolding columns
columns-past zero unit max c t from h = padding-past unit c t (omega arith)
columns-past (suc n) unit max c t from h = elim (Bool-cases (leb c max)) [
  | inl more ↦
      rw (more, columns)
        (rw
          (last_end-tail (col_from unit c) (columns n unit max (next_unit c unit))
            (length-columns n unit max (next_unit c unit)))
          (columns-past n unit max (next_unit c unit) t from
            (let up = next_unit_gt c unit in omega arith)))
  | inr enough ↦
      let over : max < c = ground arith in
      rw (enough, columns) (padding-past unit c t (omega arith))
]
