-- ===== src/Gantt/Scale/Search.antt =====
-- The binary search of `dateToX` of web/src/tasks/gantt/ganttMath.ts.
use fusion_on_prem_server.Base.{
  ℕ, zero, suc, ◌+◌, ◌-◌, ◌/◌, ◌≤◌, ◌<◌, ◌≡◌, refl, ap, List, [], ◌∷◌, leb, ltb, length, Bool-cases,
  inl, inr, arith,
}
use fusion_on_prem_server.Dates.{get_time}
use fusion_on_prem_server.Dates.Zone.{IsZone, leb-get_time}
use fusion_on_prem_server.Gantt.Scale.{GanttCol, col_at, last_end, find_col}
use fusion_on_prem_server.Gantt.Scale.Columns.{IsChain}

-- The column holds the date.
abbrev pub Holds : ℕ → GanttCol → Type 0
Holds date col = (col.start ≤ date) × (date < col.end)

chain_next :
    (c : ℕ) (cols : List GanttCol) (i : ℕ)
    → IsChain c cols
    → suc i < length cols
    → (col_at cols (suc i)).start ≡ (col_at cols i).end
chain_next c [] i h more = absurd (omega arith)
chain_next c (x ∷ []) i h more = absurd (omega arith)
chain_next c (x ∷ y ∷ cols) zero (at, less, (next, longer, h)) more = next
chain_next c (x ∷ y ∷ cols) (suc i) (at, less, h) more =
    chain_next x.end (y ∷ cols) i h (omega arith)

last_at :
    (x : GanttCol) (xs : List GanttCol) → (col_at (x ∷ xs) (length xs)).end ≡ last_end (x ∷ xs)
last_at x [] = refl
last_at x (y ∷ ys) = last_at y ys

-- A date that the columns have is not before the first nor after the last of them.
within_ends :
    (c : ℕ) (cols : List GanttCol) (date : ℕ)
    → IsChain c cols
    → c ≤ date
    → date < last_end cols
    → (1 ≤ length cols)
      × ((col_at cols 0).start ≤ date)
      × (date < (col_at cols (length cols - 1)).end)
within_ends c [] date h after before = absurd (omega arith)
within_ends c (x ∷ xs) date (at, less, h) after before =
    let last = last_at x xs in
    let same : suc (length xs) - 1 ≡ length xs = omega arith in
    let at' = ap (λ i. (col_at (x ∷ xs) i).end) same in (omega arith, omega arith, omega arith)

module _ (zone : ℕ → ℕ) (steady : IsZone zone) (c : ℕ) (cols : List GanttCol)
    (chain : IsChain c cols) (date : ℕ) where
  -- The search between two columns ends at the one that holds the date, in as many rounds as there are
  -- columns between them.
  find_col-between :
      (fuel lo hi : ℕ)
      → hi ≤ lo + fuel
      → lo ≤ hi
      → hi < length cols
      → (col_at cols lo).start ≤ date
      → date < (col_at cols hi).end
      → Holds date (col_at cols (find_col zone fuel cols date lo hi))
        × (find_col zone fuel cols date lo hi ≤ hi)
  unfolding find_col
  find_col-between zero lo hi enough order inside after before =
      let same : lo ≡ hi = omega arith in
      let at = ap (λ i. (col_at cols i).end) same in ((after, omega arith), order)
  find_col-between (suc fuel) lo hi enough order inside after before =
      elim (Bool-cases (ltb lo hi)) [
        | inr met ↦
            let same : lo ≡ hi = ground arith in
            let at = ap (λ i. (col_at cols i).end) same in
            rw (met, find_col) ((after, omega arith), order)
        | inl apart ↦
            let less : lo < hi = ground arith in
            let mid = (lo + hi) / 2 in
            let by_days = leb-get_time zone steady (col_at cols mid).end date in
            elim (Bool-cases (leb (get_time zone (col_at cols mid).end) (get_time zone date))) [
              | inl passed ↦
                  rw (apart, find_col, passed)
                    (let next = chain_next c cols mid chain (omega arith) in
                      let plain : mid + 1 ≡ suc mid = omega arith in
                      let at = ap (λ i. (col_at cols i).start) plain in
                      let over : (col_at cols mid).end ≤ date = ground arith in
                      find_col-between fuel (mid + 1) hi (omega arith) (omega arith) inside
                        (omega arith) before)
              | inr ahead ↦
                  rw (apart, find_col, ahead)
                    (let under : date < (col_at cols mid).end = ground arith in
                      let (holds, bound) =
                        find_col-between fuel lo mid (omega arith) (omega arith) (omega arith) after
                          under in
                      (holds, omega arith))
            ]
      ]

  -- Of columns that follow each other, the binary search finds the one that holds a date of theirs,
  -- in at most as many rounds as there are columns, in a time zone whose offset changes by less
  -- than half a day.
  pub find_col-Holds :
      (fuel : ℕ)
      → length cols ≤ fuel
      → c ≤ date
      → date < last_end cols
      → Holds date (col_at cols (find_col zone fuel cols date 0 (length cols - 1)))
        × (find_col zone fuel cols date 0 (length cols - 1) < length cols)
  find_col-Holds fuel enough after before =
      let (full, from_first, to_last) = within_ends c cols date chain after before in
      let (holds, bound) =
        find_col-between fuel 0 (length cols - 1) (omega arith) (omega arith) (omega arith)
          from_first to_last in
      (holds, omega arith)
