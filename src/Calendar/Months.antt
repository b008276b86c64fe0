-- ===== src/Calendar/Months.antt =====
-- Due dates stay in their month: `dueDateForMonth` of backend/src/management.controller.ts.
use comandas_multitenant_off.Prelude.{ℕ, ◌≤◌, arith}
use comandas_multitenant_off.Calendar.{Date, rank, last_day, month_start, due_date_for_month}

-- A due date is a day of the month of its competence, no later than the due day and the month's
-- last one, and stands between the month's first day and the day that is due on the 31st.
pub due_date_in_month :
    (c : Date) (due_day : ℕ)
    → 1 ≤ due_day
    → (1 ≤ (due_date_for_month c due_day).day)
      × ((due_date_for_month c due_day).day ≤ due_day)
      × ((due_date_for_month c due_day).day ≤ last_day c.year c.month)
      × (rank (month_start c) ≤ rank (due_date_for_month c due_day))
      × (due_day ≤ 31 → rank (due_date_for_month c due_day) ≤ rank (due_date_for_month c 31))
unfolding last_day month_start due_date_for_month
due_date_in_month c due_day h = ground arith
