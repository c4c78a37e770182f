-- ===== src/Billing/Calendar.antt =====
-- billing/service.ts: `computePeriodStart` and `computePeriodEnd`, the bounds of the UTC month of a time.
use medusa_multi_tenancy.Prelude.{
  ℕ, zero, suc, ◌+◌, ◌-◌, ◌*◌, ◌/◌, ◌%◌, ◌≤◌, ◌<◌, Bool, not, ◌&&◌, ◌||◌, arith, ltb, if◌then◌else◌,
  ◌==◌, Bool-cases, inl, inr,
}

abbrev pub day_ms : ℕ
day_ms = 86400000

is_leap : ℕ → Bool
is_leap year = year % 4 == 0 && (not (year % 100 == 0) || year % 400 == 0)

-- the length of a month, counted from January 1970
unfoldable days_in_month : ℕ → ℕ
unfolding is_leap
days_in_month month =
    let m = month % 12 in
    if m == 1
    then if is_leap (1970 + month / 12) then 29 else 28
    else if m == 3 || m == 5 || m == 8 || m == 10
    then 30
    else 31

-- The first day and the length of the month that holds the day `start + rest`, from a month that
-- begins at `start` on. The months of the walk are not empty, so as many as there are days suffice.
walk : ℕ → ℕ → ℕ → ℕ → ℕ × ℕ
walk zero month start rest = (start, days_in_month month)
walk (suc fuel) month start rest =
    let later = walk fuel (month + 1) (start + days_in_month month) (rest - days_in_month month) in
    if ltb rest (days_in_month month) then (start, days_in_month month) else later

month_of_day : ℕ → ℕ × ℕ
unfolding walk days_in_month
month_of_day day = walk day 0 0 day

unfoldable pub compute_period_start : ℕ → ℕ
unfolding month_of_day
compute_period_start date = (month_of_day (date / day_ms)).0 * day_ms

unfoldable pub compute_period_end : ℕ → ℕ
unfolding month_of_day
compute_period_end date =
    ((month_of_day (date / day_ms)).0 + (month_of_day (date / day_ms)).1) * day_ms

days_in_month-pos : (month : ℕ) → 28 ≤ days_in_month month
unfolding days_in_month
days_in_month-pos month = ground arith

walk-holds :
    (fuel month start rest : ℕ)
    → rest ≤ fuel
    → (start ≤ (walk fuel month start rest).0)
      × ((walk fuel month start rest).0 ≤ start + rest)
      × (start + rest < (walk fuel month start rest).0 + (walk fuel month start rest).1)
unfolding walk
walk-holds zero month start rest h = omega (arith, days_in_month-pos month)
walk-holds (suc fuel) month start rest h = elim (Bool-cases (ltb rest (days_in_month month))) [
  | inl inside ↦ ground (arith, inside)
  | inr beyond ↦ ground (
    arith,
    beyond,
    days_in_month-pos month,
    walk-holds fuel (month + 1) (start + days_in_month month) (rest - days_in_month month),
  )
]

-- A time lies in its own billing period: not before the start, and before the end.
pub period_holds :
    (date : ℕ) → (compute_period_start date ≤ date) × (date < compute_period_end date)
unfolding compute_period_start compute_period_end month_of_day
period_holds date = omega (arith, walk-holds (date / day_ms) 0 0 (date / day_ms))
