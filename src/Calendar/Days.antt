-- ===== src/Calendar/Days.antt =====
-- The day count against the rules of the Gregorian calendar.
use adms.Calendar.{
  days_before_year, is_leap, day_number, days_before_month, WallClock, eqb, suc, date_utc,
}
use adms.Prelude.{
  ℕ, ◌+◌, ◌≡◌, refl, arith, if◌then◌else◌, ◌<◌, eqb, ◌-◌, suc, ◌||◌, ◌≤◌, ◌/◌, zero, ◌%◌, pos,
}

year_zero : day_number 1970 1 1 ≡ 719528
unfolding day_number days_before_year days_before_month
year_zero = refl

pub days_before_year_suc :
    (y : ℕ) → days_before_year (y + 1) ≡ days_before_year y + (if is_leap y then 366 else 365)
unfolding days_before_year is_leap
days_before_year_suc y = ground arith

-- The length of a month by its number, from 1.
unfoldable pub days_in_month : ℕ → ℕ → ℕ
days_in_month y m =
    if eqb m 2
    then if is_leap y then 29 else 28
    else if eqb m 4 || eqb m 6 || eqb m 9 || eqb m 11
    then 30
    else 31

pub record IsDate (w : WallClock) : Type 0 where
  pub year_from_100 : 100 ≤ w.year
  pub month_from_1 : 1 ≤ w.month
  pub month_to_12 : w.month ≤ 12
  pub day_from_1 : 1 ≤ w.day
  pub day_in_month : w.day ≤ days_in_month w.year w.month

pub day_number_of_month :
    (y m d : ℕ)
    → m < 12
    → day_number y (m + 1) d ≡ days_before_year y + days_before_month y m + d - 1
unfolding day_number
day_number_of_month y m d h =
    let quotient : (m + 1 + 11) / 12 ≡ 1 = omega arith in
    let remainder : (m + 1 + 11) % 12 ≡ m = omega arith in
    let same : y + 1 - 1 ≡ y = omega arith in rw (quotient, remainder, same) refl

pub days_before_month-suc :
    (y m : ℕ)
    → m < 11
    → days_before_month y (suc m) ≡ days_before_month y m + days_in_month y (suc m)
unfolding days_before_month days_in_month
days_before_month-suc y zero h = ground arith
days_before_month-suc y (suc zero) h = ground arith
days_before_month-suc y (suc (suc zero)) h = ground arith
days_before_month-suc y (suc (suc (suc zero))) h = ground arith
days_before_month-suc y (suc (suc (suc (suc zero)))) h = ground arith
days_before_month-suc y (suc (suc (suc (suc (suc zero))))) h = ground arith
days_before_month-suc y (suc (suc (suc (suc (suc (suc zero)))))) h = ground arith
days_before_month-suc y (suc (suc (suc (suc (suc (suc (suc zero))))))) h = ground arith
days_before_month-suc y (suc (suc (suc (suc (suc (suc (suc (suc zero)))))))) h = ground arith
days_before_month-suc y (suc (suc (suc (suc (suc (suc (suc (suc (suc zero))))))))) h = ground arith
days_before_month-suc y (suc (suc (suc (suc (suc (suc (suc (suc (suc (suc zero)))))))))) h =
    ground arith
days_before_month-suc y (suc (suc (suc (suc (suc (suc (suc (suc (suc (suc (suc m))))))))))) h =
    absurd (omega arith)

pub year_days :
    (y : ℕ) → days_before_month y 11 + days_in_month y 12 ≡ (if is_leap y then 366 else 365)
unfolding days_before_month days_in_month
year_days y = ground arith

date_utc-epoch :
    date_utc (record { year = 1970; month = 1; day = 1; hour = 0; minute = 0; second = 0 }) ≡ pos 0
unfolding date_utc day_number days_before_year days_before_month
date_utc-epoch = refl
