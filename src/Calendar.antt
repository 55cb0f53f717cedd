-- ===== src/Calendar.antt =====
-- `Date.UTC` of the language, as the parsers and the time zone code call it: on whole numbers,
-- the month counted from 1 by the caller, any of them possibly out of range. The days are counted
-- from the first of January of the year 0 of the Gregorian calendar.
pub mod Days
pub mod Civil
use adms.Prelude.{
  ℕ, zero, suc, ◌+◌, ◌-◌, ◌*◌, ◌/◌, ◌%◌, ℤ, sub_ℕ, Bool, ◌&&◌, ◌||◌, not, eqb, ltb, leb,
  if◌then◌else◌,
}

pub record WallClock : Type 0 where
  pub year : ℕ
  pub month : ℕ
  pub day : ℕ
  pub hour : ℕ
  pub minute : ℕ
  pub second : ℕ

unfoldable pub days_before_year : ℕ → ℕ
days_before_year y = 365 * y + (y + 3) / 4 + (y + 399) / 400 - (y + 99) / 100

unfoldable pub is_leap : ℕ → Bool
is_leap y = eqb (y % 4) 0 && (not (eqb (y % 100) 0) || eqb (y % 400) 0)

-- Days of the months before the one with the number `m`, from 0, in a common year.
abbrev days_before_month_common : ℕ → ℕ
days_before_month_common zero = 0
days_before_month_common (suc zero) = 31
days_before_month_common (suc (suc zero)) = 59
days_before_month_common (suc (suc (suc zero))) = 90
days_before_month_common (suc (suc (suc (suc zero)))) = 120
days_before_month_common (suc (suc (suc (suc (suc zero))))) = 151
days_before_month_common (suc (suc (suc (suc (suc (suc zero)))))) = 181
days_before_month_common (suc (suc (suc (suc (suc (suc (suc zero))))))) = 212
days_before_month_common (suc (suc (suc (suc (suc (suc (suc (suc zero)))))))) = 243
days_before_month_common (suc (suc (suc (suc (suc (suc (suc (suc (suc zero))))))))) = 273
days_before_month_common (suc (suc (suc (suc (suc (suc (suc (suc (suc (suc zero)))))))))) = 304
days_before_month_common (suc (suc (suc (suc (suc (suc (suc (suc (suc (suc (suc m))))))))))) = 334

unfoldable pub days_before_month : ℕ → ℕ → ℕ
unfolding is_leap
days_before_month y m = days_before_month_common m + (if ltb 1 m && is_leap y then 1 else 0)

-- Two-digit years are of the twentieth century.
abbrev full_year : ℕ → ℕ
full_year y = if ltb y 100 then 1900 + y else y

-- `MakeDay`: months out of range carry into the year, and days add up.
unfoldable pub day_number : ℕ → ℕ → ℕ → ℕ
day_number year month day =
    let y = year + (month + 11) / 12 - 1 in
    days_before_year y + days_before_month y ((month + 11) % 12) + day - 1

abbrev pub epoch_day : ℕ
epoch_day = 719528

abbrev pub ms_per_day : ℕ
ms_per_day = 86_400_000

-- `Date.UTC(year, month - 1, day, hour, minute, second)`
unfoldable pub date_utc : WallClock → ℤ
date_utc w =
    sub_ℕ
      (day_number (full_year w.year) w.month w.day * ms_per_day
        + (w.hour * 3_600_000 + w.minute * 60_000 + w.second * 1000))
      (epoch_day * ms_per_day)
