-- ===== src/Calendar/Civil.antt =====
-- The UTC getters of the language's `Date`, as src/webhooks/dispatcher.ts calls them, for times from
-- the year 0 on.
use adms.Calendar.{
  date_utc, day_number, full_year, is_leap, WallClock, days_before_year, days_before_month,
  epoch_day, ms_per_day, sub_ℕ,
}
use adms.Calendar.Days.{IsDate, day_number_of_month, days_before_year_suc, days_in_month}
use adms.Prelude.{
  ap, refl, inl, inr, Bool-cases, sym, ◌∙◌, suc, zero, eqb, ℕ, ◌+◌, ◌-◌, ◌*◌, ◌/◌, ◌%◌, ◌≤◌, ◌<◌, ℤ,
  pos_part, neg_part, leb, ltb, if◌then◌else◌, arith, ◌≡◌, sub_ℕ,
}

-- The year of a day: near the mean length of a year, and at most one off.
unfoldable pub year_of_day : ℕ → ℕ
year_of_day n =
    let y = n * 400 / 146097 in
    if leb (days_before_year (y + 1)) n
    then y + 1
    else if leb (days_before_year y) n
    then y
    else y - 1

-- The month, from 1, of a day of a year, from 0.
unfoldable pub month_of_day : ℕ → ℕ → ℕ
month_of_day y r =
    if ltb r (days_before_month y 1)
    then 1
    else if ltb r (days_before_month y 2)
    then 2
    else if ltb r (days_before_month y 3)
    then 3
    else if ltb r (days_before_month y 4)
    then 4
    else if ltb r (days_before_month y 5)
    then 5
    else if ltb r (days_before_month y 6)
    then 6
    else if ltb r (days_before_month y 7)
    then 7
    else if ltb r (days_before_month y 8)
    then 8
    else if ltb r (days_before_month y 9)
    then 9
    else if ltb r (days_before_month y 10)
    then 10
    else if ltb r (days_before_month y 11)
    then 11
    else 12

abbrev on_day : ℕ → ℕ → ℕ → ℕ → WallClock
on_day y r month ms = record {
  year = y;
  month = month;
  day = r - days_before_month y (month - 1) + 1;
  hour = ms / 3_600_000;
  minute = ms / 60_000 % 60;
  second = ms / 1000 % 60;
}

abbrev clock_of_day : ℕ → ℕ → WallClock
clock_of_day n ms =
    let y = year_of_day n in let r = n - days_before_year y in on_day y r (month_of_day y r) ms

-- Milliseconds since the beginning of the year 0.
abbrev since_zero : ℤ → ℕ
since_zero t = pos_part t + epoch_day * ms_per_day - neg_part t

-- `getUTCFullYear`, `getUTCMonth` (from 1), `getUTCDate`, `getUTCHours`, `getUTCMinutes` and
-- `getUTCSeconds`
unfoldable pub utc_clock : ℤ → WallClock
unfolding year_of_day month_of_day days_before_year days_before_month
utc_clock t = clock_of_day (since_zero t / ms_per_day) (since_zero t % ms_per_day)

-- `getUTCMilliseconds`
unfoldable pub utc_milliseconds : ℤ → ℕ
utc_milliseconds t = since_zero t % 1000

year_near :
    (n y : ℕ)
    → days_before_year y ≤ n
    → n < days_before_year (y + 1)
    → (n * 400 / 146097 ≤ y + 1) × (y ≤ n * 400 / 146097 + 1)
unfolding days_before_year
year_near n y h k = (omega arith, omega arith)

days_before_year_mono : (y : ℕ) → days_before_year y ≤ days_before_year (y + 1)
unfolding days_before_year
days_before_year_mono y = omega arith

abbrev pick_year : ℕ → ℕ → ℕ
pick_year n y =
    if leb (days_before_year (y + 1)) n
    then y + 1
    else if leb (days_before_year y) n
    then y
    else y - 1

pick_year_early : (n y : ℕ) → days_before_year (y + 1) ≤ n → pick_year n y ≡ y + 1
pick_year_early n y h = ground arith

pick_year_exact :
    (n y : ℕ) → days_before_year y ≤ n → n < days_before_year (y + 1) → pick_year n y ≡ y
pick_year_exact n y h k = ground arith

pick_year_late : (n y : ℕ) → n < days_before_year (y + 1) → pick_year n (y + 1) ≡ y
pick_year_late n y h = ground (arith, days_before_year_mono (y + 1))

year_of_day_lem :
    (n y : ℕ) → days_before_year y ≤ n → n < days_before_year (y + 1) → year_of_day n ≡ y
unfolding year_of_day
year_of_day_lem n y h k = go (n * 400 / 146097) (year_near n y h k).0 (year_near n y h k).1
  where
    go : (e : ℕ) → e ≤ y + 1 → y ≤ e + 1 → pick_year n e ≡ y
    go e above below = elim (Bool-cases (eqb e y)) [
      | inl same ↦ let at : e ≡ y = ground arith in rw at (pick_year_exact n y h k)
      | inr other ↦ elim (Bool-cases (ltb e y)) [
        | inl less ↦
            let at : y ≡ e + 1 = ground arith in
            let early : days_before_year (e + 1) ≤ n = rw at at h in
            pick_year_early n e early ∙ sym at
        | inr more ↦ let at : e ≡ y + 1 = ground arith in rw at (pick_year_late n y k)
      ]
    ]

month_of_day_lem :
    (y m d : ℕ)
    → m < 12
    → d < days_in_month y (suc m)
    → month_of_day y (days_before_month y m + d) ≡ suc m
unfolding month_of_day days_before_month days_in_month
month_of_day_lem y zero d h k = ground arith
month_of_day_lem y (suc zero) d h k = ground arith
month_of_day_lem y (suc (suc zero)) d h k = ground arith
month_of_day_lem y (suc (suc (suc zero))) d h k = ground arith
month_of_day_lem y (suc (suc (suc (suc zero)))) d h k = ground arith
month_of_day_lem y (suc (suc (suc (suc (suc zero))))) d h k = ground arith
month_of_day_lem y (suc (suc (suc (suc (suc (suc zero)))))) d h k = ground arith
month_of_day_lem y (suc (suc (suc (suc (suc (suc (suc zero))))))) d h k = ground arith
month_of_day_lem y (suc (suc (suc (suc (suc (suc (suc (suc zero)))))))) d h k = ground arith
month_of_day_lem y (suc (suc (suc (suc (suc (suc (suc (suc (suc zero))))))))) d h k = ground arith
month_of_day_lem y (suc (suc (suc (suc (suc (suc (suc (suc (suc (suc zero)))))))))) d h k =
    ground arith
month_of_day_lem y (suc (suc (suc (suc (suc (suc (suc (suc (suc (suc (suc zero))))))))))) d h k =
    ground arith
month_of_day_lem y (suc (suc (suc (suc (suc (suc (suc (suc (suc (suc (suc (suc m)))))))))))) d h k =
    absurd (omega arith)

-- No month goes over the end of its year.
month_end :
    (y m : ℕ)
    → m < 12
    → days_before_month y m + days_in_month y (suc m) ≤ (if is_leap y then 366 else 365)
unfolding days_before_month days_in_month
month_end y zero h = ground arith
month_end y (suc zero) h = ground arith
month_end y (suc (suc zero)) h = ground arith
month_end y (suc (suc (suc zero))) h = ground arith
month_end y (suc (suc (suc (suc zero)))) h = ground arith
month_end y (suc (suc (suc (suc (suc zero))))) h = ground arith
month_end y (suc (suc (suc (suc (suc (suc zero)))))) h = ground arith
month_end y (suc (suc (suc (suc (suc (suc (suc zero))))))) h = ground arith
month_end y (suc (suc (suc (suc (suc (suc (suc (suc zero)))))))) h = ground arith
month_end y (suc (suc (suc (suc (suc (suc (suc (suc (suc zero))))))))) h = ground arith
month_end y (suc (suc (suc (suc (suc (suc (suc (suc (suc (suc zero)))))))))) h = ground arith
month_end y (suc (suc (suc (suc (suc (suc (suc (suc (suc (suc (suc zero))))))))))) h = ground arith
month_end y (suc (suc (suc (suc (suc (suc (suc (suc (suc (suc (suc (suc m)))))))))))) h =
    absurd (omega arith)

since_zero-sub : (n : ℕ) → since_zero (sub_ℕ n (epoch_day * ms_per_day)) ≡ n
since_zero-sub n = ground arith

-- A time of day.
pub record IsTime (w : WallClock) : Type 0 where
  pub hour_below : w.hour < 24
  pub minute_below : w.minute < 60
  pub second_below : w.second < 60

abbrev time_of : WallClock → ℕ
time_of w = w.hour * 3_600_000 + w.minute * 60_000 + w.second * 1000

clock_of_day_lem :
    (y m d : ℕ)
    → m < 12
    → d < days_in_month y (suc m)
    → (ms : ℕ)
    → clock_of_day (days_before_year y + (days_before_month y m + d)) ms
      ≡ on_day y (days_before_month y m + d) (suc m) ms
clock_of_day_lem y m d h k ms =
    let n = days_before_year y + (days_before_month y m + d) in
    let year : year_of_day n ≡ y =
      year_of_day_lem n y (omega arith) (ground (arith, days_before_year_suc y, month_end y m h)) in
    let rest : n - days_before_year y ≡ days_before_month y m + d = omega arith in
    rw (year, rest, month_of_day_lem y m d h k) refl

on_day_fields :
    (w : WallClock) (m : ℕ)
    → w.month ≡ suc m
    → 1 ≤ w.day
    → IsTime w
    → on_day w.year (days_before_month w.year m + (w.day - 1)) (suc m) (time_of w) ≡ w
on_day_fields w m e d t =
    let same : suc m - 1 ≡ m = omega arith in
    let day : days_before_month w.year m + (w.day - 1) - days_before_month w.year m + 1 ≡ w.day =
      omega arith in
    let hour : time_of w / 3_600_000 ≡ w.hour = omega arith in
    let minute : time_of w / 60_000 % 60 ≡ w.minute = omega arith in
    let second : time_of w / 1000 % 60 ≡ w.second = omega arith in
    rw (same, day, hour, minute, second, sym e) refl

-- `Date.UTC` and the UTC getters: the getters give back each date of the Gregorian calendar, from the
-- year 100 on, and each time of day.
pub utc_clock-date_utc : (w : WallClock) → IsDate w → IsTime w → utc_clock (date_utc w) ≡ w
unfolding utc_clock date_utc
utc_clock-date_utc w v t =
    let full : full_year w.year ≡ w.year = ground arith in
    let month : w.month ≡ w.month - 1 + 1 = omega arith in
    let next : w.month ≡ suc (w.month - 1) = omega arith in
    let number : day_number w.year w.month w.day
        ≡ days_before_year w.year + (days_before_month w.year (w.month - 1) + (w.day - 1)) =
      ap (λ k. day_number w.year k w.day) month
      ∙ (day_number_of_month w.year (w.month - 1) w.day (omega arith) ∙ omega arith) in
    let total = days_before_year w.year + (days_before_month w.year (w.month - 1) + (w.day - 1)) in
    let stamp = since_zero-sub (total * ms_per_day + time_of w) in
    let days : (total * ms_per_day + time_of w) / ms_per_day ≡ total = omega arith in
    let rest : (total * ms_per_day + time_of w) % ms_per_day ≡ time_of w = omega arith in
    let fits : w.day - 1 < days_in_month w.year (suc (w.month - 1)) =
      ground (arith, ap (λ k. days_in_month w.year k) next) in
    rw (full, number, stamp, days, rest)
      (clock_of_day_lem w.year (w.month - 1) (w.day - 1) (omega arith) fits (time_of w)
        ∙ on_day_fields w (w.month - 1) next v.day_from_1 t)
