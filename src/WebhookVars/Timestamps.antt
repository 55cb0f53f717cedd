-- ===== src/WebhookVars/Timestamps.antt =====
-- src/webhooks/dispatcher.ts with src/adms/parsers/attlog.ts: a device's clock on its way out.
use adms.Calendar.{WallClock, date_utc}
use adms.Calendar.Days.{IsDate, days_in_month}
use adms.Calendar.Civil.{utc_clock-date_utc, IsTime}
use adms.Prelude.{
  take, drop, if◌then◌else◌, is_space, trim, trim_start, trim_end, ℤ, codes, false, ℕ, zero, suc,
  ◌+◌, ◌*◌, ◌-◌, ◌/◌, ◌%◌, ◌≤◌, ◌<◌, ◌≡◌, refl, ap, ◌∙◌, Text, some, [], ◌∷◌, ◌++◌, arith, show_nat,
  show_from, ltb, is_digit, Bool-cases, inl, inr,
}
use adms.Attlog.{expect, match_datetime, parse_device_datetime, digits}
use adms.WebhookVars.{clock_text, format_frappe_timestamp, pad}

abbrev digit : ℕ → ℕ
digit d = 48 + d

show_from-digit : (k m : ℕ) → m < 10 → show_from k m ≡ digit m ∷ []
unfolding show_from
show_from-digit zero m h = ground arith
show_from-digit (suc k) m h = ground arith

show_from_more :
    (k n : ℕ) → 10 ≤ n → show_from (suc k) n ≡ show_from k (n / 10) ++ (digit (n % 10) ∷ [])
unfolding show_from
show_from_more k n h = ground arith

abbrev two_digits : ℕ → Text
two_digits n = digit (n / 10) ∷ digit (n % 10) ∷ []

abbrev four_digits : ℕ → Text
four_digits n =
    digit (n / 10 / 10 / 10) ∷ digit (n / 10 / 10 % 10) ∷ digit (n / 10 % 10) ∷ digit (n % 10) ∷ []

show_nat_four : (n : ℕ) → 1000 ≤ n → n < 10000 → show_nat n ≡ four_digits n
unfolding show_nat
show_nat_four n h k =
    let fuel : n ≡ suc (suc (suc (n - 3))) = omega arith in
    ap (λ f. show_from f n) fuel
    ∙ (show_from_more (suc (suc (n - 3))) n (omega arith)
        ∙ rw
            (
              show_from_more (suc (n - 3)) (n / 10) (omega arith),
              show_from_more (n - 3) (n / 10 / 10) (omega arith),
              show_from-digit (n - 3) (n / 10 / 10 / 10) (omega arith),
            )
            refl)

pad_two : (n : ℕ) → n < 100 → pad 2 n ≡ two_digits n
unfolding pad show_nat
pad_two n h = elim (Bool-cases (ltb n 10)) [
  | inl one ↦
      let small : n < 10 = ground arith in
      let high : n / 10 ≡ 0 = omega arith in
      let low : n % 10 ≡ n = omega arith in rw (show_from-digit n n small, high, low) refl
  | inr two ↦
      let fuel : n ≡ suc (n - 1) = ground arith in
      let long : 10 ≤ n = ground arith in
      let shown : show_from n n ≡ two_digits n =
        ap (λ f. show_from f n) fuel
        ∙ (show_from_more (n - 1) n long
            ∙ ap (λ t. t ++ (digit (n % 10) ∷ []))
                (show_from-digit (n - 1) (n / 10) (omega arith))) in
      rw shown refl
]

digits_step :
    (k acc d : ℕ) (s : Text) → d < 10 → digits (suc k) acc (digit d ∷ s) ≡ digits k (acc * 10 + d) s
unfolding digits is_digit
digits_step k acc d s h = ground arith

digits_done : (acc : ℕ) (s : Text) → digits zero acc s ≡ some (acc, s)
unfolding digits
digits_done acc s = refl

digits_two :
    (n : ℕ) (s : Text) → n < 100 → digits 2 0 (digit (n / 10) ∷ digit (n % 10) ∷ s) ≡ some (n, s)
digits_two n s h =
    digits_step 1 0 (n / 10) (digit (n % 10) ∷ s) (omega arith)
    ∙ (digits_step 0 (0 * 10 + n / 10) (n % 10) s (omega arith)
        ∙ (digits_done ((0 * 10 + n / 10) * 10 + n % 10) s
            ∙ ap (λ m. some (m, s))
                (let whole : (0 * 10 + n / 10) * 10 + n % 10 ≡ n = omega arith in whole)))

digits_four :
    (n : ℕ) (s : Text)
    → n < 10000
    → digits 4 0 (
        digit (n / 10 / 10 / 10)
        ∷ digit (n / 10 / 10 % 10)
        ∷ digit (n / 10 % 10)
        ∷ digit (n % 10)
        ∷ s)
      ≡ some (n, s)
digits_four n s h =
    let a = n / 10 / 10 / 10 in
    let b = n / 10 / 10 % 10 in
    let c = n / 10 % 10 in
    let d = n % 10 in
    digits_step 3 0 a (digit b ∷ digit c ∷ digit d ∷ s) (omega arith)
    ∙ (digits_step 2 (0 * 10 + a) b (digit c ∷ digit d ∷ s) (omega arith)
        ∙ (digits_step 1 ((0 * 10 + a) * 10 + b) c (digit d ∷ s) (omega arith)
            ∙ (digits_step 0 (((0 * 10 + a) * 10 + b) * 10 + c) d s (omega arith)
                ∙ (digits_done ((((0 * 10 + a) * 10 + b) * 10 + c) * 10 + d) s
                    ∙ ap (λ m. some (m, s))
                        (let whole : (((0 * 10 + a) * 10 + b) * 10 + c) * 10 + d ≡ n =
                            omega arith in
                          whole)))))

IsDate-day : (w : WallClock) → IsDate w → w.day < 100
unfolding days_in_month
IsDate-day w v = ground (arith, v.day_in_month)

-- The digits of a clock, one by one.
abbrev time_digits : WallClock → Text
time_digits w =
    digit (w.hour / 10)
    ∷ digit (w.hour % 10)
    ∷ b':'
    ∷ digit (w.minute / 10)
    ∷ digit (w.minute % 10)
    ∷ b':'
    ∷ digit (w.second / 10)
    ∷ digit (w.second % 10)
    ∷ []

abbrev clock_digits : WallClock → Text
clock_digits w =
    digit (w.year / 10 / 10 / 10)
    ∷ digit (w.year / 10 / 10 % 10)
    ∷ digit (w.year / 10 % 10)
    ∷ digit (w.year % 10)
    ∷ b'-'
    ∷ digit (w.month / 10)
    ∷ digit (w.month % 10)
    ∷ b'-'
    ∷ digit (w.day / 10)
    ∷ digit (w.day % 10)
    ∷ b' '
    ∷ time_digits w

clock_text-digits :
    (w : WallClock)
    → 1000 ≤ w.year
    → w.year < 10000
    → w.month < 100
    → w.day < 100
    → IsTime w
    → clock_text w ≡ clock_digits w
clock_text-digits w low high m d t =
    rw
      (
        show_nat_four w.year low high,
        pad_two w.month m,
        pad_two w.day d,
        pad_two w.hour (omega (arith, t.hour_below)),
        pad_two w.minute (omega (arith, t.minute_below)),
        pad_two w.second (omega (arith, t.second_below)),
      )
      refl

digit-is_space : (d : ℕ) → d < 10 → is_space (digit d) ≡ false
unfolding is_space
digit-is_space d h = ground arith

trim_start-digit : (d : ℕ) (s : Text) → d < 10 → trim_start (digit d ∷ s) ≡ digit d ∷ s
unfolding trim_start
trim_start-digit d s h = rw (digit-is_space d h) refl

trim_end_last : (c : ℕ) → is_space c ≡ false → trim_end (c ∷ []) ≡ c ∷ []
unfolding trim_end
trim_end_last c h = ap (λ b. if b then [] else c ∷ []) h

trim_end-cons : (c d : ℕ) (s t : Text) → trim_end s ≡ d ∷ t → trim_end (c ∷ s) ≡ c ∷ d ∷ t
unfolding trim_end
trim_end-cons c d s t h = rw (h, trim_end) refl

trim_end-append : (s : Text) (c : ℕ) → is_space c ≡ false → trim_end (s ++ c ∷ []) ≡ s ++ c ∷ []
trim_end-append [] c h = trim_end_last c h
trim_end-append (x ∷ []) c h = trim_end-cons x c (c ∷ []) [] (trim_end_last c h)
trim_end-append (x ∷ y ∷ s) c h =
    trim_end-cons x y (y ∷ (s ++ c ∷ [])) (s ++ c ∷ []) (trim_end-append (y ∷ s) c h)

-- All digits of a clock but the last.
abbrev front_digits : WallClock → Text
front_digits w = take 18 (clock_digits w)

trim_end-digits : (w : WallClock) → trim_end (clock_digits w) ≡ clock_digits w
trim_end-digits w =
    trim_end-append (front_digits w) (digit (w.second % 10))
      (digit-is_space (w.second % 10) (omega arith))

trim-digits : (w : WallClock) → w.year < 10000 → trim (clock_digits w) ≡ clock_digits w
unfolding trim
trim-digits w h =
    ap trim_end (trim_start-digit (w.year / 10 / 10 / 10) (drop 1 (clock_digits w)) (omega arith))
    ∙ trim_end-digits w

match_datetime-digits :
    (w : WallClock)
    → w.year < 10000
    → w.month < 100
    → w.day < 100
    → IsTime w
    → match_datetime (clock_digits w) ≡ some w
unfolding match_datetime expect
match_datetime-digits w y m d t = rw (digits_four w.year _ y) (
    rw (digits_two w.month _ m) (
      rw (digits_two w.day _ d) (
        rw (digits_two w.hour _ (omega (arith, t.hour_below))) (
          rw (digits_two w.minute _ (omega (arith, t.minute_below)))
            (rw (digits_two w.second _ (omega (arith, t.second_below))) refl)))))

-- The time of a punch, as its device wrote it, comes out of the webhook's `punch_time_frappe` digit
-- for digit, whatever zone the device is in: for each date of the years 1000 to 9999 of the Gregorian
-- calendar and each time of day, the text that a device sends is parsed as some time, and that time
-- is formatted as the same text with ".000000" behind it.
pub format_frappe_timestamp-parse_device_datetime :
    (w : WallClock)
    → IsDate w
    → IsTime w
    → 1000 ≤ w.year
    → w.year < 10000
    → (t : ℤ) × (parse_device_datetime (clock_text w) ≡ some t)
      × (format_frappe_timestamp t ≡ clock_text w ++ codes ".000000")
unfolding parse_device_datetime format_frappe_timestamp
format_frappe_timestamp-parse_device_datetime w v t low high =
    let m : w.month < 100 = omega (arith, v.month_to_12) in
    let d : w.day < 100 = IsDate-day w v in
    let text = clock_text-digits w low high m d t in
    let parsed : match_datetime (trim (clock_text w)) ≡ some w =
      ap (λ s. match_datetime (trim s)) text
      ∙ (ap match_datetime (trim-digits w high) ∙ match_datetime-digits w high m d t) in
    (
      date_utc w,
      rw parsed refl,
      ap (λ c. clock_text c ++ codes ".000000") (utc_clock-date_utc w v t),
    )
