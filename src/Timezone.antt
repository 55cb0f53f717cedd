-- ===== src/Timezone.antt =====
-- src/adms/timezone.ts: wall-clock digits and instants. What `Intl` knows of the time zones is a
-- parameter: which names it accepts, and the digits that a zone's clock shows at an instant.
pub mod Conversion
use adms.Prelude.{
  ℕ, String, ℤ, ◌+ℤ◌, ◌-ℤ◌, Bool, ◌==◌, int_eq, if◌then◌else◌, show_int, pos, ◌+◌, eqb, Text, ◌/◌,
  ◌%◌, negsuc, sub_ℕ, suc,
}
use adms.Calendar.{WallClock, date_utc}

pub record Intl : Type 0 where
  pub accepts : String → Bool
  pub clock_at : String → ℤ → WallClock

-- `Math.round(ms / 60000)`, halves upwards.
unfoldable pub round_minutes : ℤ → ℤ
round_minutes (pos n) = pos ((n + 30_000) / 60_000)
round_minutes (negsuc n) = sub_ℕ 0 ((n + 30_000) / 60_000)

-- The number in the `TimeZone=` line for an offset in minutes: hours if they are whole.
unfoldable pub option_value : ℤ → ℤ
option_value (pos n) = if eqb (n % 60) 0 then pos (n / 60) else pos n
option_value (negsuc n) = if eqb (suc n % 60) 0 then sub_ℕ 0 (suc n / 60) else negsuc n

module _ (intl : Intl) where
  unfoldable pub is_valid_time_zone : String → Bool
  is_valid_time_zone tz = intl.accepts tz

  unfoldable pub zoned_wall_clock_now : String → ℤ → ℤ
  zoned_wall_clock_now tz now = date_utc (intl.clock_at tz now)

  unfoldable pub offset_ms : ℤ → String → ℤ
  offset_ms instant tz = zoned_wall_clock_now tz instant -ℤ instant

  -- The digits of a `Date` that stands on a whole second, in a year from 100 on, are its own time,
  -- so `guessMs` is the argument.
  unfoldable pub zoned_wall_clock_to_utc : ℤ → String → ℤ
  zoned_wall_clock_to_utc guess tz =
      let offset1 = offset_ms guess tz in
      let estimate = guess -ℤ offset1 in
      let offset2 = offset_ms estimate tz in
      if offset2 == offset1 then estimate else guess -ℤ offset2

  unfoldable pub compute_time_zone_option_value : String → ℕ → Text
  unfolding round_minutes option_value show_int
  compute_time_zone_option_value tz now =
      show_int (option_value (round_minutes (zoned_wall_clock_now tz (pos now) -ℤ pos now)))
