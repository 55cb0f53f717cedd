-- ===== src/Timezone/Conversion.antt =====
-- When the conversion to UTC is exact, and what the `TimeZone=` number says.
use adms.Prelude.{
  ℕ, ◌≡◌, ℤ, pos, negsuc, arith, String, suc, ◌≤◌, ◌+ℤ◌, ◌-ℤ◌, int_laws, ◌%◌, ap, pos_part,
  neg_part, Bool-cases, ◌∙◌, if◌then◌else◌, leb, ◌==◌, sym, ◌*◌, inl, int_beq_iff, sub_ℕ, inr,
  int_eq,
}
use adms.Timezone.{Intl, zoned_wall_clock_now, offset_ms, zoned_wall_clock_to_utc, option_value}

back : (g o : ℤ) → (g -ℤ o) +ℤ o ≡ g
back g o = omega int_laws

forth : (z i : ℤ) → i +ℤ (z -ℤ i) ≡ z
forth z i = omega int_laws

module _ (intl : Intl) (tz : String) where
  zoned-of-offset : (t g : ℤ) → t ≡ g -ℤ offset_ms intl t tz → zoned_wall_clock_now intl tz t ≡ g
  unfolding offset_ms
  zoned-of-offset t g e = omega (int_laws, ap pos_part e, ap neg_part e)

  to_utc_by_second :
      (digits : ℤ)
      → zoned_wall_clock_to_utc intl digits tz
        ≡ digits -ℤ offset_ms intl (digits -ℤ offset_ms intl digits tz) tz
  unfolding zoned_wall_clock_to_utc
  to_utc_by_second digits =
      let first = offset_ms intl digits tz in
      let second = offset_ms intl (digits -ℤ first) tz in
      elim (Bool-cases (second == first)) [
        | inl e ↦ rw e (ap (λ o. digits -ℤ o) (sym ((int_beq_iff second first).0 e)))
        | inr e ↦ rw e
      ]

  -- The instant that the conversion returns shows the device's digits again on the clock of the
  -- zone, whenever the offset there is the offset at the conversion's second guess: everywhere
  -- but next to a change of the offset.
  pub zoned_wall_clock_to_utc_exact :
      (digits : ℤ)
      → offset_ms intl (zoned_wall_clock_to_utc intl digits tz) tz
        ≡ offset_ms intl (digits -ℤ offset_ms intl digits tz) tz
      → zoned_wall_clock_now intl tz (zoned_wall_clock_to_utc intl digits tz) ≡ digits
  zoned_wall_clock_to_utc_exact digits h =
      zoned-of-offset (zoned_wall_clock_to_utc intl digits tz) digits
        (to_utc_by_second digits ∙ ap (λ o. digits -ℤ o) (sym h))

-- What a device that reads up to 14 as hours and more as minutes takes the number for.
abbrev read_option : ℤ → ℤ
read_option (pos n) = if leb n 14 then pos (n * 60) else pos n
read_option (negsuc n) = if leb (suc n) 14 then sub_ℕ 0 (suc n * 60) else negsuc n

abbrev pub magnitude : ℤ → ℕ
magnitude (pos n) = n
magnitude (negsuc n) = suc n

read_option-option_value :
    (m : ℤ) → magnitude m ≤ 840 → magnitude m % 15 ≡ 0 → read_option (option_value m) ≡ m
unfolding option_value
read_option-option_value (pos n) h k = ground arith
read_option-option_value (negsuc n) h k = ground arith

-- No two offsets of whole quarters of an hour, up to 14 hours either way, are sent as the same
-- number, although some are sent in hours and some in minutes.
pub option_value-injective :
    (m o : ℤ)
    → magnitude m ≤ 840
    → magnitude m % 15 ≡ 0
    → magnitude o ≤ 840
    → magnitude o % 15 ≡ 0
    → option_value m ≡ option_value o
    → m ≡ o
option_value-injective m o hm km ho ko e =
    sym (read_option-option_value m hm km) ∙ (ap read_option e ∙ read_option-option_value o ho ko)
