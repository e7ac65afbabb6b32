-- ===== src/Client/Dates/Days.antt =====
-- app/src/boosteroid_client.cpp: the days of `ParseUtcTimestampMs` are those of the calendar.
use booster_nx.Common.{ℕ, suc, ◌+◌, ◌-◌, ◌*◌, ◌/◌, ◌%◌, ◌≤◌, ◌≡◌, refl, sym, ap, ◌∙◌, arith}
use native.Mathlib.Nat.{mul-zero, zero-mul}
use booster_nx.Common.Int.{ℤ, pos, negsuc, ◌+ℤ◌, ◌-ℤ◌, ◌*ℤ◌, int_laws, pos_part, neg_part}
use booster_nx.Client.Dates.{
  days_of, Fields, timestamp_of, civil_year, era_of, year_of_era, month_from_march, day_of_year,
  day_of_era,
}
use booster_nx.Client.Dates.Calendar.{
  Date, IsDate, civil_count, count_of, count_of-next_day, from_march, month_days_le, next_day,
  next_day-IsDate, shifted,
}

civil_year-shifted : (y m : ℕ) → 1 ≤ y → civil_year (pos y) (pos m) ≡ pos (shifted y m)
unfolding civil_year ◌-ℤ◌
civil_year-shifted y m h = ground arith

era_of_pos : (c : ℕ) → era_of (pos c) ≡ pos (c / 400)
unfolding era_of
era_of_pos c = ground arith

year_of_era_pos : (c : ℕ) → year_of_era (pos c) ≡ c % 400
unfolding year_of_era ◌-ℤ◌ ◌*ℤ◌
year_of_era_pos c = rw (era_of_pos c) (ground arith)

month_from_march_pos : (m : ℕ) → 1 ≤ m → m ≤ 12 → month_from_march (pos m) ≡ from_march m
unfolding month_from_march ◌-ℤ◌ ◌+ℤ◌
month_from_march_pos m h k = ground arith

day_of_year_pos :
    (m d : ℕ)
    → 1 ≤ m
    → m ≤ 12
    → 1 ≤ d
    → d ≤ 31
    → day_of_year (pos m) (pos d) ≡ (153 * from_march m + 2) / 5 + d - 1
unfolding day_of_year
day_of_year_pos m d h k i j = rw (month_from_march_pos m h k) (ground (arith))

day_of_era_pos :
    (c n : ℕ)
    → n ≤ 400
    → pos (c / 400) *ℤ pos 146097 +ℤ pos (day_of_era (c % 400) n)
      ≡ pos (c * 365 + c / 4 + c / 400 + n - c / 100)
unfolding day_of_era ◌+ℤ◌ ◌*ℤ◌
day_of_era_pos c n h = ground arith

days_of-civil_count :
    (y m d : ℕ)
    → 1 ≤ y
    → 1 ≤ m
    → m ≤ 12
    → 1 ≤ d
    → d ≤ 31
    → days_of (pos y) (pos m) (pos d) ≡ pos (civil_count y m d) -ℤ pos 719468
unfolding days_of
days_of-civil_count y m d hy hm hm' hd hd' =
    rw
      (
        civil_year-shifted y m hy,
        era_of_pos (shifted y m),
        year_of_era_pos (shifted y m),
        day_of_year_pos m d hm hm' hd hd',
      )
      (ap (λ z. z -ℤ pos 719468)
          (day_of_era_pos (shifted y m) ((153 * from_march m + 2) / 5 + d - 1) (ground arith))
        ∙ ap (λ (n : ℕ). pos n -ℤ pos 719468) (ground arith))

abbrev pub days_on : Date → ℤ
days_on t = days_of (pos t.year) (pos t.month) (pos t.day)

days_on-count_of : (t : Date) → IsDate t → days_on t ≡ pos (count_of t) -ℤ pos 719468
days_on-count_of t v =
    days_of-civil_count t.year t.month t.day v.year_in v.first_month v.last_month v.first_day
      (omega (arith, v.last_day, month_days_le t.year t.month))

days_on-next_day : (t : Date) → IsDate t → days_on (next_day t) ≡ days_on t +ℤ pos 1
days_on-next_day t v =
    days_on-count_of (next_day t) (next_day-IsDate t v)
    ∙ ap (λ (n : ℕ). pos n -ℤ pos 719468) (count_of-next_day t v)
    ∙ one_more (count_of t)
    ∙ ap (λ z. z +ℤ pos 1) (sym (days_on-count_of t v))
  where
    one_more : (n : ℕ) → pos (n + 1) -ℤ pos 719468 ≡ pos n -ℤ pos 719468 +ℤ pos 1
    one_more n = omega int_laws

abbrev pub fields_on : Date → ℤ → ℤ → ℤ → Fields
fields_on t hour minute second = record {
  year = pos t.year;
  month = pos t.month;
  day = pos t.day;
  hour = hour;
  minute = minute;
  second = second;
}

-- A product with a number, by the two parts.
scale_parts :
    (k : ℕ) (a : ℤ)
    → pos_part (a *ℤ pos k) + neg_part a * k ≡ neg_part (a *ℤ pos k) + pos_part a * k
unfolding ◌*ℤ◌
scale_parts k (pos n) = ground (arith, mul-zero n, zero-mul k)
scale_parts k (negsuc n) = ground (arith, mul-zero (suc n), zero-mul k)

abbrev stamp : ℤ → ℤ → ℤ → ℤ → ℤ
stamp days hour minute second =
    (days *ℤ pos 86400 +ℤ hour *ℤ pos 3600 +ℤ minute *ℤ pos 60 +ℤ second) *ℤ pos 1000

stamp_next :
    (days hour minute second : ℤ)
    → stamp (days +ℤ pos 1) hour minute second ≡ stamp days hour minute second +ℤ pos 86400000
stamp_next days hour minute second =
    let later = (days +ℤ pos 1) *ℤ pos 86400 +ℤ hour *ℤ pos 3600 +ℤ minute *ℤ pos 60 +ℤ second in
    let sooner = days *ℤ pos 86400 +ℤ hour *ℤ pos 3600 +ℤ minute *ℤ pos 60 +ℤ second in
    omega (
      int_laws,
      scale_parts 86400 days,
      scale_parts 86400 (days +ℤ pos 1),
      scale_parts 1000 later,
      scale_parts 1000 sooner,
    )

-- The time stamps are those of the calendar: midnight of 1970-01-01 is zero, and from any time of any
-- day of our era to the same time of the next day, over the ends of months, of leap years and of
-- centuries, it is 86,400,000 more.
pub timestamp_of-next_day :
    (timestamp_of (fields_on (record { year = 1970; month = 1; day = 1 }) (pos 0) (pos 0) (pos 0))
      ≡ pos 0)
    × ((t : Date) (hour minute second : ℤ)
        → IsDate t
        → timestamp_of (fields_on (next_day t) hour minute second)
          ≡ timestamp_of (fields_on t hour minute second) +ℤ pos 86400000)
unfolding timestamp_of
timestamp_of-next_day = (
  unfold days_of civil_year era_of year_of_era month_from_march day_of_year day_of_era ◌+ℤ◌ ◌-ℤ◌
        ◌*ℤ◌ in
      refl,
  λ t hour minute second v.
      ap (λ z. stamp z hour minute second) (days_on-next_day t v)
      ∙ stamp_next (days_on t) hour minute second,
)
