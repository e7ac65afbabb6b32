-- ===== src/Client/Dates/Calendar.antt =====
-- The calendar that the time stamps of app/src/boosteroid_client.cpp are read by, and its count of days.
use booster_nx.Common.{
  ℕ, zero, suc, ◌+◌, ◌-◌, ◌*◌, ◌/◌, ◌%◌, ◌≤◌, ◌<◌, ◌⊎◌, ◌≡◌, sym, ap, ◌∙◌, Bool, ◌&&◌, ◌||◌, not,
  ltb, ◌==◌, arith, Bool-cases, inl, inr, if◌then◌else◌,
}

-- The calendar: the leap years, the lengths of the months, and the day after a day.
abbrev is_leap : ℕ → Bool
is_leap y = (y % 4 == 0) && (not (y % 100 == 0) || (y % 400 == 0))

abbrev month_days : ℕ → ℕ → ℕ
month_days y m =
    if not (m == 2)
    then (if (m == 11) || ((m == 9) || ((m == 6) || (m == 4))) then 30 else 31)
    else if is_leap y
    then 29
    else 28

-- The year from March on, and the month from March.
abbrev pub shifted : ℕ → ℕ → ℕ
shifted y m = if ltb 2 m then y else y - 1

abbrev pub from_march : ℕ → ℕ
from_march m = if ltb 2 m then m - 3 else m + 9

-- What `days_of` comes to in the years of our era.
abbrev pub civil_count : ℕ → ℕ → ℕ → ℕ
civil_count y m d =
    let c = shifted y m in
    c * 365 + c / 4 + c / 400 + (153 * from_march m + 2) / 5 + d - 1 - c / 100

pub record Date : Type 0 where
  pub year : ℕ
  pub month : ℕ
  pub day : ℕ

pub record IsDate (t : Date) : Type 0 where
  pub year_in : 1 ≤ t.year
  pub first_month : 1 ≤ t.month
  pub last_month : t.month ≤ 12
  pub first_day : 1 ≤ t.day
  pub last_day : t.day ≤ month_days t.year t.month

-- The day after a day of the calendar.
abbrev pub next_day : Date → Date
next_day t =
    if ltb t.day (month_days t.year t.month)
    then record t { day = t.day + 1 }
    else if ltb t.month 12
    then record t { month = t.month + 1; day = 1 }
    else record { year = t.year + 1; month = 1; day = 1 }

month_length :
    (y m : ℕ)
    → 3 ≤ m
    → m ≤ 12
    → ((153 * (m - 3) + 2) / 5 + month_days y m ≡ (153 * (m - 2) + 2) / 5) ⊎ (m ≡ 12)
month_length y m h k = ground arith

leap_year :
    (y : ℕ)
    → 1 ≤ y
    → (y - 1) * 365 + (y - 1) / 4 + (y - 1) / 400 + y / 100 + month_days y 2 + 337
      ≡ y * 365 + y / 4 + y / 400 + (y - 1) / 100
leap_year y h = ground arith

abbrev pub count_of : Date → ℕ
count_of t = civil_count t.year t.month t.day

-- The last day of a month that is not February or December.
month_end :
    (y m : ℕ)
    → 1 ≤ y
    → 3 ≤ m
    → m < 12
    → civil_count y (m + 1) 1 ≡ civil_count y m (month_days y m) + 1
month_end y m h k l = ground (arith, month_length y m k)

february_end : (y : ℕ) → 1 ≤ y → civil_count y 3 1 ≡ civil_count y 2 (month_days y 2) + 1
february_end y h = ground (arith, leap_year y h)

january_end : (y : ℕ) → 1 ≤ y → civil_count y 2 1 ≡ civil_count y 1 31 + 1
january_end y h = ground arith

year_end : (y : ℕ) → 1 ≤ y → civil_count (y + 1) 1 1 ≡ civil_count y 12 31 + 1
year_end y h = ground arith

month_or_february_end :
    (y m : ℕ)
    → 1 ≤ y
    → 1 ≤ m
    → m < 12
    → civil_count y (m + 1) 1 ≡ civil_count y m (month_days y m) + 1
month_or_february_end y zero h k l = absurd (omega arith)
month_or_february_end y (suc zero) h k l = january_end y h
month_or_february_end y (suc (suc zero)) h k l = february_end y h
month_or_february_end y (suc (suc (suc m))) h k l =
    month_end y (suc (suc (suc m))) h (omega arith) l

pub count_of-next_day : (t : Date) → IsDate t → count_of (next_day t) ≡ count_of t + 1
count_of-next_day t v = elim (Bool-cases (ltb t.day (month_days t.year t.month))) [
  | inl within ↦ rw within (ground arith)
  | inr last ↦
      let full : t.day ≡ month_days t.year t.month = ground (arith, last) in
      rw last (elim (Bool-cases (ltb t.month 12)) [
        | inl more ↦ rw more (
            month_or_february_end t.year t.month v.year_in v.first_month (ground (arith, more))
            ∙ ap (λ d. civil_count t.year t.month d + 1) (sym full))
        | inr december ↦
            let twelve : t.month ≡ 12 = ground (arith, december) in
            let thirty_one : t.day ≡ 31 = full ∙ ap (λ m. month_days t.year m) twelve in
            rw december (
              year_end t.year v.year_in
              ∙ ap (λ m. civil_count t.year m 31 + 1) (sym twelve)
              ∙ ap (λ d. civil_count t.year t.month d + 1) (sym thirty_one))
      ])
]

pub month_days_le : (y m : ℕ) → month_days y m ≤ 31
month_days_le y m = ground arith

pub next_day-IsDate : (t : Date) → IsDate t → IsDate (next_day t)
next_day-IsDate t v = elim (Bool-cases (ltb t.day (month_days t.year t.month))) [
  | inl within ↦ rw within (ground (arith, within))
  | inr last ↦ rw last (elim (Bool-cases (ltb t.month 12)) [
    | inl more ↦ rw more (ground (arith, more))
    | inr december ↦ rw december (ground arith)
  ])
]
