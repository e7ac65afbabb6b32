-- ===== src/Client/Dates.antt =====
-- app/src/boosteroid_client.cpp: `ParseUtcTimestampMs`, on the bytes of a text. An `int` that the text
-- overflows is undefined in the source; here it keeps its value. The sum in `long long` is not wrapped either: it overflows, which is
-- undefined too, with no year within 292 million of the epoch.
pub mod Calendar
pub mod Days
use booster_nx.Common.{
  ℕ, ◌+◌, ◌-◌, ◌*◌, ◌/◌, ◌%◌, Bool, ◌&&◌, ◌||◌, Option, none, some, List, [], ◌∷◌, leb, ◌==◌,
  if◌then◌else◌,
}
use booster_nx.Common.Int.{ℤ, pos, ◌+ℤ◌, ◌-ℤ◌, ◌*ℤ◌, ltb_ℤ, div_ℤ, neg_ℤ}
use booster_nx.Common.Word.{to_u32, u32_mod}

-- `std::isspace`.
abbrev pub is_space : ℕ → Bool
is_space c = (c == 32) || (leb 9 c && leb c 13)

abbrev pub is_digit : ℕ → Bool
is_digit c = leb 48 c && leb c 57

unfoldable pub skip_space : List ℕ → List ℕ
skip_space [] = []
skip_space (c ∷ cs) = let rest = skip_space cs in if is_space c then rest else c ∷ cs

-- The digits of a number that has begun.
unfoldable pub scan_digits : ℕ → List ℕ → ℕ × List ℕ
scan_digits n [] = (n, [])
scan_digits n (c ∷ cs) =
    let rest = scan_digits (n * 10 + (c - 48)) cs in if is_digit c then rest else (n, c ∷ cs)

abbrev pub scan_unsigned : List ℕ → Option (ℕ × List ℕ)
scan_unsigned [] = none
scan_unsigned (c ∷ cs) = if is_digit c then some (scan_digits 0 (c ∷ cs)) else none

abbrev pub as_positive : Option (ℕ × List ℕ) → Option (ℤ × List ℕ)
as_positive none = none
as_positive (some (n, cs)) = some (pos n, cs)

abbrev pub as_negative : Option (ℕ × List ℕ) → Option (ℤ × List ℕ)
as_negative none = none
as_negative (some (n, cs)) = some (neg_ℤ (pos n), cs)

abbrev pub scan_signed : List ℕ → Option (ℤ × List ℕ)
scan_signed [] = none
scan_signed (c ∷ cs) =
    if c == 45
    then as_negative (scan_unsigned cs)
    else if c == 43
    then as_positive (scan_unsigned cs)
    else as_positive (scan_unsigned (c ∷ cs))

-- `%d` of `std::sscanf`.
abbrev pub scan_int : List ℕ → Option (ℤ × List ℕ)
scan_int cs = scan_signed (skip_space cs)

-- A character of the format.
abbrev pub expect : ℕ → List ℕ → Option (List ℕ)
expect c [] = none
expect c (d ∷ cs) = if c == d then some cs else none

infixl 5 ◌>>=◌
abbrev pub ◌>>=◌ : {A B : Type 0} → Option A → (A → Option B) → Option B
none >>= f = none
some a >>= f = f a

pub record Fields : Type 0 where
  pub year : ℤ
  pub month : ℤ
  pub day : ℤ
  pub hour : ℤ
  pub minute : ℤ
  pub second : ℤ

-- `std::sscanf` with "%d-%d-%d %d:%d:%d", where it fills all six.
unfoldable pub scan_fields : List ℕ → Option Fields
unfolding skip_space scan_digits
scan_fields text = do
  (year, r1) ← scan_int text
  r2 ← expect 45 r1
  (month, r3) ← scan_int r2
  r4 ← expect 45 r3
  (day, r5) ← scan_int r4
  (hour, r6) ← scan_int (skip_space r5)
  r7 ← expect 58 r6
  (minute, r8) ← scan_int r7
  r9 ← expect 58 r8
  (second, r10) ← scan_int r9
  some (record {
    year = year;
    month = month;
    day = day;
    hour = hour;
    minute = minute;
    second = second;
  })

unfoldable pub civil_year : ℤ → ℤ → ℤ
civil_year year month = if ltb_ℤ (pos 2) month then year else year -ℤ pos 1

unfoldable pub era_of : ℤ → ℤ
era_of y = div_ℤ (if ltb_ℤ y (pos 0) then y -ℤ pos 399 else y) 400

-- The unsigned parts wrap round.
unfoldable pub year_of_era : ℤ → ℕ
year_of_era y = to_u32 (y -ℤ (era_of y *ℤ pos 400))

unfoldable pub month_from_march : ℤ → ℕ
month_from_march month = to_u32 (if ltb_ℤ (pos 2) month then month -ℤ pos 3 else month +ℤ pos 9)

unfoldable pub day_of_year : ℤ → ℤ → ℕ
day_of_year month day =
    ((153 * month_from_march month + 2) % u32_mod / 5 + to_u32 day + u32_mod - 1) % u32_mod

unfoldable pub day_of_era : ℕ → ℕ → ℕ
day_of_era yoe doy = (yoe * 365 + yoe / 4 + u32_mod - yoe / 100 + doy) % u32_mod

-- The days since 1970-01-01.
unfoldable pub days_of : ℤ → ℤ → ℤ → ℤ
days_of year month day =
    let y = civil_year year month in
    era_of y *ℤ pos 146097 +ℤ pos (day_of_era (year_of_era y) (day_of_year month day)) -ℤ pos 719468

unfoldable pub timestamp_of : Fields → ℤ
timestamp_of f =
    (days_of f.year f.month f.day *ℤ pos 86400
      +ℤ f.hour *ℤ pos 3600
      +ℤ f.minute *ℤ pos 60
      +ℤ f.second)
    *ℤ pos 1000

abbrev pub timestamp_or_zero : Option Fields → ℤ
timestamp_or_zero none = pos 0
timestamp_or_zero (some f) = timestamp_of f

-- `ParseUtcTimestampMs`.
unfoldable pub parse_utc_timestamp_ms : List ℕ → ℤ
parse_utc_timestamp_ms text = timestamp_or_zero (scan_fields text)
