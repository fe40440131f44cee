-- ===== src/Epoch/RoundTrip.antt =====
-- `epoch_seconds` of what `epoch_convert` writes.
use dancy.Base.{
  ℕ, suc, ◌+◌, ◌-◌, ◌*◌, ◌/◌, ◌%◌, min, ◌≡◌, ◌≤◌, ◌<◌, refl, ◌∙◌, ap, List, [], ◌∷◌, arith, some,
  dec_lt,
}
use dancy.Epoch.{
  Fields, days, leap_year, sum_years, sum_months, year_seconds, years_loop, months_loop,
  epoch_seconds, format, convert_fields, epoch_convert,
}
use dancy.Epoch.Loops.{
  YearsLeft, years_loop-YearsLeft, MonthsLeft, months_loop-MonthsLeft, sum_months-year,
  sum_years_mono, sum_years_all, days_le,
}
use dancy.Epoch.Text.{write_two, write_four, read_two, read_four}

-- A date and time from 1970 to 9999.
pub record IsDate (t : Fields) : Type 0 where
  pub year_ok : (1970 ≤ t.year) × (t.year ≤ 9999)
  pub mon_ok : (1 ≤ t.mon) × (t.mon ≤ 12)
  pub day_ok : (1 ≤ t.day) × (t.day ≤ days t.year t.mon)
  pub hour_ok : t.hour ≤ 23
  pub min_ok : t.min ≤ 59
  pub sec_ok : t.sec ≤ 59

-- The seconds of a date and time.
abbrev pub seconds_of : Fields → ℕ
seconds_of t =
    sum_years (t.year - 1970) 1970
    + sum_months (t.mon - 1) t.year 1
    + 86400 * (t.day - 1)
    + 3600 * t.hour
    + 60 * t.min
    + t.sec

-- The text with the digits written out.
abbrev digits : Fields → List ℕ
digits t =
    (0x30 + t.year / 1000)
    ∷ ((0x30 + t.year / 100 % 10)
        ∷ ((0x30 + t.year / 10 % 10)
            ∷ ((0x30 + t.year % 10)
                ∷ (0x2d
                    ∷ ((0x30 + t.mon / 10)
                        ∷ ((0x30 + t.mon % 10)
                            ∷ (0x2d
                                ∷ ((0x30 + t.day / 10)
                                    ∷ ((0x30 + t.day % 10)
                                        ∷ (0x54
                                            ∷ ((0x30 + t.hour / 10)
                                                ∷ ((0x30 + t.hour % 10)
                                                    ∷ (0x3a
                                                        ∷ ((0x30 + t.min / 10)
                                                            ∷ ((0x30 + t.min % 10)
                                                            ∷ (0x3a
                                                            ∷ ((0x30 + t.sec / 10)
                                                            ∷ ((0x30 + t.sec % 10)
                                                            ∷ []))))))))))))))))))

format-digits : (t : Fields) → IsDate t → format t ≡ digits t
format-digits t d =
    let short = days_le t.year t.mon d.mon_ok.1 in
    rw (
      write_four t.year (omega (arith, d.year_ok)),
      write_two t.mon (omega (arith, d.mon_ok)),
      write_two t.day (omega (arith, d.day_ok, short)),
      write_two t.hour (omega (arith, d.hour_ok)),
      write_two t.min (omega (arith, d.min_ok)),
      write_two t.sec (omega (arith, d.sec_ok)),
    )

read-digits : (t : Fields) → IsDate t → epoch_seconds (digits t) ≡ some (seconds_of t)
unfolding epoch_seconds
read-digits t d =
    let short = days_le t.year t.mon d.mon_ok.1 in
    rw
      (
        read_four (digits t) 0 t.year (omega (arith, d.year_ok)) refl refl refl refl,
        read_two (digits t) 5 t.mon (omega (arith, d.mon_ok)) refl refl,
        read_two (digits t) 8 t.day (omega (arith, d.day_ok, short)) refl refl,
        read_two (digits t) 11 t.hour (omega (arith, d.hour_ok)) refl refl,
        read_two (digits t) 14 t.min (omega (arith, d.min_ok)) refl refl,
        read_two (digits t) 17 t.sec (omega (arith, d.sec_ok)) refl refl,
      )
      (ground (arith, d.year_ok, d.mon_ok, d.day_ok, d.hour_ok, d.min_ok, d.sec_ok, short))

-- The fields when the two loops have ended.
abbrev fields : ℕ → ℕ → ℕ → Fields
fields year mon in_month = record {
  year = year;
  mon = mon;
  day = in_month / 86400 + 1;
  hour = in_month % 86400 / 3600;
  min = in_month % 86400 % 3600 / 60;
  sec = in_month % 86400 % 3600 % 60;
}

before_10000 : (n seconds : ℕ) → seconds < 253402300799 → sum_years n 1970 ≤ seconds → n < 8030
before_10000 n seconds h le = elim (dec_lt n 8030) [
  | yes lt ↦ lt
  | no ge ↦ absurd (omega (arith, sum_years_mono 8030 n 1970 (omega arith), sum_years_all))
]

module _ (seconds year in_year mon in_month : ℕ) (h : seconds < 253402300799)
    (y : YearsLeft 1970 seconds (year, in_year))
    (m : MonthsLeft 12 year 1 in_year (mon, in_month)) where
  fields-IsDate : IsDate (fields year mon in_month)
  fields-IsDate =
      let n_lt = before_10000 y.n seconds h (omega (arith, y.sum_is)) in
      record {
        year_ok = (omega (arith, y.year_is), omega (arith, y.year_is));
        mon_ok = (omega (arith, m.mon_is), omega (arith, m.mon_is, m.n_lt));
        day_ok = (omega arith, omega (arith, m.in_month));
        hour_ok = omega arith;
        min_ok = omega arith;
        sec_ok = omega arith;
      }

  fields-seconds_of : seconds_of (fields year mon in_month) ≡ seconds
  fields-seconds_of =
      let years : year - 1970 ≡ y.n = omega (arith, y.year_is) in
      let months : mon - 1 ≡ m.n = omega (arith, m.mon_is) in
      rw (years, months) (omega (arith, y.sum_is, m.sum_is))

converted_years : ℕ → ℕ × ℕ
converted_years seconds = years_loop (suc (seconds / (86400 * 365))) 1970 seconds

converted_months : ℕ → ℕ × ℕ
converted_months seconds = months_loop 12 (converted_years seconds).0 1 (converted_years seconds).1

fields_are :
    (seconds : ℕ)
    → seconds < 253402300799
    → convert_fields seconds
      ≡ fields (converted_years seconds).0 (converted_months seconds).0 (converted_months seconds).1
unfolding convert_fields converted_years converted_months
fields_are seconds h = ground arith

years_left : (seconds : ℕ) → YearsLeft 1970 seconds (converted_years seconds)
unfolding converted_years
years_left seconds = years_loop-YearsLeft (suc (seconds / (86400 * 365))) 1970 seconds (omega arith)

months_left :
    (seconds : ℕ)
    → MonthsLeft 12
        (converted_years seconds).0
        1
        (converted_years seconds).1
        (converted_months seconds)
unfolding converted_months
months_left seconds =
    let y = years_left seconds in
    let (year, in_year) = converted_years seconds in
    months_loop-MonthsLeft 12 year 1 in_year (omega (arith, y.in_year, sum_months-year year))

last : Fields
last = record { year = 9999; mon = 12; day = 31; hour = 23; min = 59; sec = 59 }

last_lem : IsDate last × (seconds_of last ≡ 253402300799)
unfolding last sum_months days sum_years year_seconds leap_year
last_lem = (
  record {
    year_ok = (omega arith, omega arith);
    mon_ok = (omega arith, omega arith);
    day_ok = (omega arith, omega arith);
    hour_ok = omega arith;
    min_ok = omega arith;
    sec_ok = omega arith;
  },
  refl,
)

last_are : (seconds : ℕ) → 253402300799 ≤ seconds → convert_fields seconds ≡ last
unfolding convert_fields last
last_are seconds h = ground arith

-- The fields that `epoch_convert` works out are a date and time from 1970 to 9999, and its seconds are those
-- that were given, or those of the last such second where more were given.
pub convert_fields-IsDate :
    (seconds : ℕ)
    → IsDate (convert_fields seconds)
      × (seconds_of (convert_fields seconds) ≡ min seconds 253402300799)
convert_fields-IsDate seconds = elim (dec_lt seconds 253402300799) [
  | yes lt ↦
      let y = years_left seconds in
      let m = months_left seconds in
      let date = fields-IsDate seconds _ _ _ _ lt y m in
      let sum = fields-seconds_of seconds _ _ _ _ lt y m in
      rw (fields_are seconds lt) (date, sum ∙ omega arith)
  | no ge ↦ rw (last_are seconds (omega arith)) (last_lem.0, last_lem.1 ∙ omega arith)
]

-- `epoch_seconds` of the text that `epoch_convert` writes gives the seconds back, or those of the last second
-- of the year 9999 where more were given.
pub epoch_seconds-epoch_convert :
    (seconds : ℕ) → epoch_seconds (epoch_convert seconds) ≡ some (min seconds 253402300799)
unfolding epoch_convert
epoch_seconds-epoch_convert seconds =
    let (date, sum) = convert_fields-IsDate seconds in
    ap epoch_seconds (format-digits (convert_fields seconds) date)
    ∙ read-digits (convert_fields seconds) date
    ∙ ap some sum
