-- ===== src/Epoch.antt =====
-- common/epoch.c: the seconds since 1970-01-01T00:00:00 and the text "YYYY-MM-DDThh:mm:ss" of a date and
-- time, as the list of its characters.
pub mod Loops
pub mod Text
pub mod RoundTrip
mod Tests
use dancy.Base.{
  ℕ, zero, suc, ◌+◌, ◌-◌, ◌*◌, ◌/◌, ◌%◌, Bool, true, false, not, ◌&&◌, ◌||◌, List, [], ◌∷◌, ◌++◌,
  replicate, get_or, ltb, leb, ◌==◌, if◌then◌else◌, Option, none, some,
}

unfoldable pub leap_year : ℕ → Bool
leap_year year =
    if not (year % 4 == 0)
    then false
    else if not (year % 100 == 0)
    then true
    else if not (year % 400 == 0)
    then false
    else true

-- The days of each month, 0 for any other number.
unfoldable pub days : ℕ → ℕ → ℕ
days year month =
    if month == 2
    then (if leap_year year then 29 else 28)
    else get_or (0 ∷ 31 ∷ 28 ∷ 31 ∷ 30 ∷ 31 ∷ 30 ∷ 31 ∷ 31 ∷ 30 ∷ 31 ∷ 30 ∷ 31 ∷ []) month 0

-- `read_number`: `n` characters from position `i` on; `none` is -1.
unfoldable pub read_number : List ℕ → ℕ → ℕ → ℕ → Option ℕ
read_number str zero i val = some val
read_number str (suc n) i val =
    let c = get_or str i 0 in
    let rest = read_number str n (i + 1) (val * 10 + (c - 0x30)) in
    if ltb c 0x30 || ltb 0x39 c then none else rest

-- The first loop of `write_number`, with `n` rounds to go: the rest of the buffer, lowest digit first.
unfoldable pub write_digits : ℕ → ℕ → List ℕ
write_digits zero val = []
write_digits (suc n) val =
    let r = val % 10 in
    let rest = write_digits n (val / 10) in
    if (val / 10 == 0) && (r == 0) then replicate (suc n) 0x30 else (0x30 + r) ∷ rest

abbrev pub backwards : List ℕ → List ℕ → List ℕ
backwards [] acc = acc
backwards (c ∷ buffer) acc = backwards buffer (c ∷ acc)

-- The characters that `write_number` writes: the buffer from its end.
unfoldable pub write_number : ℕ → ℕ → List ℕ
write_number len val = if ltb 4 len then [] else backwards (write_digits len val) []

unfoldable pub year_seconds : ℕ → ℕ
year_seconds year = if leap_year year then 86400 * 366 else 86400 * 365

-- The loops of `epoch_seconds` over `n` years from `year` on, and over `n` months from `mon` on.
unfoldable pub sum_years : ℕ → ℕ → ℕ
sum_years zero year = 0
sum_years (suc n) year = year_seconds year + sum_years n (year + 1)

unfoldable pub sum_months : ℕ → ℕ → ℕ → ℕ
sum_months zero year mon = 0
sum_months (suc n) year mon = 86400 * days year mon + sum_months n year (mon + 1)

-- `lo <= v && v <= hi` for a number that was read.
abbrev pub in_range : ℕ → ℕ → Option ℕ → Bool
in_range lo hi none = false
in_range lo hi (some v) = leb lo v && leb v hi

-- `v < lo` does not hold.
abbrev pub at_least : ℕ → Option ℕ → Bool
at_least lo none = false
at_least lo (some v) = leb lo v

abbrev pub value : Option ℕ → ℕ
value none = 0
value (some v) = v

-- `none` is LLONG_MIN.
unfoldable pub epoch_seconds : List ℕ → Option ℕ
epoch_seconds str =
    let year = read_number str 4 0 0 in
    let mon = read_number str 2 5 0 in
    let day = read_number str 2 8 0 in
    let hour = read_number str 2 11 0 in
    let min = read_number str 2 14 0 in
    let sec = read_number str 2 17 0 in
    if not (get_or str 4 0 == 0x2d) || not (get_or str 7 0 == 0x2d)
    then none
    else if not (get_or str 10 0 == 0x54)
    then none
    else if not (get_or str 13 0 == 0x3a) || not (get_or str 16 0 == 0x3a)
    then none
    else if not (
          in_range 1 12 mon
          && (in_range 1 31 day
              && (in_range 0 23 hour && (in_range 0 59 min && in_range 0 59 sec))))
        || not (at_least 1970 year)
    then none
    else if ltb (days (value year) (value mon)) (value day)
    then none
    else some (
        sum_years (value year - 1970) 1970
        + sum_months (value mon - 1) (value year) 1
        + 86400 * (value day - 1)
        + 3600 * value hour
        + 60 * value min
        + value sec)

-- The loop of `epoch_convert` over the years: the year, and the seconds that are left. A round takes off
-- 365 days or more.
unfoldable pub years_loop : ℕ → ℕ → ℕ → ℕ × ℕ
years_loop zero year seconds = (year, seconds)
years_loop (suc fuel) year seconds =
    let rest = years_loop fuel (year + 1) (seconds - year_seconds year) in
    if ltb seconds (year_seconds year) then (year, seconds) else rest

-- The loop over the months; 12 rounds are enough for the seconds of a year.
unfoldable pub months_loop : ℕ → ℕ → ℕ → ℕ → ℕ × ℕ
months_loop zero year mon seconds = (mon, seconds)
months_loop (suc fuel) year mon seconds =
    let rest = months_loop fuel year (mon + 1) (seconds - 86400 * days year mon) in
    if ltb seconds (86400 * days year mon) then (mon, seconds) else rest

pub record Fields : Type 0 where
  pub year : ℕ
  pub mon : ℕ
  pub day : ℕ
  pub hour : ℕ
  pub min : ℕ
  pub sec : ℕ

unfoldable pub convert_fields : ℕ → Fields
convert_fields seconds =
    let (year, in_year) = years_loop (suc (seconds / (86400 * 365))) 1970 seconds in
    let (mon, in_month) = months_loop 12 year 1 in_year in
    let in_day = in_month % 86400 in
    if ltb seconds 253402300799
    then record {
      year = year;
      mon = mon;
      day = in_month / 86400 + 1;
      hour = in_day / 3600;
      min = in_day % 3600 / 60;
      sec = in_day % 3600 % 60;
    }
    else record { year = 9999; mon = 12; day = 31; hour = 23; min = 59; sec = 59 }

abbrev pub format : Fields → List ℕ
format t =
    write_number 4 t.year
    ++ (0x2d
        ∷ (write_number 2 t.mon
            ++ (0x2d
                ∷ (write_number 2 t.day
                    ++ (0x54
                        ∷ (write_number 2 t.hour
                            ++ (0x3a
                                ∷ (write_number 2 t.min ++ (0x3a ∷ write_number 2 t.sec)))))))))

-- The 19 characters that `epoch_convert` writes.
unfoldable pub epoch_convert : ℕ → List ℕ
epoch_convert seconds = format (convert_fields seconds)
