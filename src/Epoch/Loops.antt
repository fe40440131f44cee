-- ===== src/Epoch/Loops.antt =====
-- The loops of epoch.c over years and months.
use dancy.Base.{
  ℕ, zero, suc, ◌+◌, ◌-◌, ◌*◌, ◌≡◌, ◌≤◌, ◌<◌, refl, Bool, true, leb, arith, dec_lt, [], ◌∷◌, get_or,
}
use dancy.Base.Tables.{every_below, every_below_at}
use dancy.Epoch.{leap_year, days, year_seconds, sum_years, sum_months, years_loop, months_loop}

pub year_seconds_le :
    (year : ℕ) → (86400 * 365 ≤ year_seconds year) × (year_seconds year ≤ 86400 * 366)
unfolding year_seconds
year_seconds_le year = ground arith

-- The year is `n` years on, with `left` seconds of it to come.
pub record YearsLeft (year seconds : ℕ) (r : ℕ × ℕ) : Type 0 where
  pub n : ℕ
  pub year_is : r.0 ≡ year + n
  pub sum_is : seconds ≡ sum_years n year + r.1
  pub in_year : r.1 < year_seconds r.0

years-stop :
    (fuel year seconds : ℕ)
    → seconds < year_seconds year
    → years_loop (suc fuel) year seconds ≡ (year, seconds)
unfolding years_loop
years-stop fuel year seconds h = ground arith

years-next :
    (fuel year seconds : ℕ)
    → year_seconds year ≤ seconds
    → years_loop (suc fuel) year seconds ≡ years_loop fuel (year + 1) (seconds - year_seconds year)
unfolding years_loop
years-next fuel year seconds h = ground arith

sum_years-zero : (year : ℕ) → sum_years 0 year ≡ 0
unfolding sum_years
sum_years-zero year = refl

pub sum_years-suc :
    (n year : ℕ) → sum_years (suc n) year ≡ year_seconds year + sum_years n (year + 1)
unfolding sum_years
sum_years-suc n year = refl

one_year_on :
    (year seconds : ℕ) (r : ℕ × ℕ)
    → year_seconds year ≤ seconds
    → YearsLeft (year + 1) (seconds - year_seconds year) r
    → YearsLeft year seconds r
one_year_on year seconds r h y = record {
  n = suc y.n;
  year_is = omega (arith, y.year_is);
  sum_is = omega (arith, y.sum_is, sum_years-suc y.n year);
  in_year = y.in_year;
}

pub years_loop-YearsLeft :
    (fuel year seconds : ℕ)
    → seconds < fuel * (86400 * 365)
    → YearsLeft year seconds (years_loop fuel year seconds)
years_loop-YearsLeft zero year seconds h = absurd (omega arith)
years_loop-YearsLeft (suc fuel) year seconds h = elim (dec_lt seconds (year_seconds year)) [
  | yes lt ↦ rw (years-stop fuel year seconds lt) (record {
    n = 0;
    year_is = omega arith;
    sum_is = omega (arith, sum_years-zero year);
    in_year = lt;
  })
  | no ge ↦ rw (years-next fuel year seconds (omega arith)) (
      one_year_on year seconds _ (omega arith) (
        years_loop-YearsLeft fuel (year + 1) (seconds - year_seconds year)
          (omega (arith, year_seconds_le year))))
]

pub record MonthsLeft (f year mon seconds : ℕ) (r : ℕ × ℕ) : Type 0 where
  pub n : ℕ
  pub n_lt : n < f
  pub mon_is : r.0 ≡ mon + n
  pub sum_is : seconds ≡ sum_months n year mon + r.1
  pub in_month : r.1 < 86400 * days year r.0

months-stop :
    (fuel year mon seconds : ℕ)
    → seconds < 86400 * days year mon
    → months_loop (suc fuel) year mon seconds ≡ (mon, seconds)
unfolding months_loop
months-stop fuel year mon seconds h = ground arith

months-next :
    (fuel year mon seconds : ℕ)
    → 86400 * days year mon ≤ seconds
    → months_loop (suc fuel) year mon seconds
      ≡ months_loop fuel year (mon + 1) (seconds - 86400 * days year mon)
unfolding months_loop
months-next fuel year mon seconds h = ground arith

sum_months-zero : (year mon : ℕ) → sum_months 0 year mon ≡ 0
unfolding sum_months
sum_months-zero year mon = refl

sum_months-suc :
    (n year mon : ℕ)
    → sum_months (suc n) year mon ≡ 86400 * days year mon + sum_months n year (mon + 1)
unfolding sum_months
sum_months-suc n year mon = refl

one_month_on :
    (f year mon seconds : ℕ) (r : ℕ × ℕ)
    → 86400 * days year mon ≤ seconds
    → MonthsLeft f year (mon + 1) (seconds - 86400 * days year mon) r
    → MonthsLeft (suc f) year mon seconds r
one_month_on f year mon seconds r h m = record {
  n = suc m.n;
  n_lt = omega (arith, m.n_lt);
  mon_is = omega (arith, m.mon_is);
  sum_is = omega (arith, m.sum_is, sum_months-suc m.n year mon);
  in_month = m.in_month;
}

pub months_loop-MonthsLeft :
    (fuel year mon seconds : ℕ)
    → seconds < sum_months fuel year mon
    → MonthsLeft fuel year mon seconds (months_loop fuel year mon seconds)
months_loop-MonthsLeft zero year mon seconds h = absurd (omega (arith, sum_months-zero year mon))
months_loop-MonthsLeft (suc fuel) year mon seconds h =
    elim (dec_lt seconds (86400 * days year mon)) [
      | yes lt ↦ rw (months-stop fuel year mon seconds lt) (record {
        n = 0;
        n_lt = omega arith;
        mon_is = omega arith;
        sum_is = omega (arith, sum_months-zero year mon);
        in_month = lt;
      })
      | no ge ↦ rw (months-next fuel year mon seconds (omega arith)) (
          one_month_on fuel year mon seconds _ (omega arith) (
            months_loop-MonthsLeft fuel year (mon + 1) (seconds - 86400 * days year mon)
              (omega (arith, sum_months-suc fuel year mon))))
    ]

-- The twelve months are the year.
pub sum_months-year : (year : ℕ) → sum_months 12 year 1 ≡ year_seconds year
unfolding sum_months days year_seconds
sum_months-year year = ground arith

pub sum_years_mono : (k n year : ℕ) → k ≤ n → sum_years k year ≤ sum_years n year
sum_years_mono zero n year h = omega (arith, sum_years-zero year)
sum_years_mono (suc k) zero year h = absurd (omega arith)
sum_years_mono (suc k) (suc n) year h =
    omega (
      arith,
      sum_years_mono k n (year + 1) (omega arith),
      sum_years-suc k year,
      sum_years-suc n year,
    )

-- The years from 1970 to 9999.
pub sum_years_all : sum_years 8030 1970 ≡ 253402300800
unfolding sum_years year_seconds leap_year
sum_years_all = refl

short_month : ℕ → Bool
short_month mon =
    leb (get_or (0 ∷ 31 ∷ 28 ∷ 31 ∷ 30 ∷ 31 ∷ 30 ∷ 31 ∷ 31 ∷ 30 ∷ 31 ∷ 30 ∷ 31 ∷ []) mon 0) 31

months_table : every_below 13 short_month ≡ true
unfolding every_below short_month
months_table = refl

pub days_le : (year mon : ℕ) → mon ≤ 12 → days year mon ≤ 31
unfolding days short_month
days_le year mon h =
    let row = every_below_at 13 short_month mon months_table (omega arith) in ground (arith, row)
