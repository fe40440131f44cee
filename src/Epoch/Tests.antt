-- ===== src/Epoch/Tests.antt =====
-- Runs of epoch.c, and its properties at a date.
use dancy.Base.{ℕ, min, ◌≡◌, refl, List, [], ◌∷◌, some, none}
use dancy.Epoch.{
  leap_year, days, year_seconds, sum_years, sum_months, years_loop, months_loop, read_number,
  write_digits, write_number, convert_fields, epoch_convert, epoch_seconds,
}
use dancy.Epoch.RoundTrip.{epoch_seconds-epoch_convert}

runs : Unit {0}
unfolding leap_year days year_seconds sum_years sum_months years_loop months_loop read_number
    write_digits write_number convert_fields epoch_convert epoch_seconds
runs = tt

-- "2024-02-29T12:34:56"
abbrev leap_day : List ℕ
leap_day =
    0x32 ∷ 0x30 ∷ 0x32 ∷ 0x34 ∷ 0x2d ∷ 0x30 ∷ 0x32 ∷ 0x2d ∷ 0x32 ∷ 0x39 ∷ 0x54 ∷ 0x31 ∷ 0x32 ∷ 0x3a
    ∷ 0x33 ∷ 0x34 ∷ 0x3a ∷ 0x35 ∷ 0x36 ∷ []

seconds_run : epoch_seconds leap_day ≡ some 1709210096
unfolding runs
seconds_run = refl

convert_run : epoch_convert 1709210096 ≡ leap_day
unfolding runs
convert_run = refl

-- "2023-02-29T12:34:56" is no date.
no_leap_day :
    epoch_seconds (
      0x32 ∷ 0x30 ∷ 0x32 ∷ 0x33 ∷ 0x2d ∷ 0x30 ∷ 0x32 ∷ 0x2d ∷ 0x32 ∷ 0x39 ∷ 0x54 ∷ 0x31 ∷ 0x32
      ∷ 0x3a ∷ 0x33 ∷ 0x34 ∷ 0x3a ∷ 0x35 ∷ 0x36 ∷ [])
    ≡ none
unfolding runs
no_leap_day = refl

epoch_seconds-epoch_convert_example :
    epoch_seconds (epoch_convert 1709210096) ≡ some (min 1709210096 253402300799)
epoch_seconds-epoch_convert_example = epoch_seconds-epoch_convert 1709210096
