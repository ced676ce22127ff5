-- ===== src/Shared/Dates.antt =====
-- `Date.prototype.toISOString` of a time in milliseconds from 1970 on, in the Gregorian calendar.
use Prim.Native.Nat.{ℕ, zero, suc, ◌+◌, ◌-◌, ◌*◌, ◌/◌, ◌%◌}
use Prim.Native.String.{String, ◌++◌ as concat}
use mathlib.Core.Path.{◌≡◌, refl}
use wordclaw.Shared.Tests.{leb, ltb, if◌then◌else◌}
use wordclaw.Shared.Decimal.{decimal}

-- A zero for each of the next `fuel` powers of ten, from `bound`, that `n` is below.
zeros : ℕ → ℕ → ℕ → String
zeros zero bound n = ""
zeros (suc fuel) bound n =
    let rest = zeros fuel (bound * 10) n in if ltb n bound then concat "0" rest else rest

-- `n` in at least `width + 1` digits.
padded : ℕ → ℕ → String
unfolding zeros
padded width n = concat (zeros width 10 n) (decimal n)

record Civil : Type 0 where
  year : ℕ
  month : ℕ
  day : ℕ

-- The date of a day, days being counted from 1970-01-01; years of this count begin in March.
civil : ℕ → Civil
civil days =
    let z : ℕ = days + 719468 in
    let of_era : ℕ = z % 146097 in
    let year_of_era : ℕ = (of_era - of_era / 1460 + of_era / 36524 - of_era / 146096) / 365 in
    let of_year : ℕ = of_era - (365 * year_of_era + year_of_era / 4 - year_of_era / 100) in
    let from_march : ℕ = (5 * of_year + 2) / 153 in
    let y : ℕ = z / 146097 * 400 + year_of_era in
    let d : ℕ = of_year - (153 * from_march + 2) / 5 + 1 in
    if ltb from_march 10
    then record { year = y; month = from_march + 3; day = d }
    else record { year = y + 1; month = from_march - 9; day = d }

-- A year of more than four digits has a sign and six.
year_text : ℕ → String
unfolding padded
year_text y = if leb y 9999 then padded 3 y else concat "+" (padded 5 y)

pub to_iso_string : ℕ → String
unfolding padded civil year_text
to_iso_string ms =
    let d : Civil = civil (ms / 86400000) in
    let t : ℕ = ms % 86400000 in
    concat (year_text d.year) (
      concat "-" (
        concat (padded 1 d.month) (
          concat "-" (
            concat (padded 1 d.day) (
              concat "T" (
                concat (padded 1 (t / 3600000)) (
                  concat ":" (
                    concat (padded 1 (t / 60000 % 60)) (
                      concat ":" (
                        concat (padded 1 (t / 1000 % 60))
                          (concat "." (concat (padded 2 (t % 1000)) "Z"))))))))))))

epoch : to_iso_string 0 ≡ "1970-01-01T00:00:00.000Z"
unfolding to_iso_string decimal
epoch = refl

leap_day : to_iso_string 951782400000 ≡ "2000-02-29T00:00:00.000Z"
unfolding to_iso_string decimal
leap_day = refl

in_year : to_iso_string 1700000000123 ≡ "2023-11-14T22:13:20.123Z"
unfolding to_iso_string decimal
in_year = refl

new_year : to_iso_string 1704067199999 ≡ "2023-12-31T23:59:59.999Z"
unfolding to_iso_string decimal
new_year = refl

last_date : to_iso_string 8640000000000000 ≡ "+275760-09-13T00:00:00.000Z"
unfolding to_iso_string decimal
last_date = refl
