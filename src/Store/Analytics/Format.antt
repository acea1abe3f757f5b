-- ===== src/Store/Analytics/Format.antt =====
-- The texts of the report: FormatDuration and PeakUsageTimes of internal/store/analytics_memory.go.
pub mod Exact
use ocpphal_go.Prelude.{
  ℕ, zero, suc, ◌+◌, ◌/◌, ◌%◌, String, Bool, not, ◌&&◌, List, [], ◌∷◌, ℤ, pos, negsuc, Float, ltb,
  eqb, if◌then◌else◌, itoa, String_key, ◌==◌, ◌<>◌, sort_strings,
}
use ocpphal_go.Store.Types.{Time}

-- The values of FormatDuration's parts.
pub record Parts : Type 0 where
  pub years : ℕ
  pub days : ℕ
  pub hours : ℕ
  pub minutes : ℕ
  pub seconds : ℕ

unfoldable pub parts : ℕ → Parts
parts n =
    let of_year = n % 31536000 in
    let of_day = of_year % 86400 in
    let of_hour = of_day % 3600 in
    record {
      years = n / 31536000;
      days = of_year / 86400;
      hours = of_day / 3600;
      minutes = of_hour / 60;
      seconds = of_hour % 60;
    }

-- One pass of FormatDuration's loop.
unfoldable pub add_part : String → ℕ → String → String
add_part out value name =
    if eqb value 0
    then out
    else (if out == "" then out else out <> ", ") <> itoa (pos value) <> " " <> name

unfoldable pub format_parts : Parts → String
unfolding add_part
format_parts p =
    let out =
      add_part
        (add_part (add_part (add_part (add_part "" p.years "years") p.days "days") p.hours "hours")
          p.minutes "minutes")
        p.seconds "seconds" in
    if out == "" then "0 seconds" else out

-- A negative number of seconds counts as none.
abbrev pub at_least_zero : ℤ → ℕ
at_least_zero (pos n) = n
at_least_zero (negsuc n) = 0

-- The largest number in the list, if it is above `most`.
unfoldable pub max_count : ℕ → List ℕ → ℕ
max_count most [] = most
max_count most (count ∷ peak) = max_count (if ltb most count then count else most) peak

-- The hours, from `hour` on, whose count is `most`.
unfoldable pub hours_with : ℕ → ℕ → List ℕ → List ℕ
hours_with most hour [] = []
hours_with most hour (count ∷ peak) =
    let later = hours_with most (suc hour) peak in if eqb count most then hour ∷ later else later

abbrev pub two_digits : ℕ → String
two_digits n = if ltb n 10 then "0" <> itoa (pos n) else itoa (pos n)

unfoldable pub format_peak_hour : ℕ → String
format_peak_hour hour = two_digits (hour % 24) <> ":00 - " <> two_digits ((hour + 1) % 24) <> ":00"

unfoldable pub format_hours : List ℕ → List String
unfolding format_peak_hour
format_hours [] = []
format_hours (hour ∷ hours) = format_peak_hour hour ∷ format_hours hours

unfoldable pub comma_separated : List String → String
comma_separated [] = ""
comma_separated (s ∷ []) = s
comma_separated (s ∷ t ∷ ss) = s <> ", " <> comma_separated (t ∷ ss)

abbrev pub count_of : List ℕ → ℕ
count_of [] = 0
count_of (n ∷ ns) = suc (count_of ns)

unfoldable pub peak_usage_times : List ℕ → String
unfolding max_count hours_with format_hours comma_separated
peak_usage_times peak =
    let most = max_count 0 peak in
    if not (eqb (count_of peak) 24)
    then "No data available"
    else if eqb most 0
    then "No peak usage times - charger was not used during this period."
    else comma_separated (sort_strings (format_hours (hours_with most 0 peak)))

-- `peak[hour]++`
unfoldable pub bump : ℕ → List ℕ → List ℕ
bump hour [] = []
bump zero (count ∷ peak) = suc count ∷ peak
bump (suc hour) (count ∷ peak) = count ∷ bump hour peak

-- The zero time is midnight.
abbrev pub hour_of : Time → ℕ
hour_of t = t / 3600000000000 % 24

abbrev pub no_hours : List ℕ
no_hours =
    0 ∷ 0 ∷ 0 ∷ 0 ∷ 0 ∷ 0 ∷ 0 ∷ 0 ∷ 0 ∷ 0 ∷ 0 ∷ 0 ∷ 0 ∷ 0 ∷ 0 ∷ 0 ∷ 0 ∷ 0 ∷ 0 ∷ 0 ∷ 0 ∷ 0 ∷ 0 ∷ 0
    ∷ []

unfoldable pub format_duration : {F : Type 0} ⦃f : Float F⦄ → F → String
unfolding parts format_parts
format_duration ⦃f⦄ s = format_parts (parts (at_least_zero (f.to_int (f.round s))))
