-- ===== src/ConfigValues/Durations.antt =====
-- `durationToISO8601` of pkg/internal/utils/config_value_utils.go, over nanoseconds.
use prefab_cloud_go.Prelude.{
  ℕ, zero, suc, ◌+◌, ◌*◌, ◌/◌, ◌%◌, ◌<◌, ltb, ◌==◌, if◌then◌else◌, ℤ, pos, negsuc, GoString, codes,
  ◌≡◌, ◌&&◌, ◌||◌, [], ◌∷◌, ◌++◌, arith,
}
use prefab_cloud_go.Prelude.Decimal.{show_nat}

abbrev pub second : ℕ
second = 1000000000

abbrev pub minute : ℕ
minute = 60 * second

abbrev pub hour : ℕ
hour = 60 * minute

abbrev pub day : ℕ
day = 24 * hour

abbrev pub month : ℕ
month = 30 * day

abbrev pub year : ℕ
year = 365 * day

-- The variables of the function; the seconds are kept in nanoseconds, `d % time.Minute`.
pub record IsoParts : Type 0 where
  pub years : ℕ
  pub months : ℕ
  pub days : ℕ
  pub hours : ℕ
  pub minutes : ℕ
  pub nanos : ℕ

unfoldable pub iso_parts : ℕ → IsoParts
iso_parts d = record {
  years = d / year;
  months = (d % year) / month;
  days = (d % month) / day;
  hours = (d % day) / hour;
  minutes = (d % hour) / minute;
  nanos = d % minute;
}

-- A number with its unit, or nothing for zero.
part : ℕ → ℕ → GoString
part n letter = if ltb 0 n then show_nat n ++ letter ∷ [] else []

-- The last `count` decimal digits of n.
padded : ℕ → ℕ → GoString
padded zero n = []
padded (suc count) n = padded count (n / 10) ++ (n % 10 + b'0') ∷ []

-- `%.9f` of the seconds.
exact_seconds : ℕ → GoString
unfolding padded
exact_seconds nanos = show_nat (nanos / second) ++ b'.' ∷ padded 9 (nanos % second)

-- The nearest whole number of seconds, ties to even, as `%02.0f` rounds.
rounded : ℕ → ℕ
rounded nanos =
    let whole = nanos / second in
    let rest = 2 * (nanos % second) in
    if ltb rest second then whole else if ltb second rest then whole + 1 else whole + whole % 2

whole_seconds : ℕ → GoString
unfolding rounded padded
whole_seconds nanos = padded 2 (rounded nanos)

seconds_part : IsoParts → GoString
unfolding exact_seconds whole_seconds
seconds_part p =
    if ltb 0 p.nanos
    then (if p.hours == 0 && p.minutes == 0
        then exact_seconds p.nanos ++ b'S' ∷ []
        else whole_seconds p.nanos ++ b'S' ∷ [])
    else if ltb 0 p.hours || ltb 0 p.minutes
    then codes "0S"
    else []

time_mark : IsoParts → GoString
time_mark p = if ltb 0 p.hours || ltb 0 p.minutes || ltb 0 p.nanos then b'T' ∷ [] else []

render : IsoParts → GoString
unfolding part seconds_part time_mark
render p =
    b'P'
    ∷ (part p.years b'Y'
        ++ (part p.months b'M'
            ++ (part p.days b'D'
                ++ (time_mark p
                    ++ (part p.hours b'H' ++ (part p.minutes b'M' ++ seconds_part p))))))

-- No part of a negative duration is above zero, so nothing is written behind the P.
unfoldable pub duration_to_iso8601 : ℤ → GoString
unfolding render iso_parts
duration_to_iso8601 (pos d) = render (iso_parts d)
duration_to_iso8601 (negsuc d) = codes "P"

-- The time that the parts stand for, with months of 30 days and years of 365.
unfoldable pub total : IsoParts → ℕ
total p =
    p.years * year + p.months * month + p.days * day + p.hours * hour + p.minutes * minute + p.nanos

-- Below a year the parts add up to the duration.
pub total-iso_parts : (d : ℕ) → d < year → total (iso_parts d) ≡ d
unfolding total iso_parts
total-iso_parts d h = omega arith

-- In general the days are counted from the wrong remainder: the parts stand for the duration with
-- the rest of the year taken modulo the months of the whole.
pub total-iso_parts-year : (d : ℕ) → total (iso_parts d) + (d % year) % month ≡ d + d % month
unfolding total iso_parts
total-iso_parts-year d = omega arith
