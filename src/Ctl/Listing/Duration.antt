-- ===== src/Ctl/Listing/Duration.antt =====
-- `shortDuration` of cmd/sshhub-ctl/main.go. A duration is a number of nanoseconds. The code divides in
-- float64, which keeps the whole number of hours below 4096 hours, and that of minutes and seconds where
-- it shows them; this is the range of the theorems.
use sshhub.Base.{
  ◌≡◌, refl, ℕ, ◌+◌, ◌*◌, ◌/◌, ◌%◌, ◌≤◌, ◌<◌, ◌++◌, if◌then◌else◌, true, ltb, arith, Bool-cases,
  inl, inr,
}
use sshhub.Base.Int.{ℤ, pos, negsuc}
use sshhub.Text.{Str, codes}
use sshhub.Text.Decimal.{decimal}

abbrev pub second : ℕ
second = 1_000_000_000

abbrev pub minute : ℕ
minute = 60 * second

abbrev pub hour : ℕ
hour = 60 * minute

unfoldable pub short_duration : ℤ → Str
short_duration (negsuc n) = codes "-"
short_duration (pos d) =
    if ltb d minute
    then decimal (d / second) ++ codes "s"
    else if ltb d hour
    then decimal (d / minute) ++ codes "m"
    else if ltb d (24 * hour)
    then decimal (d / hour) ++ (codes "h" ++ (decimal (d / minute % 60) ++ codes "m"))
    else decimal (d / hour / 24) ++ (codes "d" ++ (decimal (d / hour % 24) ++ codes "h"))

-- A text that says a time span: at least so many nanoseconds, and less than one unit more. Hours and
-- minutes are for at least an hour, days and hours for at least a day.
pub data Says : Str → ℕ → ℕ → Type 0 where
  seconds : (n : ℕ) → n < 60 → Says (decimal n ++ codes "s") (n * second) second
  minutes : (n : ℕ) → n < 60 → Says (decimal n ++ codes "m") (n * minute) minute
  hours :
      (h m : ℕ)
      → 1 ≤ h
      → h < 24
      → m < 60
      → Says (decimal h ++ (codes "h" ++ (decimal m ++ codes "m"))) (h * hour + m * minute) minute
  days :
      (d h : ℕ)
      → 1 ≤ d
      → h < 24
      → Says
          (decimal d ++ (codes "d" ++ (decimal h ++ codes "h")))
          (d * (24 * hour) + h * hour)
          hour

-- How exactly a span is shown: to the second below a minute, to the minute below a day, and to the hour
-- from there.
abbrev pub unit_for : ℕ → ℕ
unit_for d = if ltb d minute then second else if ltb d (24 * hour) then minute else hour

shown :
    (d : ℕ)
    → d < 4096 * hour
    → (low : ℕ) × Says (short_duration (pos d)) low (unit_for d)
      × (low ≤ d)
      × (d < low + unit_for d)
unfolding short_duration
shown d small = elim (Bool-cases (ltb d minute)) [
  | inl below ↦
      rw below (d / second * second, seconds (d / second) (ground arith), omega arith, omega arith)
  | inr above ↦ elim (Bool-cases (ltb d hour)) [
    | inl below ↦
        let short : ltb d (24 * hour) ≡ true = ground arith in
        rw (above, below, short)
          (d / minute * minute, minutes (d / minute) (ground arith), omega arith, omega arith)
    | inr above_hour ↦ elim (Bool-cases (ltb d (24 * hour))) [
      | inl below ↦
          rw (above, above_hour, below)
            (
              d / hour * hour + d / minute % 60 * minute,
              hours (d / hour) (d / minute % 60) (ground arith) (ground arith) (omega arith),
              omega arith,
              omega arith,
            )
      | inr above_day ↦
          rw (above, above_hour, above_day)
            (
              d / hour / 24 * (24 * hour) + d / hour % 24 * hour,
              days (d / hour / 24) (d / hour % 24) (ground arith) (omega arith),
              omega arith,
              omega arith,
            )
    ]
  ]
]

-- A span that is not negative, and shorter than 4096 hours, is shown by a text that says it, rounded
-- down: to the second below a minute, to the minute below a day, and to the hour from there, with no
-- part as large as the next unit. A negative span is shown as a dash.
pub short_duration-Says :
    (d : ℕ)
    → d < 4096 * hour
    → ((low : ℕ) × Says (short_duration (pos d)) low (unit_for d)
        × (low ≤ d)
        × (d < low + unit_for d))
      × (short_duration (negsuc d) ≡ codes "-")
unfolding short_duration
short_duration-Says d small = (shown d small, refl)
