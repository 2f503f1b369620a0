-- ===== src/Time/Calendar.antt =====
-- checkTM of time/Time.hpp against the lengths of the months.
use c_plus_plus.Prelude.{
  ℕ, ◌+◌, ◌-◌, ◌/◌, ◌%◌, ◌^◌, ◌<◌, min, ◌≡◌, refl, ap, ◌∙◌, inl, inr, Bool, true, false, ◌&&◌, ◌||◌,
  Option, some, arith, ltb, leb, ◌==◌, if◌then◌else◌, ltb→lt, Bool-cases,
}
use c_plus_plus.Time.{
  ℤ, pos, negsuc, Tm, less_than, greater_than, next_is, year_of, is_leap, check_tm,
}

-- January is 0. The long months take turns, from January and again from August on.
abbrev pub month_length : Bool → ℕ → ℕ
month_length leap month =
    if month == 1 then (if leap then 29 else 28) else if month % 7 % 2 == 0 then 31 else 30

abbrev pub between : ℕ → ℕ → ℤ → Bool
between low high (pos n) = leb low n && leb n high
between low high (negsuc n) = false

abbrev pub is_day : Bool → ℤ → ℤ → Bool
is_day leap (pos month) day = leb month 11 && between 1 (month_length leap month) day
is_day leap (negsuc month) day = false

-- The leap years of the Gregorian calendar: every fourth year, and of the years that end a century every
-- fourth one.
abbrev pub is_gregorian_leap : ℕ → Bool
is_gregorian_leap year = if year % 100 == 0 then year / 100 % 4 == 0 else year % 4 == 0

-- A year of the calendar, where the year in front of 1 is 0 and the one in front of that -1, and the years
-- from 1900 to it.
abbrev pub leap : ℤ → Bool
leap (pos year) = is_gregorian_leap year
leap (negsuc n) = is_gregorian_leap (n + 1)

abbrev pub since_1900 : ℤ → ℤ
since_1900 (pos year) = if leb 1900 year then pos (year - 1900) else negsuc (1899 - year)
since_1900 (negsuc n) = negsuc (n + 1900)

-- Whether a year is at most the greatest `int`.
abbrev pub is_int_year : ℤ → Bool
is_int_year (pos year) = ltb year (2 ^ 31)
is_int_year (negsuc n) = true

is_leap-gregorian : (year : ℕ) → is_leap year ≡ is_gregorian_leap year
is_leap-gregorian year = ground arith

year_of-pos : (n year : ℕ) → n + 1900 ≡ year → year < 2 ^ 31 → year_of (pos n) ≡ some year
unfolding year_of
year_of-pos n year e h =
    let fits : ltb (n + 1900) (2 ^ 31) ≡ true = ground (arith, e, h) in rw fits (ap some e)

year_of-earlier : (n year : ℕ) → n + year ≡ 1899 → year_of (negsuc n) ≡ some year
unfolding year_of
year_of-earlier n year e =
    let below : leb (n + 1) 1900 ≡ true = ground (arith, e) in rw below (ap some (omega (arith, e)))

year_of-before : (n : ℕ) → year_of (negsuc (n + 1900)) ≡ some (n + 1)
unfolding year_of
year_of-before n =
    let above : leb (n + 1900 + 1) 1900 ≡ false = ground arith in rw above (ap some (omega arith))

year_of-since_1900 :
    (year : ℤ)
    → is_int_year year ≡ true
    → (y : ℕ) × ((year_of (since_1900 year) ≡ some y) × (is_leap y ≡ leap year))
year_of-since_1900 (pos year) h = elim (Bool-cases (leb 1900 year)) [
  | inl l ↦ (
    year,
    (
      ap (λ b. year_of (if b then pos (year - 1900) else negsuc (1899 - year))) l
          ∙ year_of-pos (year - 1900) year (ground (arith, l)) (ltb→lt year (2 ^ 31) h),
      is_leap-gregorian year,
    ),
  )
  | inr l ↦ (
    year,
    (
      ap (λ b. year_of (if b then pos (year - 1900) else negsuc (1899 - year))) l
          ∙ year_of-earlier (1899 - year) year (ground (arith, l)),
      is_leap-gregorian year,
    ),
  )
]
year_of-since_1900 (negsuc n) h = (n + 1, (year_of-before n, is_leap-gregorian (n + 1)))

-- What is left of the test for a month and a day within bounds.
abbrev day_left : Bool → ℕ → ℕ → Bool
day_left leap m d =
    if (m + 1 == 4 || m + 1 == 6 || m + 1 == 9 || m + 1 == 11) && ltb 30 d
    then false
    else if m + 1 == 2
    then (if leap then (if ltb 29 d then false else true) else if ltb 28 d then false else true)
    else true

some_day :
    (leap : Bool) (m d : ℕ)
    → ◌≡◌ {A = Option Bool}
        (if (m + 1 == 4 || m + 1 == 6 || m + 1 == 9 || m + 1 == 11) && ltb 30 d
          then some false
          else if m + 1 == 2
          then (if leap
              then (if ltb 29 d then some false else some true)
              else if ltb 28 d
              then some false
              else some true)
          else some true)
        (some (day_left leap m d))
some_day true m d = ground arith
some_day false m d = ground arith

date_lem :
    (leap : Bool) (m d : ℕ)
    → (if ltb 11 m || ltb d 1 || ltb 31 d then false else day_left leap m d)
      ≡ (leb m 11 && (leb 1 d && leb d (month_length leap m)))
date_lem true m d = ground arith
date_lem false m d = ground arith

time_lem :
    (a b c day : Bool) (m h mi s : ℕ)
    → ◌≡◌ {A = Option Bool}
        (if ltb m 0
            || a
            || b
            || c
            || ltb h 0
            || ltb 23 h
            || ltb mi 0
            || ltb 59 mi
            || ltb s 0
            || ltb 59 s
          then some false
          else some day)
        (some (
          (if a || b || c then false else day)
          && (leb 0 h && leb h 23)
          && (leb 0 mi && leb mi 59)
          && (leb 0 s && leb s 59)))
time_lem true b c day m h mi s = ground arith
time_lem false true c day m h mi s = ground arith
time_lem false false true day m h mi s = ground arith
time_lem false false false true m h mi s = ground arith
time_lem false false false false m h mi s = ground arith

with_year :
    (t : Tm) (year : ℕ)
    → year_of t.tm_year ≡ some year
    → check_tm (some t) ≡ (
        if less_than t.tm_mon 0
          || greater_than t.tm_mon 11
          || less_than t.tm_mday 1
          || greater_than t.tm_mday 31
          || less_than t.tm_hour 0
          || greater_than t.tm_hour 23
          || less_than t.tm_min 0
          || greater_than t.tm_min 59
          || less_than t.tm_sec 0
          || greater_than t.tm_sec 59
        then some false
        else if (next_is t.tm_mon 4
              || next_is t.tm_mon 6
              || next_is t.tm_mon 9
              || next_is t.tm_mon 11)
            && greater_than t.tm_mday 30
        then some false
        else if next_is t.tm_mon 2
        then (if is_leap year
            then (if greater_than t.tm_mday 29 then some false else some true)
            else if greater_than t.tm_mday 28
            then some false
            else some true)
        else some true)
unfolding check_tm
with_year t year h = rw (h, check_tm) refl

date_and_time :
    (leap : Bool) (m d h mi s : ℕ)
    → (if ltb m 0
          || ltb 11 m
          || ltb d 1
          || ltb 31 d
          || ltb h 0
          || ltb 23 h
          || ltb mi 0
          || ltb 59 mi
          || ltb s 0
          || ltb 59 s
        then some false
        else if (m + 1 == 4 || m + 1 == 6 || m + 1 == 9 || m + 1 == 11) && ltb 30 d
        then some false
        else if m + 1 == 2
        then (if leap
            then (if ltb 29 d then some false else some true)
            else if ltb 28 d
            then some false
            else some true)
        else some true)
      ≡ some (
          leb m 11
          && (leb 1 d && leb d (month_length leap m))
          && (leb 0 h && leb h 23)
          && (leb 0 mi && leb mi 59)
          && (leb 0 s && leb s 59))
date_and_time leap m d h mi s =
    ap
      (λ o.
        if ltb m 0
          || ltb 11 m
          || ltb d 1
          || ltb 31 d
          || ltb h 0
          || ltb 23 h
          || ltb mi 0
          || ltb 59 mi
          || ltb s 0
          || ltb 59 s
        then some false
        else o)
      (some_day leap m d)
    ∙ time_lem (ltb 11 m) (ltb d 1) (ltb 31 d) (day_left leap m d) m h mi s
    ∙ ap
        (λ b. some (b && (leb 0 h && leb h 23) && (leb 0 mi && leb mi 59) && (leb 0 s && leb s 59)))
        (date_lem leap m d)

same_day :
    (t : Tm) (year : ℕ) (mon mday hour min sec : ℤ)
    → year_of t.tm_year ≡ some year
    → t.tm_mon ≡ mon
    → t.tm_mday ≡ mday
    → t.tm_hour ≡ hour
    → t.tm_min ≡ min
    → t.tm_sec ≡ sec
    → check_tm (some t)
      ≡ some (
          is_day (is_leap year) mon mday
          && between 0 23 hour
          && between 0 59 min
          && between 0 59 sec)
same_day t year mon mday hour min sec h a b c d e =
    rw (with_year t year h, a, b, c, d, e) (go mon mday hour min sec)
  where
    go :
        (mon mday hour min sec : ℤ)
        → ◌≡◌ {A = Option Bool}
            (if less_than mon 0
                || greater_than mon 11
                || less_than mday 1
                || greater_than mday 31
                || less_than hour 0
                || greater_than hour 23
                || less_than min 0
                || greater_than min 59
                || less_than sec 0
                || greater_than sec 59
              then some false
              else if (next_is mon 4 || next_is mon 6 || next_is mon 9 || next_is mon 11)
                  && greater_than mday 30
              then some false
              else if next_is mon 2
              then (if is_leap year
                  then (if greater_than mday 29 then some false else some true)
                  else if greater_than mday 28
                  then some false
                  else some true)
              else some true)
            (some (
              is_day (is_leap year) mon mday
              && between 0 23 hour
              && between 0 59 min
              && between 0 59 sec))
    go (negsuc m) day h mi s = refl
    go (pos m) (negsuc d) h mi s = ground arith
    go (pos m) (pos d) (negsuc h) mi s = ground arith
    go (pos m) (pos d) (pos h) (negsuc mi) s = ground arith
    go (pos m) (pos d) (pos h) (pos mi) (negsuc s) = ground arith
    go (pos m) (pos d) (pos h) (pos mi) (pos s) = date_and_time (is_leap year) m d h mi s

-- For the years of the calendar up to the greatest `int`, `checkTM` accepts exactly the days of the
-- Gregorian calendar, with its years that are divisible by 4 and, of those that end a century, by 400 as the
-- leap years, with an hour below 24 and a minute and a second below 60.
pub check_tm-is_day :
    (year : ℤ) (t : Tm)
    → is_int_year year ≡ true
    → t.tm_year ≡ since_1900 year
    → check_tm (some t)
      ≡ some (
          is_day (leap year) t.tm_mon t.tm_mday
          && between 0 23 t.tm_hour
          && between 0 59 t.tm_min
          && between 0 59 t.tm_sec)
check_tm-is_day year t h e =
    let (y, fits) = year_of-since_1900 year h in
    same_day t y t.tm_mon t.tm_mday t.tm_hour t.tm_min t.tm_sec (ap year_of e ∙ fits.0) refl refl
      refl refl refl
    ∙ ap
        (λ b. some (
          is_day b t.tm_mon t.tm_mday
          && between 0 23 t.tm_hour
          && between 0 59 t.tm_min
          && between 0 59 t.tm_sec))
        fits.1
