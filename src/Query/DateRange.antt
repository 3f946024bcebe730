-- ===== src/Query/DateRange.antt =====
-- DateRange of internal/ports/repository/daterange.go.
use golang_restapi.Base.{
  ◌⊎◌, inl, inr, ◌+◌, ◌*◌, String, Bool, true, false, ◌||◌, Option, none, some, ◌==◌, string_eq,
  if◌then◌else◌, ◌≡◌, refl, arith,
}
use golang_restapi.Query.{Time}
use golang_restapi.Redis.Revocation.{second}

pub record DateRange : Type 0 where
  pub date : String
  pub from : String
  pub to : String

-- Parsing and printing of package time: calendar dates, which are in UTC, and RFC 3339 timestamps.
pub record Calendar : Type 0 where
  pub parse_day : String → Option Time
  pub parse_timestamp : String → Option Time
  pub format_day : Time → String
  pub format_timestamp : Time → String

-- What Bounds returns besides the rewritten fields.
pub record Interval : Type 0 where
  pub from : Time
  pub to : Time
  pub ok : Bool

-- a bound, and whether it is a bare date
abbrev pub Bound : Type 0
Bound = Option (Time × Bool)

abbrev pub zero_time : Time
zero_time = record { nanos = 0; zone = "UTC" }

-- Add(24 * time.Hour), and AddDate(0, 0, 1) of a time in UTC
abbrev pub next_day : Time → Time
next_day t = record t { nanos = t.nanos + 24 * 3600 * second }

module _ (cal : Calendar) where
  abbrev pub or_timestamp : Option Time → Option Time → Bound
  or_timestamp (some t) _ = some (t, true)
  or_timestamp none (some t) = some (t, false)
  or_timestamp none none = none

  -- parseBound, where there is something to parse
  unfoldable pub parse_bound : String → Bound
  parse_bound value =
      if value == "" then none else or_timestamp (cal.parse_day value) (cal.parse_timestamp value)

  -- canonicalDate, and "" for a value that was dropped
  abbrev pub canonical : Bound → String
  canonical none = ""
  canonical (some (t, date_only)) = if date_only then cal.format_day t else cal.format_timestamp t

  abbrev pub is_given : Bound → Bool
  is_given none = false
  is_given (some _) = true

  abbrev pub lower : Bound → Time
  lower none = zero_time
  lower (some (t, _)) = t

  -- a bare date includes its whole day
  abbrev pub upper : Bound → Time
  upper none = zero_time
  upper (some (t, date_only)) = if date_only then next_day t else t

  abbrev pub open_range : Bound → Bound → DateRange × Interval
  open_range from to = (
    record { date = ""; from = canonical from; to = canonical to },
    record { from = lower from; to = upper to; ok = is_given from || is_given to },
  )

  abbrev pub choose : Bound → Bound → Bound → DateRange × Interval
  choose none from to = open_range from to
  choose (some (t, date_only)) from to = (
    record { date = canonical (some (t, date_only)); from = ""; to = "" },
    record { from = t; to = next_day t; ok = true },
  )

  -- Bounds: the range as it stands after it, and the interval
  unfoldable pub bounds : DateRange → DateRange × Interval
  unfolding parse_bound
  bounds d = choose (parse_bound d.date) (parse_bound d.from) (parse_bound d.to)

  -- What the canonical forms rely on package time for: a time that was read is written in a form
  -- that is read back as the same time, and a timestamp is no bare date.
  pub record IsCalendar : Type 0 where
    pub day :
        (v : String) (t : Time)
        → cal.parse_day v ≡ some t
        → cal.parse_day (cal.format_day t) ≡ some t
    pub day_text : (t : Time) → cal.format_day t == "" ≡ false
    pub timestamp :
        (v : String) (t : Time)
        → cal.parse_timestamp v ≡ some t
        → cal.parse_timestamp (cal.format_timestamp t) ≡ some t
    pub timestamp_text : (t : Time) → cal.format_timestamp t == "" ≡ false
    pub no_day : (t : Time) → cal.parse_day (cal.format_timestamp t) ≡ none

  read_back :
      (v : String) (day timestamp : Option Time)
      → IsCalendar
      → cal.parse_day v ≡ day
      → cal.parse_timestamp v ≡ timestamp
      → parse_bound (canonical (or_timestamp day timestamp)) ≡ or_timestamp day timestamp
  unfolding parse_bound
  read_back v (some t) timestamp is d e = ground (arith, is.day v t d, is.day_text t)
  read_back v none (some t) is d e =
      ground (arith, is.timestamp v t e, is.timestamp_text t, is.no_day t)
  read_back v none none is d e = refl

  parse_bound-canonical :
      (v : String) → IsCalendar → parse_bound (canonical (parse_bound v)) ≡ parse_bound v
  unfolding parse_bound
  parse_bound-canonical v is = go (v == "")
    where
      read : Bound
      read = or_timestamp (cal.parse_day v) (cal.parse_timestamp v)

      go :
          (empty : Bool)
          → parse_bound (canonical (if empty then none else read)) ≡ (if empty then none else read)
      go true = refl
      go false = read_back v (cal.parse_day v) (cal.parse_timestamp v) is refl refl

  choose_again :
      (date from to : Bound)
      → parse_bound (canonical date) ≡ date
      → parse_bound (canonical from) ≡ from
      → parse_bound (canonical to) ≡ to
      → parse_bound "" ≡ none
      → bounds (choose date from to).0 ≡ choose date from to
  unfolding bounds
  choose_again none from to d f t empty = rw (empty, f, t) refl
  choose_again (some (at, date_only)) from to d f t empty = rw d refl

  -- How a text is read: not at all, as a bare date, or else as a timestamp.
  abbrev pub Means : String → Bound → Type 0
  Means v none = (v == "" ≡ true) ⊎ ((cal.parse_day v ≡ none) × (cal.parse_timestamp v ≡ none))
  Means v (some (t, true)) = (v == "" ≡ false) × (cal.parse_day v ≡ some t)
  Means v (some (t, false)) =
      (v == "" ≡ false) × (cal.parse_day v ≡ none) × (cal.parse_timestamp v ≡ some t)

  -- the end that a bound gives: a bare date includes its 86,400 seconds
  abbrev pub end_of : Time × Bool → Time
  end_of (t, true) = record t { nanos = t.nanos + 86_400_000_000_000 }
  end_of (t, false) = t

  -- The interval that a day, a start and an end ask for.
  abbrev pub IsInterval : Bound → Bound → Bound → Interval → Type 0
  IsInterval (some (t, date_only)) from to i =
      (i.ok ≡ true) × (i.from ≡ t) × (i.to ≡ record t { nanos = t.nanos + 86_400_000_000_000 })
  IsInterval none none none i = i.ok ≡ false
  IsInterval none (some from) none i = (i.ok ≡ true) × (i.from ≡ from.0) × (i.to ≡ zero_time)
  IsInterval none none (some to) i = (i.ok ≡ true) × (i.from ≡ zero_time) × (i.to ≡ end_of to)
  IsInterval none (some from) (some to) i = (i.ok ≡ true) × (i.from ≡ from.0) × (i.to ≡ end_of to)

  -- The interval that a range asks for.
  abbrev pub IsAsked : DateRange → Interval → Type 0
  IsAsked d i =
      (date from to : Bound) × Means d.date date
      × Means d.from from
      × Means d.to to
      × IsInterval date from to i

  parse_bound-Means : (v : String) → Means v (parse_bound v)
  unfolding parse_bound
  parse_bound-Means v = go (v == "") refl (cal.parse_day v) refl (cal.parse_timestamp v) refl
    where
      go :
          (empty : Bool)
          → v == "" ≡ empty
          → (day : Option Time) → cal.parse_day v ≡ day
          → (timestamp : Option Time) → cal.parse_timestamp v ≡ timestamp
          → Means v (if empty then none else or_timestamp day timestamp)
      go true e day d timestamp t = inl e
      go false e (some at) d timestamp t = (e, d)
      go false e none d (some at) t = (e, d, t)
      go false e none d none t = inr (d, t)

  choose-IsInterval : (date from to : Bound) → IsInterval date from to (choose date from to).1
  choose-IsInterval (some (t, date_only)) from to = (refl, refl, refl)
  choose-IsInterval none none none = refl
  choose-IsInterval none (some from) none = (refl, refl, refl)
  choose-IsInterval none none (some (t, true)) = (refl, refl, refl)
  choose-IsInterval none none (some (t, false)) = (refl, refl, refl)
  choose-IsInterval none (some from) (some (t, true)) = (refl, refl, refl)
  choose-IsInterval none (some from) (some (t, false)) = (refl, refl, refl)

  -- The interval that Bounds returns is the one that the range asks for: the 24 hours from a
  -- readable `date`; else from a readable `from`, and to a readable `to` or, where that is a bare
  -- date, the end of its day; and `ok` says whether any of them was readable. The fields that it
  -- leaves describe this interval: where package time reads back what it wrote, applying Bounds to
  -- them gives the same fields and the same interval.
  pub bounds-bounds :
      (d : DateRange) → IsCalendar → IsAsked d (bounds d).1 × (bounds (bounds d).0 ≡ bounds d)
  unfolding bounds parse_bound
  bounds-bounds d is = (
    (
      parse_bound d.date,
      parse_bound d.from,
      parse_bound d.to,
      parse_bound-Means d.date,
      parse_bound-Means d.from,
      parse_bound-Means d.to,
      choose-IsInterval (parse_bound d.date) (parse_bound d.from) (parse_bound d.to),
    ),
    choose_again (parse_bound d.date) (parse_bound d.from) (parse_bound d.to)
        (parse_bound-canonical d.date is) (parse_bound-canonical d.from is)
        (parse_bound-canonical d.to is) refl,
  )
