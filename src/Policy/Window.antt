-- ===== src/Policy/Window.antt =====
-- internal/policy/window.go: `Window`, `Contains` and `NextOpen`.
use hostseal.Base.{ℕ, zero, suc, ◌+◌, ◌-◌, ◌*◌, Bool, ◌&&◌, ◌||◌, leb, ltb, if◌then◌else◌, Bytes}
use hostseal.Policy.Time.{Time, day, minute, Location, weekday, midnight}

-- The array `days [7]bool`, read at 0 to 6 only.
abbrev pub Days : Type 0
Days = ℕ → Bool

pub record Window : Type 0 where
  pub always : Bool
  pub days : Days
  pub start_minutes : ℕ
  pub length_minutes : ℕ
  pub loc : Location
  pub text : Bytes

-- The opening instant on the civil day of an instant.
abbrev pub opening : Window → Time → Time
opening w d = w.loc.instant (midnight (w.loc.wall d) + w.start_minutes * minute)

abbrev pub selected : Window → Time → Bool
selected w d = w.days (weekday (w.loc.wall d))

-- One round of the loop of `Contains`, on the civil day of `d`.
abbrev pub open_on : Window → Time → Time → Bool
open_on w t d =
    selected w d && leb (opening w d) t && ltb t (opening w d + w.length_minutes * minute)

-- `Contains`: the window of today, then the one of the day before.
unfoldable pub contains : Window → Time → Bool
contains w t =
    w.always
    || open_on w t (w.loc.instant (w.loc.wall t))
    || open_on w t (w.loc.instant (w.loc.wall t - day))

-- The loop of `NextOpen`: the offset of the first day that is looked at, and how many are left.
unfoldable pub next_from : Window → Time → ℕ → ℕ → Time
next_from w t k zero = 0
next_from w t k (suc n) =
    let d = w.loc.instant (w.loc.wall t + k * day) in
    let rest = next_from w t (k + 1) n in
    if selected w d && leb t (opening w d) then opening w d else rest

-- `NextOpen`; 0 is the zero `time.Time`.
unfoldable pub next_open : Window → Time → Time
unfolding next_from
next_open w t = if w.always || contains w t then t else next_from w t 0 8
