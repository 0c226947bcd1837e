-- ===== src/Policy/Parse.antt =====
-- internal/policy/window.go: `parseDays` and `ParseWindow`. Texts are ASCII here.
use hostseal.Base.{
  ℕ, zero, suc, ◌+◌, ◌*◌, ◌-◌, ◌%◌, ◌≤◌, ◌<◌, ◌≡◌, refl, Bool, true, false, not, ◌&&◌, ◌||◌, Option,
  none, some, List, [], ◌∷◌, Result, ok, err, ◌>>=◌, ◌>>◌, require, require-ok, >>=-eq-ok, ok_inj,
  subst, ◌⊎◌, inl, inr, Bool-cases, arith, leb, ◌==◌, if◌then◌else◌, Bytes, codes, equal,
  trim_space, fields, cut, split, to_lower,
}
use hostseal.Policy.Time.{Location}
use hostseal.Policy.Clock.{
  WindowError, fields_count, not_weekday, no_days, same_time, parse_time_range, parse_time_range-lt,
}
use hostseal.Policy.Window.{Days, Window}

abbrev weekday_names : List (Bytes × ℕ)
weekday_names =
    (codes "sun", 0)
    ∷ (codes "sunday", 0)
    ∷ (codes "mon", 1)
    ∷ (codes "monday", 1)
    ∷ (codes "tue", 2)
    ∷ (codes "tuesday", 2)
    ∷ (codes "wed", 3)
    ∷ (codes "wednesday", 3)
    ∷ (codes "thu", 4)
    ∷ (codes "thursday", 4)
    ∷ (codes "fri", 5)
    ∷ (codes "friday", 5)
    ∷ (codes "sat", 6)
    ∷ (codes "saturday", 6)
    ∷ []

named_in : List (Bytes × ℕ) → Bytes → Option ℕ
unfolding equal
named_in [] s = none
named_in ((name, d) ∷ rest) s = if equal name s then some d else named_in rest s

unfoldable pub weekday_named : Bytes → Option ℕ
unfolding named_in
weekday_named s = named_in weekday_names s

-- `days[d] = true`
abbrev pub mark : ℕ → Days → Days
mark d days = λ i. i == d || days i

-- `for d := start; ; d = (d + 1) % 7`, up to and with `end`, which seven rounds reach (Rounds).
unfoldable pub mark_range : ℕ → ℕ → ℕ → Days → Days
mark_range zero d end days = days
mark_range (suc n) d end days =
    let rest = mark_range n ((d + 1) % 7) end (mark d days) in
    if d == end then mark d days else rest

mark_to : ℕ → Days → Option ℕ → Result WindowError Days
mark_to start days none = err not_weekday
mark_to start days (some end) = ok (mark_range 7 start end days)

mark_start : Days → Option (Bytes × Bytes) → Option ℕ → Result WindowError Days
unfolding mark_to weekday_named
mark_start days r none = err not_weekday
mark_start days none (some start) = ok (mark start days)
mark_start days (some (_, to)) (some start) = mark_to start days (weekday_named (trim_space to))

-- What stands before the hyphen, or the whole part.
from_of : Bytes → Option (Bytes × Bytes) → Bytes
from_of part none = part
from_of part (some (from, _)) = from

mark_part : Days → Bytes → Result WindowError Days
unfolding mark_start from_of
mark_part days part =
    let r = cut b'-' part in
    if equal part []
    then ok days
    else mark_start days r (weekday_named (trim_space (from_of part r)))

mark_parts : Days → List Bytes → Result WindowError Days
unfolding mark_part
mark_parts days [] = ok days
mark_parts days (p ∷ ps) = do more ← mark_part days (trim_space p); mark_parts more ps

abbrev pub any_day : Days → Bool
any_day d = d 0 || d 1 || d 2 || d 3 || d 4 || d 5 || d 6

listed_days : Bytes → Result WindowError Days
unfolding mark_parts
listed_days lower = do
  days ← mark_parts (λ _. false) (split b',' lower)
  require (any_day days) no_days
  ok days

unfoldable pub parse_days : Bytes → Result WindowError Days
unfolding listed_days
parse_days spec =
    let lower = to_lower (trim_space spec) in
    if equal lower (codes "daily")
      || equal lower (codes "any")
      || equal lower (codes "*")
      || equal lower (codes "everyday")
    then ok (λ _. true)
    else listed_days lower

-- `length := end - start`, a day more where the window crosses midnight.
abbrev pub window_length : ℕ → ℕ → ℕ
window_length start end = if leb end start then 24 * 60 + end - start else end - start

parse_parts : Location → Bytes → Bytes → Bytes → Result WindowError Window
parse_parts loc text dayspec timespec = do
  days ← parse_days dayspec
  range ← parse_time_range timespec
  require (not (range.0 == range.1 && not (range.0 == 0))) same_time
  ok (record {
    always = false;
    days = days;
    start_minutes = range.0;
    length_minutes = window_length range.0 range.1;
    loc = loc;
    text = text;
  })

parse_fields : Location → Bytes → List Bytes → Result WindowError Window
unfolding parse_parts
parse_fields loc text (a ∷ []) = parse_parts loc text (codes "daily") a
parse_fields loc text (a ∷ b ∷ []) = parse_parts loc text a b
parse_fields loc text _ = err fields_count

abbrev pub always_window : Location → Window
always_window loc = record {
  always = true;
  days = λ _. false;
  start_minutes = 0;
  length_minutes = 0;
  loc = loc;
  text = [];
}

-- `ParseWindow` at a location that is not nil.
unfoldable pub parse_window : Bytes → Location → Result WindowError Window
unfolding parse_fields
parse_window spec loc =
    let text = trim_space spec in
    if equal text [] then ok (always_window loc) else parse_fields loc text (fields text)

-- A window that `ParseWindow` may return, other than the one that is always open.
pub record IsParsed (w : Window) : Type 0 where
  pub sometimes : w.always ≡ false
  pub starts : w.start_minutes < 1440
  pub lasts : 0 < w.length_minutes
  pub in_a_day : w.length_minutes ≤ 1440
  pub some_day : any_day w.days ≡ true

listed_days-any : (lower : Bytes) {d : Days} → listed_days lower ≡ ok d → any_day d ≡ true
unfolding listed_days
listed_days-any lower {d} h =
    let (days, _, rest) = >>=-eq-ok (mark_parts (λ _. false) (split b',' lower)) _ h in
    let (_, some_day, done) = >>=-eq-ok (require (any_day days) no_days) _ rest in
    subst (λ d. any_day d ≡ true) (ok_inj done) (require-ok (any_day days) no_days some_day)

parse_days-any : (spec : Bytes) {d : Days} → parse_days spec ≡ ok d → any_day d ≡ true
unfolding parse_days
parse_days-any spec {d} h = go _ h
  where
    go :
        (b : Bool)
        → (if b then ok (λ _. true) else listed_days (to_lower (trim_space spec))) ≡ ok d
        → any_day d ≡ true
    go true e = subst (λ d. any_day d ≡ true) (ok_inj e) refl
    go false e = listed_days-any _ e

abbrev IsSound : Window → Type 0
IsSound w = (w.always ≡ true) ⊎ IsParsed w

parse_parts-IsSound :
    (loc : Location) (text dayspec timespec : Bytes) {w : Window}
    → parse_parts loc text dayspec timespec ≡ ok w
    → IsSound w
unfolding parse_parts
parse_parts-IsSound loc text dayspec timespec h =
    let (days, d, rest) = >>=-eq-ok (parse_days dayspec) _ h in
    let (r, t, rest') = >>=-eq-ok (parse_time_range timespec) _ rest in
    let (_, distinct, done) =
      >>=-eq-ok (require (not (r.0 == r.1 && not (r.0 == 0))) same_time) _ rest' in
    let test = require-ok (not (r.0 == r.1 && not (r.0 == 0))) same_time distinct in
    let (s, e) = parse_time_range-lt timespec t in
    subst IsSound (ok_inj done) (
      inr (record {
        sometimes = refl;
        starts = s;
        lasts = ground arith;
        in_a_day = ground arith;
        some_day = parse_days-any dayspec d;
      }))

parse_fields-IsSound :
    (loc : Location) (text : Bytes) (ws : List Bytes) {w : Window}
    → parse_fields loc text ws ≡ ok w
    → IsSound w
unfolding parse_fields
parse_fields-IsSound loc text [] h = cc
parse_fields-IsSound loc text (a ∷ []) h = parse_parts-IsSound loc text _ a h
parse_fields-IsSound loc text (a ∷ b ∷ []) h = parse_parts-IsSound loc text a b h
parse_fields-IsSound loc text (a ∷ b ∷ c ∷ r) h = cc

-- Every window that `ParseWindow` returns is always open, or opens on some day of the week, at a
-- minute of that day, for at least a minute and at most a day.
pub parse_window-IsParsed :
    (spec : Bytes) (loc : Location) {w : Window}
    → parse_window spec loc ≡ ok w
    → (w.always ≡ true) ⊎ IsParsed w
unfolding parse_window
parse_window-IsParsed spec loc {w} h = elim (Bool-cases (equal (trim_space spec) [])) [
  | inl blank ↦ subst IsSound (ok_inj (rw blank at h)) (inl refl)
  | inr given ↦ parse_fields-IsSound loc _ _ (rw given at h)
]
