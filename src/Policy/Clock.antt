-- ===== src/Policy/Clock.antt =====
-- internal/policy/window.go: `parseClock` and `parseTimeRange`. Texts are ASCII here.
use hostseal.Base.{
  ℕ, zero, ◌+◌, ◌*◌, ◌-◌, ◌<◌, ◌≡◌, Option, none, some, [], ◌∷◌, Result, ok, err, ◌>>=◌, >>=-eq-ok,
  ok_inj, subst, arith, ltb, ◌==◌, if◌then◌else◌, Bytes, is_digit, trim_space, cut,
}
use hostseal.Base.Int.{ℤ, pos, negsuc}

pub data WindowError : Type 0 where
  fields_count not_weekday no_days not_range not_clock bad_hour bad_minute same_time : WindowError

decimal_from : ℕ → Bytes → Option ℕ
decimal_from n [] = some n
decimal_from n (c ∷ cs) =
    let rest = decimal_from (n * 10 + (c - b'0')) cs in if is_digit c then rest else none

decimal : Bytes → Option ℕ
unfolding decimal_from
decimal [] = none
decimal (c ∷ cs) = decimal_from 0 (c ∷ cs)

negated : Option ℕ → Option ℤ
negated none = none
negated (some zero) = some (pos 0)
negated (some n) = some (negsuc (n - 1))

positive : Option ℕ → Option ℤ
positive none = none
positive (some n) = some (pos n)

-- `strconv.Atoi`: a sign may stand in front. A number past the range of `int` is an error there;
-- here it is a number that no caller accepts.
unfoldable pub atoi : Bytes → Option ℤ
unfolding decimal negated positive
atoi [] = none
atoi (c ∷ cs) =
    if c == b'-'
    then negated (decimal cs)
    else if c == b'+'
    then positive (decimal cs)
    else positive (decimal (c ∷ cs))

-- A number from 0 to `top`, or the error given.
unfoldable pub bounded : ℕ → WindowError → Option ℤ → Result WindowError ℕ
bounded top e none = err e
bounded top e (some (negsuc _)) = err e
bounded top e (some (pos n)) = if ltb top n then err e else ok n

clock_parts : Option (Bytes × Bytes) → Result WindowError ℕ
unfolding bounded
clock_parts none = err not_clock
clock_parts (some (hh, mm)) = do
  h ← bounded 23 bad_hour (atoi hh)
  m ← bounded 59 bad_minute (atoi mm)
  ok (h * 60 + m)

unfoldable pub parse_clock : Bytes → Result WindowError ℕ
unfolding clock_parts
parse_clock s = clock_parts (cut b':' (trim_space s))

range_parts : Option (Bytes × Bytes) → Result WindowError (ℕ × ℕ)
range_parts none = err not_range
range_parts (some (from, to)) = do start ← parse_clock from; end ← parse_clock to; ok (start, end)

unfoldable pub parse_time_range : Bytes → Result WindowError (ℕ × ℕ)
unfolding range_parts
parse_time_range s = range_parts (cut b'-' s)

clock_parts-lt : (o : Option (Bytes × Bytes)) {n : ℕ} → clock_parts o ≡ ok n → n < 1440
unfolding clock_parts
clock_parts-lt none h = cc
clock_parts-lt (some (hh, mm)) h = within_day (atoi hh) (atoi mm) h
  where
    within_day :
        (a b : Option ℤ) {n : ℕ}
        → (do h ← bounded 23 bad_hour a; m ← bounded 59 bad_minute b; ok (h * 60 + m)) ≡ ok n
        → n < 1440
    within_day none b e = cc
    within_day (some (negsuc k)) b e = cc
    within_day (some (pos k)) none e = ground arith
    within_day (some (pos k)) (some (negsuc m)) e = ground arith
    within_day (some (pos k)) (some (pos m)) e = ground arith

-- A clock is a minute of the day.
pub parse_clock-lt : (s : Bytes) {n : ℕ} → parse_clock s ≡ ok n → n < 1440
unfolding parse_clock
parse_clock-lt s h = clock_parts-lt (cut b':' (trim_space s)) h

range_parts-lt :
    (o : Option (Bytes × Bytes)) {r : ℕ × ℕ} → range_parts o ≡ ok r → (r.0 < 1440) × (r.1 < 1440)
unfolding range_parts
range_parts-lt none h = cc
range_parts-lt (some (from, to)) h =
    let (a, p, rest) = >>=-eq-ok (parse_clock from) _ h in
    let (b, q, done) = >>=-eq-ok (parse_clock to) _ rest in
    subst (λ r. (r.0 < 1440) × (r.1 < 1440)) (ok_inj done)
      (parse_clock-lt from p, parse_clock-lt to q)

pub parse_time_range-lt :
    (s : Bytes) {r : ℕ × ℕ} → parse_time_range s ≡ ok r → (r.0 < 1440) × (r.1 < 1440)
unfolding parse_time_range
parse_time_range-lt s h = range_parts-lt (cut b'-' s) h
