-- ===== src/Policy/Age.antt =====
-- internal/policy/decide.go: the age of a job, in the `int64` nanoseconds of `time.Duration`.
use hostseal.Base.{ℕ, ◌+◌, ◌*◌, ◌≤◌, ◌<◌, ◌≡◌, ◌≢◌, ◌↔◌, refl, true, not, ◌&&◌, arith}
use hostseal.Base.Int.{pos, ltb_ℤ, mul_int64, sub_saturating, int64_half}
use hostseal.Policy.Time.{second, is_zero}
use hostseal.Policy.Rules.{Policy}
use hostseal.Policy.Decide.{too_old}

-- The longest limit, in seconds, whose nanoseconds a `time.Duration` can hold: 292 years.
abbrev pub max_limit : ℕ
max_limit = 9_223_372_036

mul_int64-second : (m : ℕ) → m ≤ max_limit → mul_int64 (pos m) second ≡ pos (m * second)
unfolding mul_int64
mul_int64-second m h = ground arith

sub_saturating-lt :
    (issued now k : ℕ)
    → k + 1 < int64_half
    → (ltb_ℤ (pos k) (sub_saturating now issued) ≡ true) ↔ (issued + k < now)
unfolding sub_saturating
sub_saturating-lt issued now k h = ground arith

too_old_at :
    (p : Policy) (issued now m : ℕ)
    → p.max_job_age_seconds ≡ pos m
    → m ≤ max_limit
    → too_old p issued now
      ≡ (not (is_zero issued) && ltb_ℤ (pos (m * second)) (sub_saturating now issued))
unfolding too_old
too_old_at p issued now m e h = rw (e, mul_int64-second m h) refl

-- Up to `max_limit` a job is refused for its age exactly if it was issued more than the limit
-- ago, at any two instants: neither the product nor the difference wraps to the other side.
pub too_old_iff :
    (p : Policy) (issued now m : ℕ)
    → p.max_job_age_seconds ≡ pos m
    → m ≤ max_limit
    → (too_old p issued now ≡ true) ↔ ((issued ≢ 0) × (issued + m * second < now))
too_old_iff p issued now m e h =
    let bound : m * second + 1 < int64_half = omega arith in
    rw (too_old_at p issued now m e h)
      (ground (arith, sub_saturating-lt issued now (m * second) bound))
