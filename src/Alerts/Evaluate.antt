-- ===== src/Alerts/Evaluate.antt =====
-- internal/server/alerts.go: `conditionHolds`, `conditionRipe`, and what `evaluateRule` does for one
-- host. The summaries and the delivery of the notifications are not kept.
use hostseal.Base.{
  ℕ, zero, suc, ◌*◌, String, Bool, true, false, not, ◌&&◌, ◌||◌, Option, none, some, List, [], ◌∷◌,
  Result, ok, err, str_eq, ◌==◌, if◌then◌else◌,
}
use hostseal.Base.Int.{ℤ, pos, negsuc, ltb_ℤ, mul_int64, sub_saturating}
use hostseal.Base.Assoc.{get}
use hostseal.Policy.Time.{Time, is_zero, second, minute, day}
use hostseal.Alerts.Tables.{
  Condition, AlertKey, AlertRule, AlertState, Tables, AlertError, by_key, is_there, held,
  claim_alert_notification, release_alert_firing, upsert_alert_state,
}

abbrev pub host_silent : Condition
host_silent = "host_silent"

abbrev pub security_updates : Condition
security_updates = "security_updates"

abbrev pub security_updates_age : Condition
security_updates_age = "security_updates_age"

abbrev pub reboot_required : Condition
reboot_required = "reboot_required"

-- What `parseFactsProbe` reads from a host's facts, if they parse.
pub record Probe : Type 0 where
  pub upgradable_security : ℤ
  pub reboot : Bool

-- What is read of a host.
pub record Watched : Type 0 where
  pub id : String
  pub revoked : Bool
  pub last_seen : Time
  pub probe : Option Probe

-- `MeasuredInDays`
unfoldable pub measured_in_days : Condition → Bool
measured_in_days c = str_eq c reboot_required || str_eq c security_updates_age

abbrev pub probed : Option Probe → (Probe → Bool) → Bool
probed none f = false
probed (some p) f = f p

unfoldable pub condition_holds : AlertRule → Watched → Time → Bool
condition_holds r h now =
    if str_eq r.condition host_silent
    then not (is_zero h.last_seen)
      && ltb_ℤ (mul_int64 r.threshold minute) (sub_saturating now h.last_seen)
    else if str_eq r.condition security_updates
    then probed h.probe (λ p. not (ltb_ℤ p.upgradable_security r.threshold))
    else if str_eq r.condition security_updates_age
    then probed h.probe (λ p. ltb_ℤ (pos 0) p.upgradable_security)
    else if str_eq r.condition reboot_required
    then probed h.probe (λ p. p.reboot)
    else false

unfoldable pub condition_ripe : AlertRule → AlertState → Time → Bool
unfolding measured_in_days
condition_ripe r s now =
    if not (measured_in_days r.condition)
    then true
    else if is_zero s.since
    then false
    else not (ltb_ℤ (sub_saturating now s.since) (mul_int64 r.threshold day))

-- `DefaultAlertCooldownSeconds`, as a duration.
abbrev pub default_cooldown : ℕ
default_cooldown = 14400 * second

abbrev positive_or_default : ℤ → ℕ
positive_or_default (negsuc n) = default_cooldown
positive_or_default (pos zero) = default_cooldown
positive_or_default (pos (suc n)) = suc n

-- The cooldown that `evaluateRule` goes by.
unfoldable pub rule_cooldown : AlertRule → ℕ
rule_cooldown r = positive_or_default (mul_int64 r.cooldown_seconds second)

-- The state with `Since` as the raw condition asks.
abbrev pub tracked : Bool → Time → AlertState → AlertState
tracked true now s = record s { since = if is_zero s.since then now else s.since }
tracked false now s = record s { since = 0 }

-- What was sent for a key.
pub data Outcome : Type 0 where
  notified : Time → Outcome
  recovered : Outcome

abbrev pub fired : Time → Tables × Result AlertError Bool → Tables × List Outcome
fired now (t, ok true) = (t, notified now ∷ [])
fired now (t, ok false) = (t, [])
fired now (t, err e) = (t, [])

abbrev pub calmed_down : Tables × Bool → Tables × List Outcome
calmed_down (t, true) = (t, recovered ∷ [])
calmed_down (t, false) = (t, [])

abbrev pub kept : Tables × Result AlertError (Unit {0}) → Tables × List Outcome
kept (t, r) = (t, [])

-- The branches of `evaluateRule` behind the raw condition. The row is written where `Since` changed,
-- and where there was none.
unfoldable pub advance : AlertRule → AlertKey → Bool → Time → Tables → Tables × List Outcome
advance r k raw now t =
    let old = held k t in
    let state = tracked raw now (record old { key = k }) in
    if raw && condition_ripe r state now
    then fired now (claim_alert_notification k now (rule_cooldown r) t)
    else if old.firing
    then calmed_down (release_alert_firing k t)
    else if is_there (get by_key k t.states) && state.since == old.since
    then (t, [])
    else kept (upsert_alert_state state t)

-- The body of the loop, for one host.
unfoldable pub evaluate_host : AlertRule → Watched → Time → Tables → Tables × List Outcome
unfolding advance
evaluate_host r h now t =
    let k : AlertKey = (r.id, h.id, "") in
    if h.revoked then (t, []) else advance r k (condition_holds r h now) now t
