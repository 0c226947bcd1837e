-- ===== src/Alerts/Tables.antt =====
-- internal/store/memory_observability.go: the alert rules and states of one tenant.
use hostseal.Base.{
  ℕ, ◌+◌, ◌≡◌, ◌↔◌, String, Bool, true, false, not, ◌&&◌, Option, none, some, List, Result, ok, err,
  str_eq, eq_iff, ltb, if◌then◌else◌, arith, keep,
}
use hostseal.Base.Int.{ℤ}
use hostseal.Base.Assoc.{Key, get, put, delete}
use hostseal.Policy.Time.{Time, is_zero}
use hostseal.Store.State.{by_id}

-- `AlertCondition`
abbrev pub Condition : Type 0
Condition = String

-- `AlertKey`: a rule, a host, and what of the host it is about.
abbrev pub AlertKey : Type 0
AlertKey = String × String × String

-- A rule, without its recipients and the record of their mails.
pub record AlertRule : Type 0 where
  pub id : String
  pub condition : Condition
  pub threshold : ℤ
  pub cooldown_seconds : ℤ
  pub enabled : Bool

pub record AlertState : Type 0 where
  pub key : AlertKey
  pub firing : Bool
  pub since : Time
  pub last_notified : Time

abbrev same_key : AlertKey → AlertKey → Bool
same_key (a, b, c) (d, e, f) = str_eq a d && str_eq b e && str_eq c f

pub same_key_iff : (a b : AlertKey) → (same_key a b ≡ true) ↔ (a ≡ b)
same_key_iff (a, b, c) (d, e, f) = ground (arith, eq_iff a d, eq_iff b e, eq_iff c f)

abbrev pub by_key : Key AlertKey
by_key = record { same = same_key; same_iff = same_key_iff }

pub record Tables : Type 0 where
  pub rules : List (String × AlertRule)
  pub states : List (AlertKey × AlertState)

pub data AlertError : Type 0 where
  unknown_rule rule_exists rule_not_found : AlertError

-- What a missing row reads as.
abbrev pub blank : AlertKey → AlertState
blank k = record { key = k; firing = false; since = 0; last_notified = 0 }

abbrev pub or_blank : AlertKey → Option AlertState → AlertState
or_blank k none = blank k
or_blank k (some s) = s

abbrev pub held : AlertKey → Tables → AlertState
held k t = or_blank k (get by_key k t.states)

abbrev pub is_there : {A : Type 0} → Option A → Bool
is_there none = false
is_there (some a) = true

abbrev pub write_state : AlertKey → AlertState → Tables → Tables
write_state k s t = record t { states = put by_key k s t.states }

unfoldable pub create_alert_rule : AlertRule → Tables → Tables × Result AlertError (Unit {0})
create_alert_rule r t =
    if is_there (get by_id r.id t.rules)
    then (t, err rule_exists)
    else (record t { rules = put by_id r.id r t.rules }, ok tt)

unfoldable pub update_found_rule :
    AlertRule → Tables → Option AlertRule → Tables × Result AlertError (Unit {0})
update_found_rule r t none = (t, err rule_not_found)
update_found_rule r t (some old) = (
  record t {
    rules =
        put by_id r.id
          (record old {
            threshold = r.threshold;
            cooldown_seconds = r.cooldown_seconds;
            enabled = r.enabled;
          })
          t.rules;
  },
  ok tt,
)

-- `UpdateAlertRule`: the condition stays.
unfoldable pub update_alert_rule : AlertRule → Tables → Tables × Result AlertError (Unit {0})
unfolding update_found_rule
update_alert_rule r t = update_found_rule r t (get by_id r.id t.rules)

unfoldable pub delete_alert_rule : String → Tables → Tables × Result AlertError (Unit {0})
delete_alert_rule id t =
    if not (is_there (get by_id id t.rules)) then (t, err rule_not_found) else (
      record {
        rules = delete by_id id t.rules;
        states = keep (λ e. not (str_eq e.0.0 id)) t.states;
      },
      ok tt,
    )

unfoldable pub upsert_alert_state : AlertState → Tables → Tables × Result AlertError (Unit {0})
upsert_alert_state s t =
    if not (is_there (get by_id s.key.0 t.rules))
    then (t, err unknown_rule)
    else (write_state s.key s t, ok tt)

-- `held.LastNotified.After(at.Add(-cooldown))`, for a row that has notified.
abbrev pub cools : ℕ → Time → AlertState → Bool
cools cooldown at s = not (is_zero s.last_notified) && ltb at (s.last_notified + cooldown)

abbrev pub claimed : AlertKey → Time → AlertState → AlertState
claimed k at s = record {
  key = k;
  firing = true;
  since = if is_zero s.since then at else s.since;
  last_notified = at;
}

unfoldable pub claim_alert_notification :
    AlertKey → Time → ℕ → Tables → Tables × Result AlertError Bool
claim_alert_notification k at cooldown t =
    if not (is_there (get by_id k.0 t.rules))
    then (t, err unknown_rule)
    else if cools cooldown at (held k t)
    then (t, ok false)
    else (write_state k (claimed k at (held k t)) t, ok true)

abbrev pub calmed : AlertState → AlertState
calmed s = record s { firing = false; since = 0 }

unfoldable pub release_alert_firing : AlertKey → Tables → Tables × Bool
release_alert_firing k t =
    if not (held k t).firing then (t, false) else (write_state k (calmed (held k t)) t, true)
