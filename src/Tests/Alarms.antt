-- ===== src/Tests/Alarms.antt =====
-- internal/server/alerts.go on one rule and one host.
use hostseal.Base.{◌+◌, ◌*◌, true, false, [], ◌∷◌, List, arith}
use hostseal.Base.Int.{pos, mul_int64, int64_of_bits}
use hostseal.Policy.Time.{minute, second}
use hostseal.Alerts.Tables.{AlertKey, AlertRule, Tables, held}
use hostseal.Alerts.Evaluate.{rule_cooldown}
use hostseal.Alerts.Events.{Event, pass, sent}
use hostseal.Alerts.Paced.{Paced, sent-Paced}
use hostseal.Tests.Policies.{sunday_at_one}

-- A host that has been silent for ten minutes, at most once an hour.
abbrev silent : AlertRule
silent = record {
  id = "r1";
  condition = "host_silent";
  threshold = pos 10;
  cooldown_seconds = pos 3600;
  enabled = true;
}

abbrev tables : Tables
tables = record { rules = ("r1", silent) ∷ []; states = [] }

abbrev web_one_key : AlertKey
web_one_key = ("r1", "h1", "")

-- The host falls silent, speaks, and falls silent again within the hour.
abbrev night : List Event
night =
    pass silent web_one_key true sunday_at_one
    ∷ pass silent web_one_key false (sunday_at_one + 5 * minute)
    ∷ pass silent web_one_key true (sunday_at_one + 20 * minute)
    ∷ []

sent-Paced_example :
    Paced
      (3600 * second)
      (held web_one_key tables).firing
      (held web_one_key tables).last_notified
      (sent web_one_key night tables)
sent-Paced_example = sent-Paced web_one_key (3600 * second) night tables (
    unfold rule_cooldown mul_int64 int64_of_bits in (omega arith, (omega arith, (omega arith, tt))))
