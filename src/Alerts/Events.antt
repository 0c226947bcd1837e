-- ===== src/Alerts/Events.antt =====
-- internal/server/alerts.go: what the server does to the alert states, as events, and what is sent.
use hostseal.Base.{ℕ, Bool, List, [], ◌∷◌, ◌++◌, if◌then◌else◌}
use hostseal.Policy.Time.{Time}
use hostseal.Alerts.Tables.{
  AlertKey, AlertRule, Tables, by_key, claim_alert_notification, release_alert_firing,
}
use hostseal.Alerts.Evaluate.{Outcome, fired, calmed_down, advance}

-- What the server does to the alert states: an event that is routed to a rule, one that ends it, and a
-- pass of the evaluator over one host.
pub data Event : Type 0 where
  route : AlertKey → Time → ℕ → Event
  settle : AlertKey → Event
  pass : AlertRule → AlertKey → Bool → Time → Event

abbrev pub key_of : Event → AlertKey
key_of (route k at c) = k
key_of (settle k) = k
key_of (pass r k raw now) = k

-- One event, and what is sent for its key.
unfoldable pub happen : Event → Tables → Tables × List Outcome
unfolding advance
happen (route k at c) t = fired at (claim_alert_notification k at c t)
happen (settle k) t = calmed_down (release_alert_firing k t)
happen (pass r k raw now) t = advance r k raw now t

-- What is sent for one key, over events for any keys.
unfoldable pub sent : AlertKey → List Event → Tables → List Outcome
unfolding happen
sent k [] t = []
sent k (e ∷ es) t =
    let rest = sent k es (happen e t).0 in
    if by_key.same (key_of e) k then (happen e t).1 ++ rest else rest
