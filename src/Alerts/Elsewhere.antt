-- ===== src/Alerts/Elsewhere.antt =====
-- internal/server/alerts.go: an event for one key leaves the state of the others.
use hostseal.Base.{
  ℕ, ◌≡◌, ◌≢◌, refl, sym, ◌∙◌, ap, inl, inr, Bool, true, false, ◌&&◌, List, Bool-cases, ◌==◌,
  if◌then◌else◌,
}
use hostseal.Base.Assoc.{get, get-put_other}
use hostseal.Policy.Time.{Time}
use hostseal.Store.State.{by_id}
use hostseal.Alerts.Tables.{
  AlertKey, AlertState, Tables, by_key, or_blank, held, is_there, write_state, cools, claimed,
  calmed, claim_alert_notification, release_alert_firing, upsert_alert_state,
}
use hostseal.Alerts.Evaluate.{
  condition_ripe, rule_cooldown, tracked, Outcome, fired, calmed_down, kept, advance,
}
use hostseal.Alerts.Events.{Event, route, settle, pass, key_of, happen}

pub tracked-key : (raw : Bool) (now : Time) (s : AlertState) → (tracked raw now s).key ≡ s.key
tracked-key true now s = refl
tracked-key false now s = refl

-- An event for another key leaves this key's state.
module _ (k : AlertKey) where
  unfoldable pub Elsewhere : Tables → Tables × List Outcome → Type 0
  Elsewhere t x = held k x.0 ≡ held k t

  write-elsewhere :
      (i : AlertKey) (s : AlertState) (t : Tables) → i ≢ k → held k (write_state i s t) ≡ held k t
  write-elsewhere i s t ne = ap (or_blank k) (get-put_other by_key i k s t.states ne)

  either-Elsewhere :
      (t : Tables) (b : Bool) (x y : Tables × List Outcome)
      → Elsewhere t x
      → Elsewhere t y
      → Elsewhere t (if b then x else y)
  either-Elsewhere t true x y p q = p
  either-Elsewhere t false x y p q = q

  claim-Elsewhere :
      (i : AlertKey) (at : Time) (d : ℕ) (t : Tables)
      → i ≢ k
      → Elsewhere t (fired at (claim_alert_notification i at d t))
  unfolding claim_alert_notification Elsewhere
  claim-Elsewhere i at d t ne = elim (Bool-cases (is_there (get by_id i.0 t.rules))) [
    | inr e ↦ rw e refl
    | inl e ↦ elim (Bool-cases (cools d at (held i t))) [
      | inl f ↦ rw (e, f) refl
      | inr f ↦ rw (e, f) (write-elsewhere i (claimed i at (held i t)) t ne)
    ]
  ]

  release-Elsewhere :
      (i : AlertKey) (t : Tables) → i ≢ k → Elsewhere t (calmed_down (release_alert_firing i t))
  unfolding release_alert_firing Elsewhere
  release-Elsewhere i t ne = elim (Bool-cases ((held i t).firing)) [
    | inr e ↦ rw e refl
    | inl e ↦ rw e (write-elsewhere i (calmed (held i t)) t ne)
  ]

  upsert-Elsewhere :
      (s : AlertState) (t : Tables) → s.key ≢ k → Elsewhere t (kept (upsert_alert_state s t))
  unfolding upsert_alert_state Elsewhere
  upsert-Elsewhere s t ne = elim (Bool-cases (is_there (get by_id s.key.0 t.rules))) [
    | inr a ↦ rw a refl
    | inl a ↦ rw a (write-elsewhere s.key s t ne)
  ]

  pub happen-Elsewhere : (e : Event) (t : Tables) → key_of e ≢ k → Elsewhere t (happen e t)
  unfolding happen advance Elsewhere
  happen-Elsewhere (route i at d) t ne = claim-Elsewhere i at d t ne
  happen-Elsewhere (settle i) t ne = release-Elsewhere i t ne
  happen-Elsewhere (pass r i raw now) t ne =
      let old : AlertState = record (held i t) { key = i } in
      let state = tracked raw now old in
      either-Elsewhere t (raw && condition_ripe r state now) _ _
        (claim-Elsewhere i now (rule_cooldown r) t ne)
        (either-Elsewhere t (held i t).firing _ _ (release-Elsewhere i t ne) (
          either-Elsewhere t (is_there (get by_key i t.states) && state.since == (held i t).since) _
            _ refl (upsert-Elsewhere state t (λ e. ne (sym (tracked-key raw now old) ∙ e)))))
