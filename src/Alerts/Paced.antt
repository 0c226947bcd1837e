-- ===== src/Alerts/Paced.antt =====
-- internal/server/alerts.go: a rule notifies no more often than its cooldown, and recovers once for
-- each time that it fired.
use hostseal.Base.{
  ℕ, ◌+◌, ◌≤◌, ◌≡◌, ◌⊎◌, refl, sym, ◌∙◌, ap, subst, subst₂, inl, inr, Bool, true, false, ◌&&◌, List,
  [], ◌∷◌, ◌++◌, Bool-cases, ◌==◌, if◌then◌else◌, All, arith,
}
use hostseal.Base.Assoc.{get, get-put}
use hostseal.Policy.Time.{Time}
use hostseal.Store.State.{by_id}
use hostseal.Alerts.Tables.{
  AlertKey, AlertRule, AlertState, Tables, by_key, same_key_iff, or_blank, held, is_there,
  write_state, cools, claimed, calmed, claim_alert_notification, release_alert_firing,
  upsert_alert_state,
}
use hostseal.Alerts.Evaluate.{
  condition_ripe, rule_cooldown, tracked, Outcome, notified, recovered, fired, calmed_down, kept,
  advance,
}
use hostseal.Alerts.Events.{Event, route, settle, pass, key_of, happen, sent}
use hostseal.Alerts.Elsewhere.{Elsewhere, happen-Elsewhere, tracked-key}

-- The abstract machine of one key. It holds whether it fires and when it last notified, and it may
-- notify when the cooldown has passed, and recover when it fires.
pub data Paced (c : ℕ) : Bool → Time → List Outcome → Type 0 where
  silence : {b : Bool} {last : Time} → Paced c b last []
  may_notify :
      {b : Bool} {last at : Time} {os : List Outcome}
      → (last ≡ 0) ⊎ (last + c ≤ at)
      → Paced c true at os
      → Paced c b last (notified at ∷ os)
  may_recover :
      {last : Time} {os : List Outcome} → Paced c false last os → Paced c true last (recovered ∷ os)

-- Claims are dated, and go by a cooldown that is not shorter than `c`.
abbrev pub Patient : ℕ → Event → Type 0
Patient c (route k at d) = c ≤ d
Patient c (settle k) = Unit
Patient c (pass r k raw now) = c ≤ rule_cooldown r

-- How one event moves the machine of its key.
data Moves (c : ℕ) (k : AlertKey) (t : Tables) : Tables × List Outcome → Type 0 where
  rests :
      {n : Tables}
      → (held k n).firing ≡ (held k t).firing
      → (held k n).last_notified ≡ (held k t).last_notified
      → Moves c k t (n, [])
  notifies :
      {n : Tables} {at : Time}
      → (held k n).firing ≡ true
      → (held k n).last_notified ≡ at
      → ((held k t).last_notified ≡ 0) ⊎ ((held k t).last_notified + c ≤ at)
      → Moves c k t (n, notified at ∷ [])
  recovers :
      {n : Tables}
      → (held k t).firing ≡ true
      → (held k n).firing ≡ false
      → (held k n).last_notified ≡ (held k t).last_notified
      → Moves c k t (n, recovered ∷ [])

held-write : (k : AlertKey) (s : AlertState) (t : Tables) → held k (write_state k s t) ≡ s
held-write k s t = ap (or_blank k) (get-put by_key k s t.states)

claim-Moves :
    (c d : ℕ) (k : AlertKey) (at : Time) (t : Tables)
    → c ≤ d
    → Moves c k t (fired at (claim_alert_notification k at d t))
unfolding claim_alert_notification
claim-Moves c d k at t le = elim (Bool-cases (is_there (get by_id k.0 t.rules))) [
  | inr e ↦ rw e (rests refl refl)
  | inl e ↦ elim (Bool-cases (cools d at (held k t))) [
    | inl f ↦ rw (e, f) (rests refl refl)
    | inr f ↦
        let w = held-write k (claimed k at (held k t)) t in
        rw (e, f) (notifies (ap (λ s. s.firing) w) (ap (λ s. s.last_notified) w) (ground arith))
  ]
]

release-Moves :
    (c : ℕ) (k : AlertKey) (t : Tables) → Moves c k t (calmed_down (release_alert_firing k t))
unfolding release_alert_firing
release-Moves c k t = elim (Bool-cases ((held k t).firing)) [
  | inr e ↦ rw e (rests refl refl)
  | inl e ↦
      let w = held-write k (calmed (held k t)) t in
      rw e (recovers e (ap (λ s. s.firing) w) (ap (λ s. s.last_notified) w))
]

tracked-firing : (raw : Bool) (now : Time) (s : AlertState) → (tracked raw now s).firing ≡ s.firing
tracked-firing true now s = refl
tracked-firing false now s = refl

tracked-last :
    (raw : Bool) (now : Time) (s : AlertState) → (tracked raw now s).last_notified ≡ s.last_notified
tracked-last true now s = refl
tracked-last false now s = refl

-- A write that keeps whether the key fires, and when it last notified.
upsert-Moves :
    (c : ℕ) (k : AlertKey) (s : AlertState) (t : Tables)
    → s.key ≡ k
    → s.firing ≡ (held k t).firing
    → s.last_notified ≡ (held k t).last_notified
    → Moves c k t (kept (upsert_alert_state s t))
unfolding upsert_alert_state
upsert-Moves c k s t e f l = elim (Bool-cases (is_there (get by_id s.key.0 t.rules))) [
  | inr a ↦ rw a (rests refl refl)
  | inl a ↦
      let w : held k (write_state s.key s t) ≡ s =
        subst (λ x. held k (write_state x s t) ≡ s) (sym e) (held-write k s t) in
      rw a (rests (ap (λ x. x.firing) w ∙ f) (ap (λ x. x.last_notified) w ∙ l))
]

branch-Moves :
    (c : ℕ) (k : AlertKey) (t : Tables) (b : Bool) (x y : Tables × List Outcome)
    → Moves c k t x
    → Moves c k t y
    → Moves c k t (if b then x else y)
branch-Moves c k t true x y p q = p
branch-Moves c k t false x y p q = q

advance-Moves :
    (c : ℕ) (r : AlertRule) (k : AlertKey) (raw : Bool) (now : Time) (t : Tables)
    → c ≤ rule_cooldown r
    → Moves c k t (advance r k raw now t)
unfolding advance
advance-Moves c r k raw now t le =
    let old : AlertState = record (held k t) { key = k } in
    let state = tracked raw now old in
    branch-Moves c k t (raw && condition_ripe r state now) _ _
      (claim-Moves c (rule_cooldown r) k now t le)
      (branch-Moves c k t (held k t).firing _ _ (release-Moves c k t) (
        branch-Moves c k t (is_there (get by_key k t.states) && state.since == (held k t).since) _ _
          (rests refl refl)
          (upsert-Moves c k state t (tracked-key raw now old) (tracked-firing raw now old)
            (tracked-last raw now old))))

happen-Moves : (c : ℕ) (e : Event) (t : Tables) → Patient c e → Moves c (key_of e) t (happen e t)
unfolding happen
happen-Moves c (route k at d) t le = claim-Moves c d k at t le
happen-Moves c (settle k) t le = release-Moves c k t
happen-Moves c (pass r k raw now) t le = advance-Moves c r k raw now t le

shift :
    (c : ℕ) (os : List Outcome) {a b : Bool} {l m : Time}
    → a ≡ b
    → l ≡ m
    → Paced c a l os
    → Paced c b m os
shift c os e f p = subst₂ (λ x y. Paced c x y os) e f p

module _ (k : AlertKey) where
  Moves-Paced :
      (c : ℕ) (t : Tables) (x : Tables × List Outcome) (os : List Outcome)
      → Moves c k t x
      → Paced c (held k x.0).firing (held k x.0).last_notified os
      → Paced c (held k t).firing (held k t).last_notified (x.1 ++ os)
  Moves-Paced c t (n, []) os (rests f l) p = shift c os f l p
  Moves-Paced c t (n, os') os (notifies f l q) p = may_notify q (shift c os f l p)
  Moves-Paced c t (n, os') os (recovers f g l) p =
      shift c (recovered ∷ os) (sym f) refl (may_recover (shift c os g l p))

  -- What is sent for a key keeps the pace, from the state that the key is in: a notification comes no
  -- sooner after the one before than the shortest cooldown that was asked for, also when the condition
  -- has recovered in between, and a recovery is sent only while the key fires, which it then no longer
  -- does. A notification dated at the zero time counts as none. The events are claims and releases for
  -- any keys and passes of the evaluator over one host, in any order, with nothing between the
  -- reading and the writing of a pass.
  pub sent-Paced :
      (c : ℕ) (es : List Event) (t : Tables)
      → All (Patient c) es
      → Paced c (held k t).firing (held k t).last_notified (sent k es t)
  unfolding sent Elsewhere
  sent-Paced c [] t h = silence
  sent-Paced c (e ∷ es) t (h, hs) = elim (Bool-cases (by_key.same (key_of e) k)) [
    | inl a ↦
        let same : key_of e ≡ k = (same_key_iff (key_of e) k).0 a in
        rw a (
          Moves-Paced c t (happen e t) (sent k es (happen e t).0)
            (subst (λ i. Moves c i t (happen e t)) same (happen-Moves c e t h))
            (sent-Paced c es (happen e t).0 hs))
    | inr b ↦
        let other = happen-Elsewhere k e t (λ f. cc ((same_key_iff (key_of e) k).1 f, b)) in
        rw b (
          shift c (sent k es (happen e t).0) (ap (λ s. s.firing) other)
            (ap (λ s. s.last_notified) other) (sent-Paced c es (happen e t).0 hs))
  ]
