-- ===== src/Store/Spent.antt =====
-- internal/store/memory.go: a token that was redeemed stays so, whatever is done but the removal of a
-- tenant.
use hostseal.Base.{
  ◌≡◌, ◌≢◌, ◌∙◌, refl, sym, inl, inr, String, not, ◌||◌, Option, none, some, List, [], ◌∷◌,
  Bool-cases, str_eq, All, arith, subst, ap, some_inj,
}
use hostseal.Base.Assoc.{get, get-put_other}
use hostseal.Policy.Time.{Time}
use hostseal.Store.State.{Tenant, EnrollmentToken, TokenRow, by_id, scoped, Memory}
use hostseal.Store.Jobs.{approve_job, claim_jobs, take_due, page, record_result, is_some, find_host}
use hostseal.Store.Hosts.{
  supersede_certificate, add_certificate, stamp_certificate, create_enrolled_host, update,
  record_heartbeat, store_facts, store_policy, store_signers, revoke_host,
}
use hostseal.Store.Tenants.{
  update_tenant, usable, consume_found, consume_enrollment_token, create_enrollment_token,
}
use hostseal.Store.Machine.{
  Op, create, approve, claim, report, enrol, remove, heartbeat, facts, policy, signers, revoke,
  add_cert, supersede, renew, settle, reconfigure, dissolve, issue, redeem, step, steps,
}
use hostseal.Store.SameTokens.{
  create_job-tokens, approve_found-tokens, claim_taken-tokens, delete_host-tokens,
  supersede_found-tokens, add_stamped-tokens, renew_certificate-tokens, enrol_in-tokens,
  update_found-tokens, revoke_found-tokens, create_tenant-tokens, update_found_tenant-tokens,
  record_found-tokens,
}

-- The removal of a tenant takes its tokens away.
abbrev pub Standing : Tenant × Op → Type 0
Standing (t, dissolve) = Unit → ⊥
Standing _ = Unit

abbrev pub Spent : String → Memory → Type 0
Spent hash m = (row : TokenRow) × (get by_id hash m.tokens ≡ some row) × (row.token.consumed_at ≢ 0)

issue-Spent :
    (t : Tenant) (tok : EnrollmentToken) (hash : String) (m : Memory)
    → Spent hash m
    → Spent hash (create_enrollment_token t tok m).0
unfolding create_enrollment_token
issue-Spent t tok hash m (row, f, c) = elim (Bool-cases (is_some (get by_id t m.tenants))) [
  | inr a ↦ rw a (row, f, c)
  | inl a ↦ elim (Bool-cases (is_some (get by_id tok.hash m.tokens))) [
    | inl b ↦ rw (a, b) (row, f, c)
    | inr b ↦
        rw (a, b)
          (
            row,
            get-put_other by_id tok.hash hash _ m.tokens
                  (λ e. cc (ap is_some (subst (λ k. get by_id k m.tokens ≡ some row) (sym e) f), b))
                ∙ f,
            c,
          )
  ]
]

redeem-Spent :
    (t : Tenant) (other host : String) (now : Time) (hash : String) (m : Memory)
    (o : Option TokenRow)
    → get by_id other m.tokens ≡ o
    → Spent hash m
    → Spent hash (consume_found t other host now m o).0
unfolding consume_found usable
redeem-Spent t other host now hash m none e h = h
redeem-Spent t other host now hash m (some old) e (row, f, c) =
    elim (Bool-cases (not (str_eq old.tenant t) || not (usable old.token now))) [
      | inl a ↦ rw a (row, f, c)
      | inr a ↦
          let unused : old.token.consumed_at ≡ 0 = ground arith in
          rw a (
            row,
            get-put_other by_id other hash _ m.tokens (λ same. c (
                  ap (λ r. r.token.consumed_at)
                    (some_inj (sym f ∙ subst (λ k. get by_id k m.tokens ≡ some old) same e))
                  ∙ unused))
                ∙ f,
            c,
          )
    ]

step-Spent :
    (op : Tenant × Op) (hash : String) (m : Memory)
    → Standing op
    → Spent hash m
    → Spent hash (step op m)
unfolding step create_enrolled_host record_heartbeat store_facts store_policy store_signers update
    revoke_host add_certificate supersede_certificate update_tenant consume_enrollment_token
    approve_job record_result claim_jobs
step-Spent (t, create n) hash m l h = rw (create_job-tokens t n m) h
step-Spent (t, approve id by now) hash m l h =
    rw (approve_found-tokens t id by now m (get scoped (t, id) m.records)) h
step-Spent (t, claim host limit now) hash m l h =
    let (js, left) = take_due now (page limit) (m.jobs (t, host)) in
    rw (claim_taken-tokens t host now m js left) h
step-Spent (t, report host r now) hash m l h =
    rw (record_found-tokens t host r now m (get scoped (t, r.job_id) m.records)) h
step-Spent (t, enrol host c) hash m l h = rw (enrol_in-tokens t host c m (get by_id t m.tenants)) h
step-Spent (t, remove host) hash m l h = rw (delete_host-tokens t host m) h
step-Spent (t, heartbeat host seen paused) hash m l h =
    rw
      (update_found-tokens t host (λ h. record h { last_seen = seen; paused = paused }) m
        (find_host t host m))
      h
step-Spent (t, facts host digest document) hash m l h =
    rw
      (update_found-tokens t host (λ h. record h { facts = document; facts_digest = digest }) m
        (find_host t host m))
      h
step-Spent (t, policy host digest document) hash m l h =
    rw
      (update_found-tokens t host (λ h. record h { policy = document; policy_digest = digest }) m
        (find_host t host m))
      h
step-Spent (t, signers host digest document) hash m l h =
    rw
      (update_found-tokens t host (λ h. record h { signers = document; signers_digest = digest }) m
        (find_host t host m))
      h
step-Spent (t, revoke host now) hash m l h =
    rw (revoke_found-tokens t host now m (find_host t host m)) h
step-Spent (t, add_cert c) hash m l h = rw (add_stamped-tokens t m (stamp_certificate t c)) h
step-Spent (t, supersede fp at) hash m l h =
    rw (supersede_found-tokens t fp at m (get by_id fp m.certs)) h
step-Spent (t, renew r) hash m l h = rw (renew_certificate-tokens t r m) h
step-Spent (t, settle row now) hash m l h = rw (create_tenant-tokens t row now m) h
step-Spent (t, reconfigure p) hash m l h =
    rw (update_found_tenant-tokens t p m (get by_id t m.tenants)) h
step-Spent (t, dissolve) hash m l h = absurd (l tt)
step-Spent (t, issue tok) hash m l h = issue-Spent t tok hash m h
step-Spent (t, redeem other host now) hash m l h =
    redeem-Spent t other host now hash m (get by_id other m.tokens) refl h

pub steps-Spent :
    (ops : List (Tenant × Op)) (hash : String) (m : Memory)
    → All Standing ops
    → Spent hash m
    → Spent hash (steps m ops)
unfolding steps
steps-Spent [] hash m l h = h
steps-Spent (op ∷ ops) hash m (l, ls) h =
    steps-Spent ops hash (step op m) ls (step-Spent op hash m l h)
