-- ===== src/Store/Tenancy.antt =====
-- internal/store/memory.go: no operation of one tenant disturbs another, whatever it is.
use hostseal.Base.{
  ◌≡◌, ◌≢◌, refl, sym, inl, inr, String, not, ◌||◌, Option, none, some, List, [], ◌∷◌, Result, ok,
  err, Bool-cases, str_eq, eq_iff, All,
}
use hostseal.Base.Assoc.{get, put, delete, get-put_other, get-delete_other, get-keep_all}
use hostseal.Policy.Time.{Time}
use hostseal.Store.State.{
  Tenant, TenantRow, TokenRow, EnrollmentToken, ApprovalMode, scoped, by_id, Memory, StoreError,
}
use hostseal.Store.Jobs.{is_some, of_tenant, find_host, approve_job, record_result}
use hostseal.Store.Hosts.{
  stamp_certificate, create_enrolled_host, update, record_heartbeat, store_facts, store_policy,
  store_signers, revoke_host, supersede_certificate, add_certificate,
}
use hostseal.Store.Tenants.{
  has_slug, sweep, insert_tenant, create_tenant, normalise_approval_mode, TenantPatch, patched_mode,
  update_row, update_found_tenant, update_tenant, forget_tenant, delete_tenant,
  create_enrollment_token, usable, consume_found, consumed, consume_enrollment_token,
}
use hostseal.Store.Apart.{
  Undisturbed, same_store, Undisturbed-trans, differ, owned, owned-put, owned-sweep,
}
use hostseal.Store.Isolation.{
  either_way, create_job-Undisturbed, approve_found-Undisturbed, record_found-Undisturbed,
  claim_jobs-Undisturbed,
}
use hostseal.Store.Machine.{
  Op, create, approve, claim, report, enrol, remove, heartbeat, facts, policy, signers, revoke,
  add_cert, supersede, renew, settle, reconfigure, dissolve, issue, redeem, step, steps,
}
use hostseal.Store.Separation.{
  tenant_of, issuer, bearer, row_tables, none_there, add_stamped-Undisturbed,
  renew_certificate-Undisturbed, supersede_found-Undisturbed, enrol_in-Undisturbed,
  update_found-Undisturbed, revoke_found-Undisturbed,
}
use hostseal.Store.Deletion.{delete_host-Undisturbed}

module _ (t u : Tenant) (ne : t ≢ u) where
  put_tenant-Undisturbed :
      (row : TenantRow) (m : Memory)
      → Undisturbed u m (record m { tenants = put by_id t row m.tenants })
  put_tenant-Undisturbed row m =
      row_tables u m _ m.tokens m.hosts m.certs (get-put_other by_id t u row m.tenants ne)
        (λ i. refl) (λ i. refl) (λ i. refl)

  insert_tenant-Undisturbed :
      (row : TenantRow) (now : Time) (m : Memory) (r : Result StoreError ApprovalMode)
      → Undisturbed u m (insert_tenant t row now m r).0
  unfolding insert_tenant
  insert_tenant-Undisturbed row now m (err e) = same_store u m
  insert_tenant-Undisturbed row now m (ok mode) =
      either_way u m (is_some (get by_id t m.tenants)) _ _ (same_store u m) (
        either_way u m (has_slug row.slug m.tenants) _ _ (same_store u m)
          (put_tenant-Undisturbed _ m))

  update_row-Undisturbed :
      (p : TenantPatch) (m : Memory) (r : Result StoreError TenantRow)
      → Undisturbed u m (update_row t p m r).0
  unfolding update_row
  update_row-Undisturbed p m (err e) = same_store u m
  update_row-Undisturbed p m (ok row) = put_tenant-Undisturbed _ m

  update_found_tenant-Undisturbed :
      (p : TenantPatch) (m : Memory) (o : Option TenantRow)
      → Undisturbed u m (update_found_tenant t p m o).0
  unfolding update_found_tenant
  update_found_tenant-Undisturbed p m none = same_store u m
  update_found_tenant-Undisturbed p m (some row) =
      update_row-Undisturbed p m (patched_mode row p.approval_mode)

  put_token-Undisturbed :
      (hash : String) (tok : EnrollmentToken) (m : Memory)
      → owned issuer u (get by_id hash m.tokens) ≡ none
      → Undisturbed u m
          (record m { tokens = put by_id hash (record { token = tok; tenant = t }) m.tokens })
  put_token-Undisturbed hash tok m e =
      row_tables u m m.tenants _ m.hosts m.certs refl
        (λ i. owned-put issuer t u ne hash (record { token = tok; tenant = t }) m.tokens i refl e)
        (λ i. refl) (λ i. refl)

  issue-Undisturbed :
      (tok : EnrollmentToken) (m : Memory) → Undisturbed u m (create_enrollment_token t tok m).0
  unfolding create_enrollment_token
  issue-Undisturbed tok m =
      either_way u m (not (is_some (get by_id t m.tenants))) _ _ (same_store u m)
        (elim (Bool-cases (is_some (get by_id tok.hash m.tokens))) [
          | inl a ↦ rw a (same_store u m)
          | inr a ↦ rw a (
              put_token-Undisturbed tok.hash tok m
                (none_there issuer u (get by_id tok.hash m.tokens) a))
        ])

  consume_found-Undisturbed :
      (hash host : String) (now : Time) (m : Memory) (o : Option TokenRow)
      → get by_id hash m.tokens ≡ o
      → Undisturbed u m (consume_found t hash host now m o).0
  unfolding consume_found
  consume_found-Undisturbed hash host now m none e = same_store u m
  consume_found-Undisturbed hash host now m (some row) e = elim (Bool-cases (str_eq row.tenant t)) [
    | inr a ↦ rw a (same_store u m)
    | inl a ↦
        let f : row.tenant ≡ t = (eq_iff row.tenant t).0 a in
        let free : owned issuer u (get by_id hash m.tokens) ≡ none =
          rw (e, f, differ t u ne) refl in
        either_way u m (not (str_eq row.tenant t) || not (usable row.token now)) _ _
          (same_store u m)
          (row_tables u m m.tenants _ m.hosts m.certs refl
            (λ i.
              owned-put issuer t u ne hash (record row { token = consumed now host row.token })
                m.tokens i f free)
            (λ i. refl) (λ i. refl))
  ]

  swept-Undisturbed : (m : Memory) → Undisturbed u m (forget_tenant t m)
  unfolding forget_tenant
  swept-Undisturbed m =
      let apart : Undisturbed u m (record m {
        tenants = delete by_id t m.tenants;
        tokens = sweep issuer t m.tokens;
        hosts = sweep tenant_of t m.hosts;
        certs = sweep bearer t m.certs;
      }) =
        row_tables u m (delete by_id t m.tenants) _ _ _ (get-delete_other by_id t u m.tenants ne)
          (λ i. owned-sweep issuer t u ne m.tokens i) (λ i. owned-sweep tenant_of t u ne m.hosts i)
          (λ i. owned-sweep bearer t u ne m.certs i) in
      record {
        row = apart.row;
        token = apart.token;
        host = unfold find_host in apart.host;
        cert = apart.cert;
        queue = λ i. rw (differ u t (λ e. ne (sym e))) refl;
        job = λ i.
            get-keep_all scoped (λ e. not (str_eq e.0.0 t)) (u, i) m.records
              (λ v. rw (differ u t (λ e. ne (sym e))) refl);
        result = λ i. rw (differ u t (λ e. ne (sym e))) refl;
      }

  delete_tenant-Undisturbed : (m : Memory) → Undisturbed u m (delete_tenant t m).0
  unfolding delete_tenant
  delete_tenant-Undisturbed m =
      either_way u m (not (is_some (get by_id t m.tenants))) _ _ (same_store u m)
        (swept-Undisturbed m)

  create_tenant-Undisturbed :
      (row : TenantRow) (now : Time) (m : Memory) → Undisturbed u m (create_tenant t row now m).0
  unfolding create_tenant
  create_tenant-Undisturbed row now m =
      either_way u m (str_eq t "") _ _ (same_store u m)
        (insert_tenant-Undisturbed row now m (normalise_approval_mode row.approval_mode))

  pub step-Undisturbed : (op : Op) (m : Memory) → Undisturbed u m (step (t, op) m)
  unfolding step create_enrolled_host record_heartbeat store_facts store_policy store_signers update
      revoke_host add_certificate supersede_certificate update_tenant consume_enrollment_token
      approve_job record_result find_host
  step-Undisturbed (create n) m = create_job-Undisturbed t u ne n m
  step-Undisturbed (approve id by now) m =
      approve_found-Undisturbed t u ne id by now m (get scoped (t, id) m.records)
  step-Undisturbed (claim host limit now) m = claim_jobs-Undisturbed t u ne host limit now m
  step-Undisturbed (report host r now) m =
      record_found-Undisturbed t u ne host r now m (get scoped (t, r.job_id) m.records)
  step-Undisturbed (enrol h c) m = enrol_in-Undisturbed t u ne h c m (get by_id t m.tenants)
  step-Undisturbed (remove host) m = delete_host-Undisturbed t u ne host m
  step-Undisturbed (heartbeat host seen paused) m =
      update_found-Undisturbed t u ne host (λ h. record h { last_seen = seen; paused = paused }) m
        (of_tenant t (get by_id host m.hosts)) refl
  step-Undisturbed (facts host digest document) m =
      update_found-Undisturbed t u ne host
        (λ h. record h { facts = document; facts_digest = digest }) m
        (of_tenant t (get by_id host m.hosts)) refl
  step-Undisturbed (policy host digest document) m =
      update_found-Undisturbed t u ne host
        (λ h. record h { policy = document; policy_digest = digest }) m
        (of_tenant t (get by_id host m.hosts)) refl
  step-Undisturbed (signers host digest document) m =
      update_found-Undisturbed t u ne host
        (λ h. record h { signers = document; signers_digest = digest }) m
        (of_tenant t (get by_id host m.hosts)) refl
  step-Undisturbed (revoke host now) m =
      revoke_found-Undisturbed t u ne host now m (of_tenant t (get by_id host m.hosts)) refl
  step-Undisturbed (add_cert c) m = add_stamped-Undisturbed t u ne c m (stamp_certificate t c) refl
  step-Undisturbed (supersede fp at) m =
      supersede_found-Undisturbed t u ne fp at m (get by_id fp m.certs) refl
  step-Undisturbed (renew r) m = renew_certificate-Undisturbed t u ne r m
  step-Undisturbed (settle row now) m = create_tenant-Undisturbed row now m
  step-Undisturbed (reconfigure p) m = update_found_tenant-Undisturbed p m (get by_id t m.tenants)
  step-Undisturbed dissolve m = delete_tenant-Undisturbed m
  step-Undisturbed (issue tok) m = issue-Undisturbed tok m
  step-Undisturbed (redeem hash host now) m =
      consume_found-Undisturbed hash host now m (get by_id hash m.tokens) refl

-- Whatever operations the other tenants take, in whatever store, up to their removal, a tenant still
-- finds its own row, its tokens, its hosts, its certificates, the queues of its hosts, its jobs and
-- their results as they were.
pub steps-Undisturbed :
    (u : Tenant) (ops : List (Tenant × Op)) (m : Memory)
    → All (λ op. op.0 ≢ u) ops
    → Undisturbed u m (steps m ops)
unfolding steps
steps-Undisturbed u [] m h = same_store u m
steps-Undisturbed u ((t, op) ∷ ops) m (ne, h) =
    Undisturbed-trans u m (step (t, op) m) _ (step-Undisturbed t u ne op m)
      (steps-Undisturbed u ops (step (t, op) m) h)
