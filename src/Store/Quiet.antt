-- ===== src/Store/Quiet.antt =====
-- internal/store/memory.go: the operations on tenants, tokens, hosts and certificates touch no job.
use hostseal.Base.{
  ◌≡◌, ◌∙◌, ap, not, inl, inr, refl, String, ◌&&◌, ◌||◌, Option, none, some, List, Bool-cases,
  str_eq, Result, ok, err, ltb,
}
use hostseal.Base.Int.{pos, ltb_ℤ}
use hostseal.Base.Assoc.{get}
use hostseal.Policy.Time.{Time, is_zero}
use hostseal.Store.State.{
  Tenant, TenantRow, ApprovalMode, EnrollmentToken, TokenRow, by_id, Host, HostRow, Certificate,
  Memory, StoreError,
}
use hostseal.Store.Jobs.{is_some, find_host}
use hostseal.Store.Hosts.{
  active_hosts, has_room, machine_taken, stamp_certificate, enrol_stamped, enrol_in,
  create_enrolled_host, update_found, update, record_heartbeat, store_facts, store_policy,
  store_signers, revoke_found, revoke_host, supersede_found, supersede_certificate,
  insert_certificate, add_stamped, add_certificate, Renewal, count_live_certificates, renew_stamped,
  renew_certificate,
}
use hostseal.Store.Tenants.{
  has_slug, insert_tenant, create_tenant, normalise_approval_mode, TenantPatch, patched_mode,
  update_row, update_found_tenant, update_tenant, create_enrollment_token, usable, consume_found,
  consume_enrollment_token,
}
use hostseal.Store.Machine.{
  Op, step, create, approve, claim, report, enrol, remove, heartbeat, facts, policy, signers,
  revoke, add_cert, supersede, renew, settle, reconfigure, dissolve, issue, redeem,
}

-- The second store is the first with other tenants, tokens, hosts and certificates.
abbrev pub HostsOnly : Memory → Memory → Type 0
HostsOnly m n =
    (ts : List (Tenant × TenantRow)) × (ks : List (String × TokenRow)) × (hs : List
      (String × HostRow))
    × (cs : List (String × Certificate)) × (n
        ≡ record m { tenants = ts; tokens = ks; hosts = hs; certs = cs })

unchanged : (m : Memory) → HostsOnly m m
unchanged m = (m.tenants, m.tokens, m.hosts, m.certs, refl)

both : (m n o : Memory) → HostsOnly m n → HostsOnly n o → HostsOnly m o
both m n o (ts, ks, hs, cs, e) (ts', ks', hs', cs', f) = (
  ts',
  ks',
  hs',
  cs',
  f ∙ ap {A = Memory} (λ x. record x { tenants = ts'; tokens = ks'; hosts = hs'; certs = cs' }) e,
)

insert-HostsOnly : (c : Certificate) (m : Memory) → HostsOnly m (insert_certificate c m)
unfolding insert_certificate
insert-HostsOnly c m = elim (Bool-cases (is_some (get by_id c.fingerprint m.certs))) [
  | inl e ↦ rw e (unchanged m)
  | inr e ↦ rw e (m.tenants, m.tokens, m.hosts, _, refl)
]

supersede_found-HostsOnly :
    (t : Tenant) (fp : String) (at : Time) (m : Memory) (o : Option Certificate)
    → HostsOnly m (supersede_found t fp at m o)
unfolding supersede_found
supersede_found-HostsOnly t fp at m none = unchanged m
supersede_found-HostsOnly t fp at m (some c) =
    elim (Bool-cases
      (str_eq c.tenant_id t && (is_zero c.superseded_at || ltb at c.superseded_at))) [
        | inl e ↦ rw e (m.tenants, m.tokens, m.hosts, _, refl)
        | inr e ↦ rw e (unchanged m)
      ]

add_stamped-HostsOnly :
    (t : Tenant) (m : Memory) (r : Result StoreError Certificate)
    → HostsOnly m (add_stamped t m r).0
unfolding add_stamped
add_stamped-HostsOnly t m (err e) = unchanged m
add_stamped-HostsOnly t m (ok c) = elim (Bool-cases (is_some (find_host t c.host_id m))) [
  | inl e ↦ rw e (insert-HostsOnly c m)
  | inr e ↦ rw e (unchanged m)
]

renew_stamped-HostsOnly :
    (t : Tenant) (r : Renewal) (m : Memory) (c : Result StoreError Certificate)
    → HostsOnly m (renew_stamped t r m c).0
unfolding renew_stamped supersede_certificate
renew_stamped-HostsOnly t r m (err e) = unchanged m
renew_stamped-HostsOnly t r m (ok c) =
    let n = insert_certificate c m in
    both m n _ (insert-HostsOnly c m)
      (supersede_found-HostsOnly t r.presented r.supersede_at n (get by_id r.presented n.certs))

renew_certificate-HostsOnly :
    (t : Tenant) (r : Renewal) (m : Memory) → HostsOnly m (renew_certificate t r m).0
unfolding renew_certificate
renew_certificate-HostsOnly t r m =
    elim (Bool-cases (is_some (find_host t r.replacement.host_id m))) [
      | inr e ↦ rw e (unchanged m)
      | inl e ↦
          elim (Bool-cases
            (ltb_ℤ (pos (count_live_certificates t r.replacement.host_id r.now m)) r.max_live)) [
              | inr f ↦ rw (e, f) (unchanged m)
              | inl f ↦
                  rw (e, f) (renew_stamped-HostsOnly t r m (stamp_certificate t r.replacement))
            ]
    ]

enrol_stamped-HostsOnly :
    (t : Tenant) (h : Host) (m : Memory) (c : Result StoreError Certificate)
    → HostsOnly m (enrol_stamped t h m c).0
unfolding enrol_stamped
enrol_stamped-HostsOnly t h m (err e) = unchanged m
enrol_stamped-HostsOnly t h m (ok cert) = elim (Bool-cases (is_some (get by_id h.id m.hosts))) [
  | inl a ↦ rw a (unchanged m)
  | inr a ↦ elim (Bool-cases (is_some (get by_id cert.fingerprint m.certs))) [
    | inl b ↦ rw (a, b) (unchanged m)
    | inr b ↦ elim (Bool-cases (machine_taken t h m.hosts)) [
      | inl c ↦ rw (a, b, c) (unchanged m)
      | inr c ↦ rw (a, b, c) (m.tenants, m.tokens, _, _, refl)
    ]
  ]
]

enrol_in-HostsOnly :
    (t : Tenant) (h : Host) (c : Certificate) (m : Memory) (o : Option TenantRow)
    → HostsOnly m (enrol_in t h c m o).0
unfolding enrol_in
enrol_in-HostsOnly t h c m none = unchanged m
enrol_in-HostsOnly t h c m (some row) =
    elim (Bool-cases (has_room row.host_limit (active_hosts t m))) [
      | inr a ↦ rw a (unchanged m)
      | inl a ↦ elim (Bool-cases (str_eq c.host_id h.id)) [
        | inr b ↦ rw (a, b) (unchanged m)
        | inl b ↦ rw (a, b) (enrol_stamped-HostsOnly t h m (stamp_certificate t c))
      ]
    ]

update_found-HostsOnly :
    (t : Tenant) (id : String) (f : Host → Host) (m : Memory) (o : Option Host)
    → HostsOnly m (update_found t id f m o).0
unfolding update_found
update_found-HostsOnly t id f m none = unchanged m
update_found-HostsOnly t id f m (some h) = (m.tenants, m.tokens, _, m.certs, refl)

revoke_found-HostsOnly :
    (t : Tenant) (id : String) (now : Time) (m : Memory) (o : Option Host)
    → HostsOnly m (revoke_found t id now m o).0
unfolding revoke_found
revoke_found-HostsOnly t id now m none = unchanged m
revoke_found-HostsOnly t id now m (some h) = (m.tenants, m.tokens, _, _, refl)

insert_tenant-HostsOnly :
    (t : Tenant) (row : TenantRow) (now : Time) (m : Memory) (r : Result StoreError ApprovalMode)
    → HostsOnly m (insert_tenant t row now m r).0
unfolding insert_tenant
insert_tenant-HostsOnly t row now m (err e) = unchanged m
insert_tenant-HostsOnly t row now m (ok mode) =
    elim (Bool-cases (is_some (get by_id t m.tenants))) [
      | inl a ↦ rw a (unchanged m)
      | inr a ↦ elim (Bool-cases (has_slug row.slug m.tenants)) [
        | inl b ↦ rw (a, b) (unchanged m)
        | inr b ↦ rw (a, b) (_, m.tokens, m.hosts, m.certs, refl)
      ]
    ]

create_tenant-HostsOnly :
    (t : Tenant) (row : TenantRow) (now : Time) (m : Memory)
    → HostsOnly m (create_tenant t row now m).0
unfolding create_tenant
create_tenant-HostsOnly t row now m = elim (Bool-cases (str_eq t "")) [
  | inl a ↦ rw a (unchanged m)
  | inr a ↦ rw a (insert_tenant-HostsOnly t row now m (normalise_approval_mode row.approval_mode))
]

update_row-HostsOnly :
    (t : Tenant) (p : TenantPatch) (m : Memory) (r : Result StoreError TenantRow)
    → HostsOnly m (update_row t p m r).0
unfolding update_row
update_row-HostsOnly t p m (err e) = unchanged m
update_row-HostsOnly t p m (ok row) = (_, m.tokens, m.hosts, m.certs, refl)

update_found_tenant-HostsOnly :
    (t : Tenant) (p : TenantPatch) (m : Memory) (o : Option TenantRow)
    → HostsOnly m (update_found_tenant t p m o).0
unfolding update_found_tenant
update_found_tenant-HostsOnly t p m none = unchanged m
update_found_tenant-HostsOnly t p m (some row) =
    update_row-HostsOnly t p m (patched_mode row p.approval_mode)

issue-HostsOnly :
    (t : Tenant) (tok : EnrollmentToken) (m : Memory)
    → HostsOnly m (create_enrollment_token t tok m).0
unfolding create_enrollment_token
issue-HostsOnly t tok m = elim (Bool-cases (is_some (get by_id t m.tenants))) [
  | inr a ↦ rw a (unchanged m)
  | inl a ↦ elim (Bool-cases (is_some (get by_id tok.hash m.tokens))) [
    | inl b ↦ rw (a, b) (unchanged m)
    | inr b ↦ rw (a, b) (m.tenants, _, m.hosts, m.certs, refl)
  ]
]

consume_found-HostsOnly :
    (t : Tenant) (hash host : String) (now : Time) (m : Memory) (o : Option TokenRow)
    → HostsOnly m (consume_found t hash host now m o).0
unfolding consume_found
consume_found-HostsOnly t hash host now m none = unchanged m
consume_found-HostsOnly t hash host now m (some row) =
    elim (Bool-cases (not (str_eq row.tenant t) || not (usable row.token now))) [
      | inl a ↦ rw a (unchanged m)
      | inr a ↦ rw a (m.tenants, _, m.hosts, m.certs, refl)
    ]

-- An operation on tenants, tokens, hosts and certificates that removes no host and no tenant.
abbrev pub IsHostOp : Op → Type 0
IsHostOp (enrol h c) = Unit
IsHostOp (heartbeat host seen paused) = Unit
IsHostOp (facts host digest document) = Unit
IsHostOp (policy host digest document) = Unit
IsHostOp (signers host digest document) = Unit
IsHostOp (revoke host now) = Unit
IsHostOp (add_cert c) = Unit
IsHostOp (supersede fp at) = Unit
IsHostOp (renew r) = Unit
IsHostOp (settle row now) = Unit
IsHostOp (reconfigure p) = Unit
IsHostOp (issue tok) = Unit
IsHostOp (redeem hash host now) = Unit
IsHostOp _ = Unit → ⊥

pub step-HostsOnly :
    (t : Tenant) (op : Op) (m : Memory) → IsHostOp op → HostsOnly m (step (t, op) m)
unfolding step create_enrolled_host record_heartbeat store_facts store_policy store_signers update
    revoke_host add_certificate supersede_certificate update_tenant consume_enrollment_token
step-HostsOnly t (enrol h c) m i = enrol_in-HostsOnly t h c m (get by_id t m.tenants)
step-HostsOnly t (heartbeat host seen paused) m i =
    update_found-HostsOnly t host (λ h. record h { last_seen = seen; paused = paused }) m
      (find_host t host m)
step-HostsOnly t (facts host digest document) m i =
    update_found-HostsOnly t host (λ h. record h { facts = document; facts_digest = digest }) m
      (find_host t host m)
step-HostsOnly t (policy host digest document) m i =
    update_found-HostsOnly t host (λ h. record h { policy = document; policy_digest = digest }) m
      (find_host t host m)
step-HostsOnly t (signers host digest document) m i =
    update_found-HostsOnly t host (λ h. record h { signers = document; signers_digest = digest }) m
      (find_host t host m)
step-HostsOnly t (revoke host now) m i = revoke_found-HostsOnly t host now m (find_host t host m)
step-HostsOnly t (add_cert c) m i = add_stamped-HostsOnly t m (stamp_certificate t c)
step-HostsOnly t (supersede fp at) m i = supersede_found-HostsOnly t fp at m (get by_id fp m.certs)
step-HostsOnly t (renew r) m i = renew_certificate-HostsOnly t r m
step-HostsOnly t (settle row now) m i = create_tenant-HostsOnly t row now m
step-HostsOnly t (reconfigure p) m i = update_found_tenant-HostsOnly t p m (get by_id t m.tenants)
step-HostsOnly t (issue tok) m i = issue-HostsOnly t tok m
step-HostsOnly t (redeem hash host now) m i =
    consume_found-HostsOnly t hash host now m (get by_id hash m.tokens)
step-HostsOnly t (dissolve) m i = absurd (i tt)
step-HostsOnly t (create n) m i = absurd (i tt)
step-HostsOnly t (approve id by now) m i = absurd (i tt)
step-HostsOnly t (claim host limit now) m i = absurd (i tt)
step-HostsOnly t (report host r now) m i = absurd (i tt)
step-HostsOnly t (remove host) m i = absurd (i tt)
