-- ===== src/Store/Hosts.antt =====
-- internal/store/memory.go: hosts and their certificates.
use hostseal.Base.{
  Bytes, ℕ, String, Bool, true, false, not, ◌&&◌, ◌||◌, Option, none, some, List, [], Result, ok,
  err, str_eq, ltb, if◌then◌else◌, keep, count_if, map,
}
use hostseal.Base.Int.{ℤ, pos, ltb_ℤ}
use hostseal.Base.Assoc.{get, put, delete}
use hostseal.Policy.Time.{Time, is_zero}
use hostseal.Store.State.{
  Tenant, TenantRow, ScopedKey, scoped, by_id, Host, HostRow, Certificate, JobRecord, Memory,
  StoreError, not_found, conflict, unknown_tenant, host_limit_reached, too_many_certificates,
  wrong_host, wrong_tenant, set,
}
use hostseal.Store.Jobs.{is_some, find_host}

-- `stampCertificate`
unfoldable pub stamp_certificate : Tenant → Certificate → Result StoreError Certificate
stamp_certificate t c =
    if str_eq c.tenant_id ""
    then ok (record c { tenant_id = t })
    else if str_eq c.tenant_id t
    then ok c
    else err wrong_tenant

abbrev pub is_active : Tenant → String × HostRow → Bool
is_active t e = str_eq e.1.tenant t && not e.1.host.revoked

-- The hosts of a tenant that are not revoked.
abbrev pub active_hosts : Tenant → Memory → ℕ
active_hosts t m = count_if (is_active t) m.hosts

unfoldable pub has_room : Option ℤ → ℕ → Bool
has_room none n = true
has_room (some limit) n = ltb_ℤ (pos n) limit

unfoldable pub machine_taken : Tenant → Host → List (String × HostRow) → Bool
machine_taken t h rows =
    not (str_eq h.machine_id_hash "")
    && ltb 0
        (count_if (λ e. is_active t e && str_eq e.1.host.machine_id_hash h.machine_id_hash) rows)

unfoldable pub enrol_stamped :
    Tenant → Host → Memory → Result StoreError Certificate → Memory × Result StoreError (Unit {0})
enrol_stamped t h m (err e) = (m, err e)
enrol_stamped t h m (ok cert) =
    if is_some (get by_id h.id m.hosts)
    then (m, err conflict)
    else if is_some (get by_id cert.fingerprint m.certs)
    then (m, err conflict)
    else if machine_taken t h m.hosts
    then (m, err conflict)
    else (
      record m {
        hosts = put by_id h.id (record { host = h; tenant = t }) m.hosts;
        certs = put by_id cert.fingerprint cert m.certs;
      },
      ok tt,
    )

unfoldable pub enrol_in :
    Tenant → Host → Certificate → Memory → Option TenantRow → Memory × Result StoreError (Unit {0})
unfolding enrol_stamped stamp_certificate
enrol_in t h c m none = (m, err unknown_tenant)
enrol_in t h c m (some row) =
    if not (has_room row.host_limit (active_hosts t m))
    then (m, err host_limit_reached)
    else if not (str_eq c.host_id h.id)
    then (m, err wrong_host)
    else enrol_stamped t h m (stamp_certificate t c)

unfoldable pub create_enrolled_host :
    Tenant → Host → Certificate → Memory → Memory × Result StoreError (Unit {0})
unfolding enrol_in
create_enrolled_host t h c m = enrol_in t h c m (get by_id t m.tenants)

abbrev pub owns_cert : Tenant → String → String × Certificate → Bool
owns_cert t host e = str_eq e.1.tenant_id t && str_eq e.1.host_id host

abbrev pub owns_job : Tenant → String → ScopedKey × JobRecord → Bool
owns_job t host e = str_eq e.0.0 t && str_eq e.1.host_id host

unfoldable pub is_job_of : Tenant → String → ScopedKey → Option JobRecord → Bool
is_job_of t host k none = false
is_job_of t host k (some rec) = owns_job t host (k, rec)

-- The loop over the certificates: a key goes if the row that the map holds under it is the host's.
unfoldable pub is_cert_of : Tenant → String → String → Option Certificate → Bool
is_cert_of t host fp none = false
is_cert_of t host fp (some c) = owns_cert t host (fp, c)

-- Everything of a host, without the host.
unfoldable pub forget_host : Tenant → String → Memory → Memory
unfolding is_job_of is_cert_of
forget_host t id m = record m {
  hosts = delete by_id id m.hosts;
  certs = keep (λ e. not (is_cert_of t id e.0 (get by_id e.0 m.certs))) m.certs;
  jobs = set (t, id) [] m.jobs;
  records = keep (λ e. not (owns_job t id e)) m.records;
  results = λ k. if is_job_of t id k (get scoped k m.records) then none else m.results k;
}

unfoldable pub delete_host : Tenant → String → Memory → Memory × Result StoreError (Unit {0})
unfolding forget_host
delete_host t id m =
    if is_some (find_host t id m) then (forget_host t id m, ok tt) else (m, err not_found)

-- `update`: every change of a host's row goes through it.
unfoldable pub update_found :
    Tenant → String → (Host → Host) → Memory → Option Host → Memory × Result StoreError (Unit {0})
update_found t id apply m none = (m, err not_found)
update_found t id apply m (some h) =
    (record m { hosts = put by_id id (record { host = apply h; tenant = t }) m.hosts }, ok tt)

unfoldable pub update :
    Tenant → String → (Host → Host) → Memory → Memory × Result StoreError (Unit {0})
unfolding update_found
update t id apply m = update_found t id apply m (find_host t id m)

-- `RecordHeartbeat`, of the fields that are modelled.
unfoldable pub record_heartbeat :
    Tenant → String → Time → Bool → Memory → Memory × Result StoreError (Unit {0})
record_heartbeat t id seen paused m =
    update t id (λ h. record h { last_seen = seen; paused = paused }) m

-- `StoreFacts`, `StorePolicy` and `StoreSigners`: a document and its digest.
unfoldable pub store_facts :
    Tenant → String → String → Bytes → Memory → Memory × Result StoreError (Unit {0})
store_facts t id digest document m =
    update t id (λ h. record h { facts = document; facts_digest = digest }) m

unfoldable pub store_policy :
    Tenant → String → String → Bytes → Memory → Memory × Result StoreError (Unit {0})
store_policy t id digest document m =
    update t id (λ h. record h { policy = document; policy_digest = digest }) m

unfoldable pub store_signers :
    Tenant → String → String → Bytes → Memory → Memory × Result StoreError (Unit {0})
store_signers t id digest document m =
    update t id (λ h. record h { signers = document; signers_digest = digest }) m

abbrev pub revoke_cert : Tenant → String → Time → String × Certificate → String × Certificate
revoke_cert t host now e =
    if owns_cert t host e then (e.0, record e.1 { revoked = true; revoked_at = now }) else e

unfoldable pub revoke_found :
    Tenant → String → Time → Memory → Option Host → Memory × Result StoreError (Unit {0})
revoke_found t id now m none = (m, err not_found)
revoke_found t id now m (some h) = (
  record m {
    hosts = put by_id id (record { host = record h { revoked = true }; tenant = t }) m.hosts;
    certs = map (revoke_cert t id now) m.certs;
  },
  ok tt,
)

unfoldable pub revoke_host : Tenant → String → Time → Memory → Memory × Result StoreError (Unit {0})
unfolding revoke_found
revoke_host t id now m = revoke_found t id now m (find_host t id m)

-- A certificate of this host that could still authenticate.
abbrev pub is_live : Tenant → String → Time → String × Certificate → Bool
is_live t host now e =
    owns_cert t host e
    && not e.1.revoked
    && ltb now e.1.not_after
    && (is_zero e.1.superseded_at || ltb now e.1.superseded_at)

unfoldable pub count_live_certificates : Tenant → String → Time → Memory → ℕ
count_live_certificates t host now m = count_if (is_live t host now) m.certs

-- The earlier time wins.
unfoldable pub supersede_found : Tenant → String → Time → Memory → Option Certificate → Memory
supersede_found t fp at m none = m
supersede_found t fp at m (some c) =
    if str_eq c.tenant_id t && (is_zero c.superseded_at || ltb at c.superseded_at)
    then record m { certs = put by_id fp (record c { superseded_at = at }) m.certs }
    else m

unfoldable pub supersede_certificate : Tenant → String → Time → Memory → Memory
unfolding supersede_found
supersede_certificate t fp at m = supersede_found t fp at m (get by_id fp m.certs)

-- A fingerprint that is recorded stays as it is.
unfoldable pub insert_certificate : Certificate → Memory → Memory
insert_certificate c m =
    if is_some (get by_id c.fingerprint m.certs)
    then m
    else record m { certs = put by_id c.fingerprint c m.certs }

unfoldable pub add_stamped :
    Tenant → Memory → Result StoreError Certificate → Memory × Result StoreError (Unit {0})
unfolding insert_certificate
add_stamped t m (err e) = (m, err e)
add_stamped t m (ok c) =
    if is_some (find_host t c.host_id m)
    then (insert_certificate c m, ok tt)
    else (m, err wrong_host)

unfoldable pub add_certificate :
    Tenant → Certificate → Memory → Memory × Result StoreError (Unit {0})
unfolding add_stamped
add_certificate t c m = add_stamped t m (stamp_certificate t c)

pub record Renewal : Type 0 where
  pub replacement : Certificate
  pub presented : String
  pub supersede_at : Time
  pub max_live : ℤ
  pub now : Time

unfoldable pub renew_stamped :
    Tenant
    → Renewal
    → Memory
    → Result StoreError Certificate
    → Memory × Result StoreError (Unit {0})
unfolding insert_certificate supersede_certificate
renew_stamped t r m (err e) = (m, err e)
renew_stamped t r m (ok c) =
    (supersede_certificate t r.presented r.supersede_at (insert_certificate c m), ok tt)

unfoldable pub renew_certificate : Tenant → Renewal → Memory → Memory × Result StoreError (Unit {0})
unfolding renew_stamped
renew_certificate t r m =
    if not (is_some (find_host t r.replacement.host_id m))
    then (m, err not_found)
    else if not (ltb_ℤ (pos (count_live_certificates t r.replacement.host_id r.now m)) r.max_live)
    then (m, err too_many_certificates)
    else renew_stamped t r m (stamp_certificate t r.replacement)
