-- ===== src/Store/Machine.antt =====
-- internal/store/memory.go: the store as a machine that takes one operation after another.
use hostseal.Base.{Bytes, ◌≢◌, String, Bool, none, List, [], ◌∷◌}
use hostseal.Base.Int.{ℤ}
use hostseal.Policy.Time.{Time}
use hostseal.Agent.Run.{ResultRequest}
use hostseal.Store.State.{Tenant, TenantRow, EnrollmentToken, Host, Certificate, NewJob, Memory}
use hostseal.Store.Jobs.{create_job, approve_job, claim_jobs, record_result}
use hostseal.Store.Hosts.{
  create_enrolled_host, delete_host, record_heartbeat, store_facts, store_policy, store_signers,
  revoke_host, supersede_certificate, add_certificate, Renewal, renew_certificate,
}
use hostseal.Store.Tenants.{
  create_tenant, TenantPatch, update_tenant, delete_tenant, create_enrollment_token,
  consume_enrollment_token,
}
use hostseal.Store.Sound.{IsSound}

pub data Op : Type 0 where
  create : NewJob → Op
  approve : String → String → Time → Op
  claim : String → ℤ → Time → Op
  report : String → ResultRequest → Time → Op
  enrol : Host → Certificate → Op
  remove : String → Op
  heartbeat : String → Time → Bool → Op
  facts : String → String → Bytes → Op
  policy : String → String → Bytes → Op
  signers : String → String → Bytes → Op
  revoke : String → Time → Op
  add_cert : Certificate → Op
  supersede : String → Time → Op
  renew : Renewal → Op
  settle : TenantRow → Time → Op
  reconfigure : TenantPatch → Op
  dissolve : Op
  issue : EnrollmentToken → Op
  redeem : String → String → Time → Op

-- One operation of a tenant, or one that founds, changes or removes it.
unfoldable pub step : Tenant × Op → Memory → Memory
step (t, create n) m = (create_job t n m).0
step (t, approve id approver now) m = (approve_job t id approver now m).0
step (t, claim host limit now) m = (claim_jobs t host limit now m).0
step (t, report host r now) m = (record_result t host r now m).0
step (t, enrol h c) m = (create_enrolled_host t h c m).0
step (t, remove host) m = (delete_host t host m).0
step (t, heartbeat host seen paused) m = (record_heartbeat t host seen paused m).0
step (t, facts host digest document) m = (store_facts t host digest document m).0
step (t, policy host digest document) m = (store_policy t host digest document m).0
step (t, signers host digest document) m = (store_signers t host digest document m).0
step (t, revoke host now) m = (revoke_host t host now m).0
step (t, add_cert c) m = (add_certificate t c m).0
step (t, supersede fp at) m = supersede_certificate t fp at m
step (t, renew r) m = (renew_certificate t r m).0
step (t, settle row now) m = (create_tenant t row now m).0
step (t, reconfigure p) m = (update_tenant t p m).0
step (t, dissolve) m = (delete_tenant t m).0
step (t, issue tok) m = (create_enrollment_token t tok m).0
step (t, redeem hash host now) m = (consume_enrollment_token t hash host now m).0

unfoldable pub steps : Memory → List (Tenant × Op) → Memory
steps m [] = m
steps m (op ∷ ops) = steps (step op m) ops

-- The clock of the server does not show the zero time.
abbrev pub Timely : Tenant × Op → Type 0
Timely (t, approve id approver now) = now ≢ 0
Timely (t, claim host limit now) = now ≢ 0
Timely _ = Unit

-- A store with some tenants and nothing else.
abbrev pub fresh : List (Tenant × TenantRow) → Memory
fresh ts = record {
  tenants = ts;
  tokens = [];
  hosts = [];
  certs = [];
  jobs = λ q. [];
  records = [];
  results = λ k. none;
  waiters = λ h. [];
}

pub fresh-IsSound : (ts : List (Tenant × TenantRow)) → IsSound (fresh ts)
fresh-IsSound ts = record {
  queued = λ q. tt;
  apart = λ q. tt;
  approvals = tt;
  reported = λ k {r = x} h. cc;
}
