-- ===== src/Store/State.antt =====
-- internal/store/store.go and memory.go: the rows of the store that jobs and hosts are about.
use hostseal.Base.{
  Bytes, ℕ, ◌≡◌, String, Bool, true, ◌&&◌, ◌↔◌, Option, List, str_eq, eq_iff, if◌then◌else◌, arith,
}
use hostseal.Base.Int.{ℤ}
use hostseal.Base.Assoc.{Key}
use hostseal.Policy.Time.{Time}
use hostseal.Agent.Job.{Job}
use hostseal.Agent.Run.{ResultRequest}

-- `TenantID`
abbrev pub Tenant : Type 0
Tenant = String

-- `jobKey` and `queueKey`: a tenant, and the id of a job or of a host.
abbrev pub ScopedKey : Type 0
ScopedKey = Tenant × String

abbrev same_scoped : ScopedKey → ScopedKey → Bool
same_scoped (t, a) (u, b) = str_eq t u && str_eq a b

pub same_scoped_iff : (a b : ScopedKey) → (same_scoped a b ≡ true) ↔ (a ≡ b)
same_scoped_iff (t, a) (u, b) = ground (arith, eq_iff t u, eq_iff a b)

abbrev pub scoped : Key ScopedKey
scoped = record { same = same_scoped; same_iff = same_scoped_iff }

abbrev pub by_id : Key String
by_id = record { same = str_eq; same_iff = eq_iff }

-- The fields of `Host` that decide anything; the others are shown to people.
pub record Host : Type 0 where
  pub id : String
  pub machine_id_hash : String
  pub last_seen : Time
  pub paused : Bool
  pub facts_digest : String
  pub policy_digest : String
  pub signers_digest : String
  pub facts : Bytes
  pub policy : Bytes
  pub signers : Bytes
  pub revoked : Bool

-- `ApprovalMode`: how a tenant releases a destructive job.
abbrev pub ApprovalMode : Type 0
ApprovalMode = String

abbrev pub approval_none : ApprovalMode
approval_none = "none"

abbrev pub approval_self : ApprovalMode
approval_self = "self"

abbrev pub approval_second_person : ApprovalMode
approval_second_person = "second_person"

-- A row of the tenants, without the texts that are only shown or posted to.
pub record TenantRow : Type 0 where
  pub slug : String
  pub created_at : Time
  pub approval_mode : ApprovalMode
  pub host_limit : Option ℤ
  pub suspended : Bool

pub record EnrollmentToken : Type 0 where
  pub hash : String
  pub expires_at : Time
  pub consumed_at : Time
  pub consumed_by_host : String

pub record TokenRow : Type 0 where
  pub token : EnrollmentToken
  pub tenant : Tenant

pub record HostRow : Type 0 where
  pub host : Host
  pub tenant : Tenant

pub record Certificate : Type 0 where
  pub fingerprint : String
  pub host_id : String
  pub tenant_id : Tenant
  pub not_after : Time
  pub revoked : Bool
  pub revoked_at : Time
  pub superseded_at : Time

-- The result of a job stands in a map of its own, as in the source.
pub record JobRecord : Type 0 where
  pub job : Job
  pub host_id : String
  pub created_at : Time
  pub created_by : String
  pub approval_required : Bool
  pub approval_distinct_operator : Bool
  pub approved_at : Time
  pub approved_by : String
  pub claimed_at : Time
  pub completed_at : Time

pub record NewJob : Type 0 where
  pub job : Job
  pub host_id : String
  pub created_by : String
  pub approval_required : Bool
  pub approval_distinct_operator : Bool

-- `Memory`. The queues and the results are maps that
-- the source only reads and writes by their key: a missing queue is the empty one.
pub record Memory : Type 0 where
  pub tenants : List (Tenant × TenantRow)
  pub tokens : List (String × TokenRow)
  pub hosts : List (String × HostRow)
  pub certs : List (String × Certificate)
  pub jobs : ScopedKey → List Job
  pub records : List (ScopedKey × JobRecord)
  pub results : ScopedKey → Option ResultRequest
  pub waiters : String → List ℕ

pub data StoreError : Type 0 where
  not_found conflict unknown_tenant host_limit_reached too_many_certificates : StoreError
  wrong_host wrong_tenant token_unusable no_id unknown_mode : StoreError

-- A map that differs from `f` at one key.
unfoldable pub set : {V : Type 0} → ScopedKey → V → (ScopedKey → V) → ScopedKey → V
set a v f b = if scoped.same a b then v else f b
